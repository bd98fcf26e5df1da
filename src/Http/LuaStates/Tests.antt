-- ===== src/Http/LuaStates/Tests.antt =====
-- A script with a stack of three slots, as `load_scripts` makes it, with one state idle.
use blocks.Prelude.{◌≡◌, refl, [], ◌∷◌, none, some, arith}
use blocks.Prelude.Int.{pos}
use blocks.Http.Buffer.{codes}
use blocks.Http.LuaStates.{LuaService, strncmp, get_script}
use blocks.Http.LuaStates.Balanced.{Sound, Again, borrow-Sound}

abbrev service : LuaService
service = record {
  pattern = codes "/l/";
  pattern_size = 3;
  idle_state_top = pos 0;
  idle_stack_size = 3;
  idle_states = 70 ∷ 0 ∷ 0 ∷ [];
  filename = codes "scripts/init.lua";
  mimetype = codes "text/html";
}

service-Sound : Sound service
service-Sound = record { size = refl; top = omega arith; some_room = omega arith }

borrow-Sound_example : Again service 71 72
borrow-Sound_example = borrow-Sound service 71 72 service-Sound

served : get_script (service ∷ []) (codes "/l/app") ≡ some 0
unfolding get_script strncmp
served = refl

not_served : get_script (service ∷ []) (codes "/list") ≡ none
unfolding get_script strncmp
not_served = refl
