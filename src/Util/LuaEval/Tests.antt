-- ===== src/Util/LuaEval/Tests.antt =====
-- A stack of numbers, in which those above 99 are functions.
use blocks.Prelude.{ℕ, ◌≡◌, refl, Bool, List, [], ◌∷◌, some, ltb, if◌then◌else◌, ◌==◌}
use blocks.Util.LuaEval.{ok, errrun, Called, returned, failed, lua_eval_part, lua_eval, finish}
use blocks.Util.LuaEval.Stacks.{lua_eval_part-outcome}

abbrev is_function : ℕ → Bool
is_function n = ltb 99 n

-- Function 100 returns its arguments, and any other raises an error.
abbrev call : ℕ → List ℕ → Called ℕ
call f args = if f == 100 then returned args else failed errrun 0

lua_eval_part-outcome_example :
    lua_eval_part is_function 999 call (7 ∷ 100 ∷ 1 ∷ 2 ∷ []) 2 ≡ some (ok, 7 ∷ 1 ∷ 2 ∷ [])
lua_eval_part-outcome_example =
    lua_eval_part-outcome is_function 999 call (7 ∷ []) (1 ∷ 2 ∷ []) 100 refl

cleared : lua_eval_part is_function 999 call (7 ∷ 101 ∷ 1 ∷ []) 1 ≡ some (errrun, [])
unfolding lua_eval_part finish
cleared = refl

no_function : lua_eval is_function 999 call [] ≡ some (errrun, [])
unfolding lua_eval lua_eval_part
no_function = refl
