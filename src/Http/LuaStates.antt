-- ===== src/Http/LuaStates.antt =====
-- src/http/httpd_conf.h and src/http/request_processor.c: the scripts that serve requests, and the stack
-- of idle Lua states of each. A Lua state is the number of its address; `none` is an access outside
-- `idle_states`.
pub mod Balanced
mod Tests
use blocks.Prelude.{
  ℕ, zero, suc, ◌+◌, Bool, true, false, List, [], ◌∷◌, Option, none, some, ltb, ◌==◌, if◌then◌else◌,
  ◌>>=◌, ◌&&◌, get_elem?,
}
use blocks.Prelude.Int.{ℤ, pos, negsuc, succ, pred}
use blocks.Http.Buffer.{write}

-- httpd_lua_state_t
pub record LuaService : Type 0 where
  pub pattern : List ℕ
  pub pattern_size : ℕ
  pub idle_state_top : ℤ
  pub idle_stack_size : ℕ
  pub idle_states : List ℕ
  pub filename : List ℕ
  pub mimetype : List ℕ

unfoldable pub get_state_at : ℤ → LuaService → ℕ → Option (ℕ × LuaService)
get_state_at (negsuc n) state fresh = some (fresh, state)
get_state_at (pos top) state fresh = do
  l ← get_elem? state.idle_states top
  some (l, record state { idle_state_top = pred (pos top) })

-- `fresh` is the state that `luaL_newstate` makes, with the script evaluated, if none is idle.
unfoldable pub get_lua_state : LuaService → ℕ → Option (ℕ × LuaService)
unfolding get_state_at
get_lua_state state fresh = get_state_at state.idle_state_top state fresh

-- `stack_top - 1 < idle_stack_size`
unfoldable pub has_room : ℤ → ℕ → Bool
has_room (negsuc n) size = true
has_room (pos top) size = ltb top (size + 1)

unfoldable pub push_at : ℤ → LuaService → ℕ → Option (Bool × LuaService)
unfolding write
push_at (negsuc n) state l = none
push_at (pos top) state l = do
  states ← write state.idle_states top l
  some (false, record state { idle_states = states; idle_state_top = pos top })

-- The flag says that the state went to `lua_close`.
unfoldable pub return_lua_state : LuaService → ℕ → Option (Bool × LuaService)
unfolding has_room push_at
return_lua_state state l =
    if has_room state.idle_state_top state.idle_stack_size
    then push_at (succ state.idle_state_top) state l
    else some (true, state)

-- `strncmp(a, b, n) == 0` for strings without their closing zeros.
unfoldable pub strncmp : List ℕ → List ℕ → ℕ → Bool
strncmp a b zero = true
strncmp [] [] (suc n) = true
strncmp [] (d ∷ b) (suc n) = false
strncmp (c ∷ a) [] (suc n) = false
strncmp (c ∷ a) (d ∷ b) (suc n) = (c == d) && strncmp a b n

-- The script for a path, by its place in `lua_states`, whose end has a NULL pattern.
unfoldable pub get_script : List LuaService → List ℕ → Option ℕ
get_script [] path = none
get_script (state ∷ states) path =
    let rest = get_script states path in
    if strncmp state.pattern path state.pattern_size then some 0 else (do i ← rest; some (suc i))
