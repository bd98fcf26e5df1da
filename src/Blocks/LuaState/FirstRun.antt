-- ===== src/Blocks/LuaState/FirstRun.antt =====
-- process.c: the first run of a task, which loads its function from the string that `copy_function` has made.
-- What the Lua library does is a parameter: `loadbuffer` is the status of `luaL_loadbuffer` and the value that it
-- pushes, `run` a protected call of a Lua function, and `not_callable` one of any other value.
use blocks.Prelude.{
  ℕ, ◌≡◌, refl, ap, List, [], ◌∷◌, ◌++◌, Option, none, some, length, get_elem?, set, take, arith,
  get_elem?-append, take-append, length-append, ◌>>=◌,
}
use blocks.Blocks.Copy.{
  Value, nil, boolean, number, string, function, load_string, userdata, lightuserdata, thread,
  table, is_function,
}
use blocks.Util.LuaEval.{
  Status, ok, errrun, errsyntax, errmem, errgcmm, errerr, Called, returned, failed, unknown,
  lua_eval_part, lua_eval,
}
use blocks.Util.LuaEval.Stacks.{outcome, lua_eval_part-outcome, lua_eval-outcome}

-- The parameters.
pub record Lua : Type 0 where
  pub loadbuffer : List ℕ → Status × Value
  pub run : List ℕ → List Value → Called Value
  pub not_callable : Value
  pub unexpected_state : Value
  pub traceback : Value

-- The C function `load_string`, by the status of `luaL_loadbuffer`.
abbrev pub loaded : Lua → Status → Value → Called Value
loaded lua ok v = returned (v ∷ [])
loaded lua errsyntax v = failed errrun v
loaded lua errmem v = failed errrun v
loaded lua errrun v = failed errrun lua.unexpected_state
loaded lua errgcmm v = failed errrun lua.unexpected_state
loaded lua errerr v = failed errrun lua.unexpected_state

unfoldable pub call_load_string : Lua → List ℕ → Called Value
call_load_string lua dump = loaded lua (lua.loadbuffer dump).0 (lua.loadbuffer dump).1

-- `lua_pcall` of a value with its arguments.
unfoldable pub call : Lua → Value → List Value → Called Value
unfolding call_load_string
call lua (function dump) args = lua.run dump args
call lua (load_string dump) args = call_load_string lua dump
call lua nil args = failed errrun lua.not_callable
call lua (boolean b) args = failed errrun lua.not_callable
call lua (number n) args = failed errrun lua.not_callable
call lua (string s) args = failed errrun lua.not_callable
call lua (userdata p) args = failed errrun lua.not_callable
call lua (lightuserdata p) args = failed errrun lua.not_callable
call lua thread args = failed errrun lua.not_callable
call lua (table fs) args = failed errrun lua.not_callable

-- `lua_pushvalue(L, 1)`; on an empty stack it is undefined.
unfoldable pub lua_pushvalue : List Value → Option (List Value)
lua_pushvalue [] = none
lua_pushvalue (v ∷ vs) = some (v ∷ vs ++ v ∷ [])

-- `lua_replace(L, 1)`: the value on top is copied to the bottom, and taken off.
unfoldable pub lua_replace : List Value → Option (List Value)
lua_replace [] = none
lua_replace (v ∷ vs) = do
  top ← get_elem? (v ∷ vs) (length vs)
  some (take (length vs) (set (v ∷ vs) 0 top))

-- The first run: the stack behind it, or `none` where the Lua library is misused. `lua_eval_part` is asked for one
-- result, which is what `load_string` returns.
unfoldable pub first_run : Lua → List Value → Option (List Value)
unfolding call is_function lua_eval_part lua_pushvalue
first_run lua stack = do
  stack ← lua_pushvalue stack
  (status, stack) ← lua_eval_part is_function lua.traceback (call lua) stack 0
  stack ← lua_replace stack
  (status, stack) ← lua_eval is_function lua.traceback (call lua) stack
  some stack

-- What the evaluation of the function leaves: its results, or nothing after an error.
abbrev pub left_by : Called Value → Option (List Value)
left_by (returned results) = some results
left_by (failed status e) = some []
left_by unknown = none

replace-top : (v top : Value) (vs : List Value) → lua_replace (v ∷ vs ++ top ∷ []) ≡ some (top ∷ vs)
unfolding lua_replace
replace-top v top vs =
    let l : length (vs ++ top ∷ []) ≡ length (v ∷ vs) =
      omega (arith, length-append vs (top ∷ [])) in
    rw (l, get_elem?-append (v ∷ vs) [] top (length (v ∷ vs)) refl)
      (ap some (take-append (top ∷ vs) (top ∷ []) (length (v ∷ vs)) refl))

evaluate :
    (lua : Lua) (c : Called Value) → (do (status, stack) ← outcome [] c; some stack) ≡ left_by c
evaluate lua (returned results) = refl
evaluate lua (failed status e) = refl
evaluate lua unknown = refl

pub first_run-left_by :
    (lua : Lua) (dump code : List ℕ) (args : List Value)
    → lua.loadbuffer dump ≡ (ok, function code)
    → first_run lua (load_string dump ∷ args) ≡ left_by (lua.run code args)
unfolding first_run lua_pushvalue lua_eval call call_load_string is_function
first_run-left_by lua dump code args loads =
    let load =
      lua_eval_part-outcome is_function lua.traceback (call lua) (load_string dump ∷ args) []
        (load_string dump) refl in
    let eval = lua_eval-outcome is_function lua.traceback (call lua) args (function code) refl in
    rw (load, loads, replace-top (load_string dump) (function code) args, eval)
      (evaluate lua (lua.run code args))
