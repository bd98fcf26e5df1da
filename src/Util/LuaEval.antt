-- ===== src/Util/LuaEval.antt =====
-- src/util/lua_util.c: the evaluation of the function on a Lua stack.
-- A stack is the list of its values from the bottom on, and indices count from 0. What `lua_pcall` makes of
-- a function and its arguments is a parameter; `none` is an error that `lua_error` raises.
pub mod Stacks
mod Tests
use blocks.Prelude.{
  ℕ, zero, suc, ◌+◌, ◌-◌, Bool, true, false, List, [], ◌∷◌, ◌++◌, Option, none, some, if◌then◌else◌,
  length, get_elem?, take, drop,
}

pub data Status : Type 0 where
  ok errrun errsyntax errmem errgcmm errerr : Status

-- What a protected call comes to: results, an error with its object, or a status that is none of those.
pub data Called {ℓ} (A : Type ℓ) : Type ℓ where
  returned : List A → Called A
  failed : Status → A → Called A
  unknown : Called A

abbrev pub lua_insert {ℓ} : {A : Type ℓ} → ℕ → A → List A → List A
lua_insert i x stack = take i stack ++ x ∷ drop i stack

abbrev pub lua_remove {ℓ} : {A : Type ℓ} → ℕ → List A → List A
lua_remove i stack = take i stack ++ drop (suc i) stack

module _ {ℓ} {A : Type ℓ} (is_function : A → Bool) (traceback : A)
    (call : A → List A → Called A) where
  -- `lua_isfunction` at an index; no value is no function.
  abbrev pub function_at : Option A → Bool
  function_at none = false
  function_at (some f) = is_function f

  -- `lua_pcall` of the function at index `i` with all that stands above it: the results, or the error
  -- object, take their place.
  abbrev pub called : List A → ℕ → Option A → Called A
  called stack i none = unknown
  called stack i (some f) = call f (drop (suc i) stack)

  -- The `switch` on the status, and `lua_pop(L, -1)`, which is `lua_settop(L, 0)`, behind `lua_remove` of the traceback function at `i`.
  unfoldable pub finish : List A → ℕ → Called A → Option (Status × List A)
  finish stack i (returned results) = some (ok, lua_remove i (take (suc i) stack ++ results))
  finish stack i (failed status e) = some (status, [])
  finish stack i unknown = none

  -- `lua_eval_part` with the arity `narg`. The function's index is `lua_gettop(L) - narg`, counted from 1.
  unfoldable pub lua_eval_part : List A → ℕ → Option (Status × List A)
  lua_eval_part stack narg =
      let i = length stack - suc narg in
      let with_traceback = lua_insert i traceback stack in
      if function_at (get_elem? stack i)
      then finish with_traceback i
          (called with_traceback (suc i) (get_elem? with_traceback (suc i)))
      else some (errrun, stack)

  -- `lua_eval`: all but the bottom value are arguments.
  unfoldable pub lua_eval : List A → Option (Status × List A)
  lua_eval stack = lua_eval_part stack (length stack - 1)
