-- ===== src/Util/LuaEval/Stacks.antt =====
-- What an evaluation leaves on the stack.
use blocks.Prelude.{
  suc, ◌-◌, ◌≡◌, refl, sym, ap, ◌∙◌, Bool, true, List, [], ◌∷◌, ◌++◌, Option, none, some, arith,
  length, get_elem?, take, length-append, take-append, drop-append, get_elem?-append, append_assoc,
}
use blocks.Util.LuaEval.{
  Status, ok, Called, returned, failed, unknown, lua_remove, finish, lua_eval_part, lua_eval,
}

-- Results replace the function and its arguments; an error clears the whole stack.
abbrev pub outcome {ℓ} : {A : Type ℓ} → List A → Called A → Option (Status × List A)
outcome front (returned results) = some (ok, front ++ results)
outcome front (failed status e) = some (status, [])
outcome front unknown = none

module _ {ℓ} {A : Type ℓ} (is_function : A → Bool) (traceback : A)
    (call : A → List A → Called A) where
  suc-length : (front : List A) (x : A) → suc (length front) ≡ length (front ++ x ∷ [])
  suc-length front x = omega (arith, length-append front (x ∷ []))

  take-suc :
      (front rest : List A) (x : A)
      → take (suc (length front)) (front ++ x ∷ rest) ≡ front ++ x ∷ []
  take-suc front rest x =
      ap (take (suc (length front))) (sym (append_assoc front (x ∷ []) rest))
      ∙ take-append (front ++ x ∷ []) rest (suc (length front)) (suc-length front x)

  remove_at :
      (front rest : List A) (x : A)
      → lua_remove (length front) ((front ++ x ∷ []) ++ rest) ≡ front ++ rest
  remove_at front rest x = rw (
    append_assoc front (x ∷ []) rest,
    take-append front (x ∷ rest) (length front) refl,
    drop-append front (x ∷ rest) (suc (length front)) 1 (omega arith),
  )

  get_suc :
      (front rest : List A) (x y : A)
      → get_elem? (front ++ x ∷ y ∷ rest) (suc (length front)) ≡ some y
  get_suc front rest x y =
      ap (λ xs. get_elem? xs (suc (length front))) (sym (append_assoc front (x ∷ []) (y ∷ rest)))
      ∙ get_elem?-append (front ++ x ∷ []) rest y (suc (length front)) (suc-length front x)

  finish-outcome :
      (front rest : List A) (c : Called A)
      → finish is_function traceback call (front ++ traceback ∷ rest) (length front) c
        ≡ outcome front c
  unfolding finish
  finish-outcome front rest (returned results) =
      rw (take-suc front rest traceback, remove_at front results traceback)
  finish-outcome front rest (failed status e) = refl
  finish-outcome front rest unknown = refl

  -- A function with its arguments on top of any other values: its results take their place and the values
  -- below stay, but an error clears the stack, the values below included; and the status is that of the
  -- call.
  pub lua_eval_part-outcome :
      (front args : List A) (f : A)
      → is_function f ≡ true
      → lua_eval_part is_function traceback call (front ++ f ∷ args) (length args)
        ≡ outcome front (call f args)
  unfolding lua_eval_part
  lua_eval_part-outcome front args f h =
      let i : length (front ++ f ∷ args) - suc (length args) ≡ length front =
        omega (arith, length-append front (f ∷ args)) in
      rw
        (
          i,
          get_elem?-append front args f (length front) refl,
          h,
          take-append front (f ∷ args) (length front) refl,
          drop-append front (f ∷ args) (length front) 0 (omega arith),
        )
        (rw
          (
            get_suc front args traceback f,
            drop-append front (traceback ∷ f ∷ args) (suc (suc (length front))) 2 (omega arith),
          )
          (finish-outcome front (f ∷ args) (call f args)))

  -- `lua_eval` of a function at the bottom of the stack.
  pub lua_eval-outcome :
      (args : List A) (f : A)
      → is_function f ≡ true
      → lua_eval is_function traceback call (f ∷ args) ≡ outcome [] (call f args)
  unfolding lua_eval
  lua_eval-outcome args f h =
      let n : length (f ∷ args) - 1 ≡ length args = omega arith in
      rw (n, lua_eval_part-outcome [] args f h)
