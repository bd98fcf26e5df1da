-- ===== src/Blocks/Copy/Tests.antt =====
-- A stack with a function, a table and a number.
use blocks.Prelude.{◌≡◌, refl, true, List, [], ◌∷◌, none, some, arith, if◌then◌else◌}
use blocks.Http.Buffer.{codes}
use blocks.Blocks.Copy.{
  key_number, key_string, Value, string, number, function, load_string, table, end, field, LuaApi,
  same_bytes, same_key, is_nil, copied, panicked, key_boolean, copy_stack,
}
use blocks.Blocks.Copy.Intact.{has_key, append, AllPlain, copy_stack-AllPlain}
use blocks.Blocks.Copy.Panics.{copy_stack-panicked}

-- Numbers are integers below 2 ^ 52, and only the string `7` reads as one.
abbrev api : LuaApi
api = record {
  to_integer = λ n. n;
  numeric = λ s. if same_bytes s (codes "7") then some 7 else none;
}

abbrev arguments : List Value
arguments =
    table
      (field (key_string (codes "a")) (number 1) (field (key_number 2) (string (codes "x")) end))
    ∷ number 3
    ∷ []

arguments-AllPlain : AllPlain api arguments
unfolding same_bytes has_key same_key is_nil
arguments-AllPlain =
    (((refl, (λ e. omega arith, tt)), (tt, refl), refl, (refl, (tt, refl), refl, tt)), (tt, tt))

copy_stack-AllPlain_example :
    copy_stack api (function (codes "f") ∷ arguments) ≡ copied (load_string (codes "f") ∷ arguments)
copy_stack-AllPlain_example = copy_stack-AllPlain api (codes "f") arguments arguments-AllPlain

copy_stack-panicked_example :
    copy_stack api (
      function (codes "f")
      ∷ number 3
      ∷ table (field (key_string (codes "a")) (number 1) (field (key_boolean true) (number 2) end))
      ∷ load_string (codes "g")
      ∷ [])
    ≡ panicked
unfolding append is_nil has_key same_bytes
copy_stack-panicked_example =
    copy_stack-panicked api (codes "f") (number 3 ∷ []) (load_string (codes "g") ∷ [])
      (field (key_string (codes "a")) (number 1) end) end (key_boolean true) (number 2) (tt, tt)
      ((refl, (λ e. omega arith, tt)), (tt, refl), refl, tt) tt tt
