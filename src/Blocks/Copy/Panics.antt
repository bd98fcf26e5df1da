-- ===== src/Blocks/Copy/Panics.antt =====
-- process.c: an argument of a spawned function that ends the whole program.
use blocks.Prelude.{ℕ, ◌≡◌, sym, ap, List, [], ◌∷◌, ◌++◌}
use blocks.Blocks.Copy.{
  Key, key_number, key_string, key_boolean, key_object, Value, function, table, Fields, end, field,
  LuaApi, panicked, lua_settable, copy_key, copy_value, copy_table, copy_values, copy_stack,
  is_function,
}
use blocks.Blocks.Copy.Intact.{
  Plain, append-end, append_assoc, PlainFields, AllPlain, append, Apart, Apart-end, Apart-append,
  copy_key-PlainKey, put_field-append, copy_value-Plain,
}

-- A key is a Boolean or an object.
abbrev NoText : Key → Type 0
NoText (key_number n) = ⊥
NoText (key_string s) = ⊥
NoText (key_boolean b) = Unit {0}
NoText (key_object p) = Unit {0}

-- The fields behind plain ones.
copy_table-append :
    (api : LuaApi) (fs gs dst : Fields)
    → PlainFields api fs
    → Apart fs dst
    → copy_table api (append fs gs) dst ≡ copy_table api gs (append dst fs)
unfolding copy_table append lua_settable
copy_table-append api end gs dst h a = ap (copy_table api gs) (sym (append-end dst))
copy_table-append api (field k v fs) gs dst h a = rw (
  copy_key-PlainKey api k h.0,
  copy_value-Plain api v h.1.0,
  h.1.1,
  put_field-append k v dst a.0,
  copy_table-append api fs gs (append dst (field k v end)) h.3 (Apart-append k v fs dst a.1 h.2),
  append_assoc dst (field k v end) fs,
)

copy_table-panicked :
    (api : LuaApi) (k : Key) (v : Value) (rest dst : Fields)
    → NoText k
    → Plain api v
    → copy_table api (field k v rest) dst ≡ panicked
unfolding copy_table copy_key lua_settable
copy_table-panicked api (key_number n) v rest dst k h = absurd k
copy_table-panicked api (key_string s) v rest dst k h = absurd k
copy_table-panicked api (key_boolean b) v rest dst k h = rw (copy_value-Plain api v h)
copy_table-panicked api (key_object p) v rest dst k h = rw (copy_value-Plain api v h)

copy_values-panicked :
    (api : LuaApi) (vs more : List Value) (v : Value)
    → AllPlain api vs
    → copy_value api v ≡ panicked
    → copy_values api (vs ++ v ∷ more) ≡ panicked
unfolding copy_values
copy_values-panicked api [] more v h e = rw e
copy_values-panicked api (w ∷ vs) more v h e =
    rw (copy_value-Plain api w h.0, copy_values-panicked api vs more v h.1 e)

-- With an argument that is a table in which a key is a Boolean or an object, with a plain value, and with plain fields and
-- plain arguments before it, whatever comes behind, the copy of the stack raises an error in the new Lua state, which is
-- in no protected call.
pub copy_stack-panicked :
    (api : LuaApi) (dump : List ℕ) (vs more : List Value) (fs rest : Fields) (k : Key) (v : Value)
    → AllPlain api vs
    → PlainFields api fs
    → NoText k
    → Plain api v
    → copy_stack api (function dump ∷ (vs ++ table (append fs (field k v rest)) ∷ more)) ≡ panicked
unfolding copy_stack copy_values is_function copy_value
copy_stack-panicked api dump vs more fs rest k v h f n p =
    let t : copy_value api (table (append fs (field k v rest))) ≡ panicked = rw (
      copy_table-append api fs (field k v rest) end f (Apart-end fs),
      copy_table-panicked api k v rest (append end fs) n p,
    ) in
    rw (copy_values-panicked api vs more (table (append fs (field k v rest))) h t)
