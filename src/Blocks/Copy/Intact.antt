-- ===== src/Blocks/Copy/Intact.antt =====
-- process.c: values, and what a spawned process gets for them.
use blocks.Prelude.{
  ℕ, ◌≡◌, refl, sym, ap, ◌∙◌, Bool, true, false, List, [], ◌∷◌, none, some, arith, ◌||◌,
}
use blocks.Http.Buffer.{NoNul}
use blocks.Blocks.Copy.{
  Key, key_number, key_string, key_boolean, key_object, Value, nil, boolean, number, string,
  function, load_string, userdata, lightuserdata, thread, table, Fields, end, field, LuaApi,
  same_bytes, same_key, put_field, lua_settable, is_nil, copied, until_nul, copy_key, copy_value,
  copy_table, copy_values, copy_stack, is_function,
}

unfoldable pub has_key : Key → Fields → Bool
has_key k end = false
has_key k (field k' v fs) = same_key k k' || has_key k fs

-- A key is an integer, or a string without a zero byte that does not read as a number.
abbrev pub PlainKey : LuaApi → Key → Type 0
PlainKey api (key_number n) = api.to_integer n ≡ n
PlainKey api (key_string s) = (api.numeric s ≡ none) × NoNul s
PlainKey api (key_boolean b) = ⊥
PlainKey api (key_object p) = ⊥

-- A value of booleans, numbers, strings, light userdata and tables, with plain and distinct keys. No field of a
-- table is nil.
abbrev mutual
  pub Plain : LuaApi → Value → Type 0
  Plain api nil = Unit {0}
  Plain api (boolean b) = Unit {0}
  Plain api (number n) = Unit {0}
  Plain api (string s) = Unit {0}
  Plain api (function dump) = ⊥
  Plain api (load_string dump) = ⊥
  Plain api (userdata p) = ⊥
  Plain api (lightuserdata p) = Unit {0}
  Plain api thread = ⊥
  Plain api (table fs) = PlainFields api fs

  pub PlainFields : LuaApi → Fields → Type 0
  PlainFields api end = Unit {0}
  PlainFields api (field k v fs) =
      PlainKey api k
      × (Plain api v × (is_nil v ≡ false))
      × (has_key k fs ≡ false)
      × PlainFields api fs

until_nul-NoNul : (s : List ℕ) → NoNul s → until_nul s ≡ s
unfolding until_nul
until_nul-NoNul [] h = refl
until_nul-NoNul (c ∷ cs) h = ground (arith, until_nul-NoNul cs h.1)

pub copy_key-PlainKey : (api : LuaApi) (k : Key) → PlainKey api k → copy_key api k ≡ some k
unfolding copy_key
copy_key-PlainKey api (key_number n) h = rw h
copy_key-PlainKey api (key_string s) h = rw (h.0, until_nul-NoNul s h.1)
copy_key-PlainKey api (key_boolean b) h = absurd h
copy_key-PlainKey api (key_object p) h = absurd h

unfoldable pub append : Fields → Fields → Fields
append end gs = gs
append (field k v fs) gs = field k v (append fs gs)

pub append-end : (fs : Fields) → append fs end ≡ fs
unfolding append
append-end end = refl
append-end (field k v fs) = ap (field k v) (append-end fs)

pub append_assoc : (fs gs hs : Fields) → append (append fs gs) hs ≡ append fs (append gs hs)
unfolding append
append_assoc end gs hs = refl
append_assoc (field k v fs) gs hs = ap (field k v) (append_assoc fs gs hs)

pub put_field-append :
    (k : Key) (v : Value) (fs : Fields)
    → has_key k fs ≡ false
    → put_field k v fs ≡ append fs (field k v end)
unfolding put_field append has_key
put_field-append k v end h = refl
put_field-append k v (field k' v' fs) h =
    let other : same_key k k' ≡ false = ground arith in
    let rest : has_key k fs ≡ false = ground arith in rw (other, put_field-append k v fs rest)

same_bytes-sym : (a b : List ℕ) → same_bytes a b ≡ same_bytes b a
unfolding same_bytes
same_bytes-sym [] [] = refl
same_bytes-sym [] (d ∷ ds) = refl
same_bytes-sym (c ∷ cs) [] = refl
same_bytes-sym (c ∷ cs) (d ∷ ds) = ground (arith, same_bytes-sym cs ds)

same_key-sym : (a b : Key) → same_key a b ≡ same_key b a
unfolding same_key
same_key-sym (key_number a) (key_number b) = ground arith
same_key-sym (key_string a) (key_string b) = same_bytes-sym a b
same_key-sym (key_boolean true) (key_boolean true) = refl
same_key-sym (key_boolean true) (key_boolean false) = refl
same_key-sym (key_boolean false) (key_boolean true) = refl
same_key-sym (key_boolean false) (key_boolean false) = refl
same_key-sym (key_object a) (key_object b) = ground arith
same_key-sym (key_number a) (key_string b) = refl
same_key-sym (key_number a) (key_boolean b) = refl
same_key-sym (key_number a) (key_object b) = refl
same_key-sym (key_string a) (key_number b) = refl
same_key-sym (key_string a) (key_boolean b) = refl
same_key-sym (key_string a) (key_object b) = refl
same_key-sym (key_boolean a) (key_number b) = refl
same_key-sym (key_boolean a) (key_string b) = refl
same_key-sym (key_boolean a) (key_object b) = refl
same_key-sym (key_object a) (key_number b) = refl
same_key-sym (key_object a) (key_string b) = refl
same_key-sym (key_object a) (key_boolean b) = refl

has_key-append :
    (k : Key) (fs gs : Fields) → has_key k (append fs gs) ≡ (has_key k fs || has_key k gs)
unfolding has_key append
has_key-append k end gs = refl
has_key-append k (field k' v fs) gs = ground (arith, has_key-append k fs gs)

-- No key of the first fields is one of the second.
abbrev pub Apart : Fields → Fields → Type 0
Apart end dst = Unit {0}
Apart (field k v fs) dst = (has_key k dst ≡ false) × Apart fs dst

pub Apart-end : (fs : Fields) → Apart fs end
unfolding has_key
Apart-end end = tt
Apart-end (field k v fs) = (refl, Apart-end fs)

pub Apart-append :
    (k : Key) (v : Value) (fs dst : Fields)
    → Apart fs dst
    → has_key k fs ≡ false
    → Apart fs (append dst (field k v end))
unfolding has_key
Apart-append k v end dst a h = tt
Apart-append k v (field k' v' fs) dst a h =
    let other : same_key k' k ≡ false = same_key-sym k' k ∙ (ground arith) in
    let rest : has_key k fs ≡ false = ground arith in
    (has_key-append k' dst (field k v end) ∙ rw (a.0, other), Apart-append k v fs dst a.1 rest)

mutual
  unfolding copy_value append lua_settable

  -- A plain value reaches the new state as it was.
  pub copy_value-Plain : (api : LuaApi) (v : Value) → Plain api v → copy_value api v ≡ copied v
  copy_value-Plain api nil h = refl
  copy_value-Plain api (boolean b) h = refl
  copy_value-Plain api (number n) h = refl
  copy_value-Plain api (string s) h = refl
  copy_value-Plain api (function dump) h = absurd h
  copy_value-Plain api (load_string dump) h = absurd h
  copy_value-Plain api (userdata p) h = absurd h
  copy_value-Plain api (lightuserdata p) h = refl
  copy_value-Plain api thread h = absurd h
  copy_value-Plain api (table fs) h = rw (copy_table-PlainFields api fs end h (Apart-end fs))

  copy_table-PlainFields :
      (api : LuaApi) (fs dst : Fields)
      → PlainFields api fs
      → Apart fs dst
      → copy_table api fs dst ≡ copied (append dst fs)
  copy_table-PlainFields api end dst h a = ap copied (sym (append-end dst))
  copy_table-PlainFields api (field k v fs) dst h a = rw (
    copy_key-PlainKey api k h.0,
    copy_value-Plain api v h.1.0,
    h.1.1,
    put_field-append k v dst a.0,
    copy_table-PlainFields api fs (append dst (field k v end)) h.3
        (Apart-append k v fs dst a.1 h.2),
    append_assoc dst (field k v end) fs,
  )

abbrev pub AllPlain : LuaApi → List Value → Type 0
AllPlain api [] = Unit {0}
AllPlain api (v ∷ vs) = Plain api v × AllPlain api vs

copy_values-AllPlain :
    (api : LuaApi) (vs : List Value) → AllPlain api vs → copy_values api vs ≡ copied vs
unfolding copy_values
copy_values-AllPlain api [] h = refl
copy_values-AllPlain api (v ∷ vs) h =
    rw (copy_value-Plain api v h.0, copy_values-AllPlain api vs h.1)

-- A spawned process gets the loader of the function that is spawned, and every argument as it was, if the
-- arguments are nil, booleans, numbers, strings, light userdata, and tables of these to any depth whose
-- keys are distinct, and are integers or strings without a zero byte that do not read as a number.
pub copy_stack-AllPlain :
    (api : LuaApi) (dump : List ℕ) (vs : List Value)
    → AllPlain api vs
    → copy_stack api (function dump ∷ vs) ≡ copied (load_string dump ∷ vs)
unfolding copy_stack copy_values is_function copy_value
copy_stack-AllPlain api dump vs h = rw (copy_values-AllPlain api vs h)
