-- ===== src/Blocks/Copy.antt =====
-- src/blocks/process.c: the copy of a parent's stack to the Lua state of a process that it spawns.
-- A table is the list of its fields in the order of `lua_next`, and contains no cycle.
pub mod Intact
pub mod Panics
mod Tests
use blocks.Prelude.{
  ℕ, zero, suc, Bool, true, false, List, [], ◌∷◌, Option, none, some, ◌==◌, ◌&&◌, ◌||◌,
  if◌then◌else◌,
}

-- The result of a copy: what was made, an error that is raised in the parent's state, or one that is raised in
-- the new state. That is not in a protected call, so that Lua ends the whole process.
pub data Copied (A : Type 0) : Type 0 where
  copied : A → Copied A
  raised : Copied A
  panicked : Copied A

infixl 5 ◌>>=◌
abbrev ◌>>=◌ : {A B : Type 0} → Copied A → (A → Copied B) → Copied B
copied a >>= f = f a
raised >>= f = raised
panicked >>= f = panicked

-- A number is the number of its bit pattern.
pub data Key : Type 0 where
  key_number : ℕ → Key
  key_string : List ℕ → Key
  key_boolean : Bool → Key
  key_object : ℕ → Key

-- A function is the string that `lua_dump` makes of it; `load_string` is the C closure of that name over
-- such a string.
mutual
  pub data Value : Type 0 where
    nil : Value
    boolean : Bool → Value
    number : ℕ → Value
    string : List ℕ → Value
    function : List ℕ → Value
    load_string : List ℕ → Value
    userdata : ℕ → Value
    lightuserdata : ℕ → Value
    thread : Value
    table : Fields → Value

  pub data Fields : Type 0 where
    end : Fields
    field : Key → Value → Fields → Fields

-- `lua_tointeger` of a number, as a number again, and the number that `lua_isnumber` finds in a string.
pub record LuaApi : Type 0 where
  pub to_integer : ℕ → ℕ
  pub numeric : List ℕ → Option ℕ

unfoldable pub same_bytes : List ℕ → List ℕ → Bool
same_bytes [] [] = true
same_bytes [] (d ∷ ds) = false
same_bytes (c ∷ cs) [] = false
same_bytes (c ∷ cs) (d ∷ ds) = (c == d) && same_bytes cs ds

abbrev pub same_boolean : Bool → Bool → Bool
same_boolean true true = true
same_boolean true false = false
same_boolean false true = false
same_boolean false false = true

unfoldable pub same_key : Key → Key → Bool
same_key (key_number a) (key_number b) = a == b
same_key (key_string a) (key_string b) = same_bytes a b
same_key (key_boolean a) (key_boolean b) = same_boolean a b
same_key (key_object a) (key_object b) = a == b
same_key (key_number a) (key_string b) = false
same_key (key_number a) (key_boolean b) = false
same_key (key_number a) (key_object b) = false
same_key (key_string a) (key_number b) = false
same_key (key_string a) (key_boolean b) = false
same_key (key_string a) (key_object b) = false
same_key (key_boolean a) (key_number b) = false
same_key (key_boolean a) (key_string b) = false
same_key (key_boolean a) (key_object b) = false
same_key (key_object a) (key_number b) = false
same_key (key_object a) (key_string b) = false
same_key (key_object a) (key_boolean b) = false

-- `lua_settable` in the new state: an error for a nil key; a nil value takes the field away, and with another
-- value the field is replaced, or is new.
unfoldable pub put_field : Key → Value → Fields → Fields
put_field k v end = field k v end
put_field k v (field k' v' fs) =
    let rest = put_field k v fs in if same_key k k' then field k' v fs else field k' v' rest

unfoldable pub drop_field : Key → Fields → Fields
drop_field k end = end
drop_field k (field k' v' fs) =
    let rest = drop_field k fs in if same_key k k' then fs else field k' v' rest

unfoldable pub is_nil : Value → Bool
is_nil nil = true
is_nil (boolean b) = false
is_nil (number n) = false
is_nil (string s) = false
is_nil (function dump) = false
is_nil (load_string dump) = false
is_nil (userdata p) = false
is_nil (lightuserdata p) = false
is_nil thread = false
is_nil (table fs) = false

unfoldable pub lua_settable : Option Key → Value → Fields → Copied Fields
lua_settable none v fs = panicked
lua_settable (some k) v fs = copied (if is_nil v then drop_field k fs else put_field k v fs)

-- `lua_pushstring` takes the bytes before the first zero.
unfoldable pub until_nul : List ℕ → List ℕ
until_nul [] = []
until_nul (c ∷ cs) = let rest = until_nul cs in if c == 0 then [] else c ∷ rest

abbrev pub string_key : LuaApi → List ℕ → Option ℕ → Key
string_key api s (some n) = key_number (api.to_integer n)
string_key api s none = key_string (until_nul s)

-- The key that `copy_table` pushes. For a key that is no number and no string `lua_tostring` returns NULL,
-- which is pushed as nil, here `none`.
unfoldable pub copy_key : LuaApi → Key → Option Key
copy_key api (key_number n) = some (key_number (api.to_integer n))
copy_key api (key_string s) = some (string_key api s (api.numeric s))
copy_key api (key_boolean b) = none
copy_key api (key_object p) = none

-- `copy_function`, on what `lua_dump` makes of the function: the string is an upvalue of the closure, or an error
-- is raised in the parent's state.
abbrev pub copy_function : Option (List ℕ) → Copied Value
copy_function (some dump) = copied (load_string dump)
copy_function none = raised

-- `copy_value`, and `copy_table` with the table that it has made so far. `lua_dump` refuses a C closure.
unfoldable mutual
  pub copy_value : LuaApi → Value → Copied Value
  copy_value api nil = copied nil
  copy_value api (boolean b) = copied (boolean b)
  copy_value api (number n) = copied (number n)
  copy_value api (string s) = copied (string s)
  copy_value api (function dump) = copy_function (some dump)
  copy_value api (load_string dump) = copy_function none
  copy_value api (userdata p) = copied (lightuserdata p)
  copy_value api (lightuserdata p) = copied (lightuserdata p)
  copy_value api thread = copied nil
  copy_value api (table fs) = do fs' ← copy_table api fs end; copied (table fs')

  pub copy_table : LuaApi → Fields → Fields → Copied Fields
  copy_table api end dst = copied dst
  copy_table api (field k v fs) dst = do
    v' ← copy_value api v
    dst ← lua_settable (copy_key api k) v' dst
    copy_table api fs dst

unfoldable pub copy_values : LuaApi → List Value → Copied (List Value)
copy_values api [] = copied []
copy_values api (v ∷ vs) = do v' ← copy_value api v; vs' ← copy_values api vs; copied (v' ∷ vs')

-- `lua_isfunction`
unfoldable pub is_function : Value → Bool
is_function nil = false
is_function (boolean b) = false
is_function (number n) = false
is_function (string s) = false
is_function (function dump) = true
is_function (load_string dump) = true
is_function (userdata p) = false
is_function (lightuserdata p) = false
is_function thread = false
is_function (table fs) = false

-- The stack of the new state; the first value must be a function.
unfoldable pub copy_stack : LuaApi → List Value → Copied (List Value)
copy_stack api [] = raised
copy_stack api (v ∷ vs) = if is_function v then copy_values api (v ∷ vs) else raised
