-- ===== src/Blocks/LuaMessage.antt =====
-- src/blocks/lua_message.c: the values of a Lua stack as the bytes of a message, and back.
-- Sizes are those of a 64-bit machine: `struct values` has 4 bytes; `struct value` has a 4-byte type, 4
-- bytes of padding and an 8-byte length; `lua_Number` and pointers have 8 bytes. Numbers are stored with
-- the low byte first. A `lua_Number` is the number of its bit pattern.
pub mod Bytes
pub mod RoundTrip
pub mod Limits
mod Tests
use blocks.Prelude.{
  ℕ, zero, suc, ◌+◌, ◌-◌, ◌*◌, ◌%◌, ◌^◌, Bool, true, false, List, [], ◌∷◌, ◌++◌, Option, none, some,
  ltb, leb, ◌==◌, if◌then◌else◌, ◌>>=◌, length, take, drop, replicate,
}
use Bytes.{le_bytes, number_of, split_bytes}

-- What `lua_type` tells of a stack slot, with the value that the API then reads. A table shows its raw
-- length only.
pub data LuaValue : Type 0 where
  boolean : Bool → LuaValue
  string : List ℕ → LuaValue
  number : ℕ → LuaValue
  function : LuaValue
  nil : LuaValue
  table : ℕ → LuaValue
  lightuserdata : ℕ → LuaValue
  userdata : ℕ → LuaValue
  thread : LuaValue

-- enum msg_type
pub data MsgType : Type 0 where
  t_integer t_floating t_string t_boolean t_function t_table t_nil t_userdata : MsgType

abbrev pub code_of : MsgType → ℕ
code_of t_integer = 0
code_of t_floating = 1
code_of t_string = 2
code_of t_boolean = 3
code_of t_function = 4
code_of t_table = 5
code_of t_nil = 6
code_of t_userdata = 7

-- The first `switch` of `lua_message_pop`. `lua_rawlen` is 0 for functions, nil and threads.
unfoldable pub type_of : LuaValue → MsgType
type_of (boolean b) = t_boolean
type_of (string bs) = t_string
type_of (number n) = t_floating
type_of function = t_function
type_of nil = t_nil
type_of (table n) = t_table
type_of (lightuserdata p) = t_userdata
type_of (userdata p) = t_userdata
type_of thread = t_nil

unfoldable pub length_of : LuaValue → ℕ
length_of (boolean b) = 1
length_of (string bs) = length bs
length_of (number n) = 8
length_of function = 0
length_of nil = 0
length_of (table n) = n
length_of (lightuserdata p) = 8
length_of (userdata p) = 8
length_of thread = 0

-- Bytes that are not written.
unfoldable pub junk_bytes : (ℕ → ℕ) → ℕ → List ℕ
junk_bytes junk zero = []
junk_bytes junk (suc k) = junk k ∷ junk_bytes junk k

-- The bytes at `data` after the chain of `if`s. For a table `lua_tolstring` sets the length to 0, and
-- nothing is copied: the bytes are `junk`, what the allocation held.
unfoldable pub data_of : (ℕ → ℕ) → LuaValue → List ℕ
unfolding junk_bytes
data_of junk (boolean b) = (if b then 1 else 0) ∷ []
data_of junk (string bs) = bs
data_of junk (number n) = le_bytes 8 n
data_of junk function = []
data_of junk nil = []
data_of junk (table n) = junk_bytes junk n
data_of junk (lightuserdata p) = le_bytes 8 p
data_of junk (userdata p) = le_bytes 8 p
data_of junk thread = []

-- A `struct value`; the padding is not written.
abbrev pub header : (ℕ → ℕ) → MsgType → ℕ → List ℕ
header junk type size =
    le_bytes 4 (code_of type) ++ (junk 0 ∷ junk 1 ∷ junk 2 ∷ junk 3 ∷ le_bytes 8 size)

abbrev pub msg_max_size : ℕ
msg_max_size = 2048

abbrev pub msg_inc_size : ℕ
msg_inc_size = 256

-- What an allocation of `n` bytes gives where the size is kept in an `int`: 32 bits of it, and nothing at all
-- where these are negative, since `malloc` and `realloc` then read a size that is too large, and return NULL.
unfoldable pub int_size : ℕ → ℕ
int_size n = if leb (2 ^ 31) (n % 2 ^ 32) then 0 else n % 2 ^ 32

-- The growth of the heap before a value; `none` is that the limit is exceeded. The test is made on the `int`,
-- which is no larger than the limit where it is negative.
unfoldable pub grow : ℕ → ℕ → ℕ → Option ℕ
grow heap_position heap_size value_length =
    if leb heap_size (heap_position + value_length)
    then (if ltb msg_max_size (int_size (heap_size + (msg_inc_size + value_length)))
        then none
        else some (int_size (heap_size + (msg_inc_size + value_length))))
    else some heap_size

-- The result of `lua_message_pop`: NULL, the error that it raises, or a content. `overrun` is a value whose
-- place is not inside the heap.
pub data Popped : Type 0 where
  no_content : Popped
  too_big : Popped
  overrun : Popped
  content : List ℕ → ℕ → Popped

-- The loop over the arguments; the heap's bytes below `heap_position`, and its size.
unfoldable pub pop_values : (ℕ → ℕ) → List LuaValue → List ℕ → ℕ → Popped
pop_values junk [] heap heap_size = content heap heap_size
pop_values junk (v ∷ vs) heap heap_size = elim (grow (length heap) heap_size (length_of v + 16)) [
  | none ↦ too_big
  | some size ↦ elim (leb (length heap + (length_of v + 16)) size) [
    | false ↦ overrun
    | true ↦
        pop_values junk vs (heap ++ (header junk (type_of v) (length_of v) ++ data_of junk v)) size
  ]
]

-- `junk` is the content of fresh memory.
unfoldable pub lua_message_pop : (ℕ → ℕ) → List LuaValue → Popped
lua_message_pop junk [] = no_content
lua_message_pop junk (v ∷ vs) =
    let argc = suc (length vs) in
    let heap_size = int_size (4 + 16 * argc + msg_inc_size) in
    if ltb heap_size 4 then overrun else pop_values junk (v ∷ vs) (le_bytes 4 argc) heap_size

-- `*(char*)data`, as a truth value.
unfoldable pub first_byte : List ℕ → Bool
first_byte [] = false
first_byte (b ∷ _) = if b == 0 then false else true

-- The `switch` of `lua_message_push`, on the code of the type: what is pushed for the data at address
-- `at`, if anything.
unfoldable pub push_value : ℕ → ℕ → List ℕ → List LuaValue
unfolding first_byte
push_value type at bytes =
    if type == 3
    then boolean (first_byte bytes) ∷ []
    else if type == 0
    then number (number_of bytes) ∷ []
    else if type == 1
    then number (number_of bytes) ∷ []
    else if type == 2
    then string bytes ∷ []
    else if type == 6
    then nil ∷ []
    else if type == 4
    then nil ∷ []
    else if type == 5
    then nil ∷ []
    else if type == 7
    then lightuserdata at ∷ []
    else []

-- The loop of `lua_message_push` over the bytes from `heap + position` on; `none` is a read behind them.
unfoldable pub push_values : ℕ → ℕ → ℕ → List ℕ → Option (List LuaValue)
push_values zero heap position rest = some []
push_values (suc argc) heap position rest = do
  (type, rest) ← split_bytes 4 rest
  (padding, rest) ← split_bytes 4 rest
  (size, rest) ← split_bytes 8 rest
  (bytes, rest) ← split_bytes (number_of size) rest
  values ← push_values argc heap (position + 16 + number_of size) rest
  some (push_value (number_of type) (heap + position + 16) bytes ++ values)

-- `lua_message_push` of a content whose heap is at address `heap`.
unfoldable pub lua_message_push : ℕ → List ℕ → Option (List LuaValue)
lua_message_push heap bytes = do
  (argc, rest) ← split_bytes 4 bytes
  push_values (number_of argc) heap 4 rest
