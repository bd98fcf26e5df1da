-- ===== src/Http/Config.antt =====
-- src/http/httpd_conf.c: the tables of scripts and MIME types that the configuration makes.
-- What the globals of the Lua state hold is an argument, with the entries of a table in the order of
-- `lua_next`, and so is which script files evaluate without an error. `none` is a write behind the end of
-- an array, or an error of Lua outside a protected call, which ends the process.
pub mod Scripts
pub mod Served
pub mod Types
mod Tests
use blocks.Prelude.{
  ℕ, zero, suc, ◌+◌, ◌-◌, ◌%◌, ◌^◌, Bool, true, false, List, [], ◌∷◌, ◌++◌, Option, none, some, ltb,
  if◌then◌else◌, ◌>>=◌, length, ◌==◌,
}
use blocks.Prelude.Int.{pos}
use blocks.Http.Buffer.{codes}
use blocks.Http.LuaStates.{LuaService}
use blocks.Http.Request.{Mimetype}

-- A field of a table: `nil`, a string or a number as `lua_tostring` gives it, or any other value.
pub data Field : Type 0 where
  absent other : Field
  text : List ℕ → Field

-- An element of the table `scripts` that can be asked for its fields: a table, or a string, which has none of these
-- and so all three `absent`.
pub record Entry : Type 0 where
  pub pattern : Field
  pub mimetype : Field
  pub script : Field

-- What `strdup` copies: the bytes before the first zero.
unfoldable pub strdup : List ℕ → List ℕ
strdup [] = []
strdup (c ∷ cs) = let rest = strdup cs in if c == 0 then [] else c ∷ rest

abbrev pub json_mimetype : List ℕ
json_mimetype = codes "application/json"

abbrev pub bin_mimetype : List ℕ
bin_mimetype = codes "application/octet-stream"

-- `luaL_optstring` of the MIME type, which raises an error for a value that is no string.
unfoldable pub mimetype_of : Field → Option (List ℕ)
mimetype_of absent = some json_mimetype
mimetype_of (text s) = some (strdup s)
mimetype_of other = none

abbrev pub default_state_size : ℕ
default_state_size = 3

-- `new_state` is the Lua state of the script; `junk` stands in the slots that are not written.
abbrev pub new_service : ℕ → ℕ → List ℕ → List ℕ → List ℕ → LuaService
new_service junk new_state pattern mimetype file = record {
  pattern = strdup pattern;
  pattern_size = length pattern;
  idle_state_top = pos 0;
  idle_stack_size = default_state_size;
  idle_states = new_state ∷ junk ∷ junk ∷ [];
  filename = strdup file;
  mimetype = mimetype;
}

-- A service, where the script evaluates: `evaluate` gives its Lua state.
unfoldable pub evaluated : (List ℕ → Option ℕ) → ℕ → List ℕ → List ℕ → List ℕ → Option LuaService
evaluated evaluate junk pattern mimetype file = do
  new_state ← evaluate file
  some (new_service junk new_state pattern mimetype file)

unfoldable pub load_file : (List ℕ → Option ℕ) → ℕ → List ℕ → List ℕ → Field → Option LuaService
load_file evaluate junk pattern mimetype (text file) = evaluated evaluate junk pattern mimetype file
load_file evaluate junk pattern mimetype absent = none
load_file evaluate junk pattern mimetype other = none

-- One round of the loop of `load_scripts`: an entry is left out if it has no pattern or no script, or its
-- script does not evaluate.
unfoldable pub load_pattern : (List ℕ → Option ℕ) → ℕ → Entry → Field → Option (Option LuaService)
load_pattern evaluate junk entry (text pattern) = do
  mimetype ← mimetype_of entry.mimetype
  some (load_file evaluate junk pattern mimetype entry.script)
load_pattern evaluate junk entry absent = some none
load_pattern evaluate junk entry other = some none

unfoldable pub load_entry : (List ℕ → Option ℕ) → ℕ → Entry → Option (Option LuaService)
load_entry evaluate junk entry = load_pattern evaluate junk entry entry.pattern

unfoldable pub add_service : List LuaService → Option LuaService → List LuaService
add_service states none = states
add_service states (some state) = states ++ state ∷ []

-- The loop: `states` are the services at the front of an array of `size` slots, and the next slot is
-- written in every round and at the end. An element that is no table and no string is `none`: `lua_getfield` raises
-- an error for it.
unfoldable pub load_entries :
    (List ℕ → Option ℕ) → ℕ → ℕ → List (Option Entry) → List LuaService → Option (List LuaService)
load_entries evaluate junk size [] states = if ltb (length states) size then some states else none
load_entries evaluate junk size (entry ∷ entries) states = do
  let load_rest : Option (List LuaService) = do
    entry ← entry
    state ← load_entry evaluate junk entry
    load_entries evaluate junk size entries (add_service states state)
  if ltb (length states) size then load_rest else none

-- `scripts`: its raw length, and its entries.
pub record ScriptTable : Type 0 where
  pub raw_length : ℕ
  pub entries : List (Option Entry)

-- Without a table `lua_states` is NULL.
unfoldable pub load_scripts :
    (List ℕ → Option ℕ) → ℕ → Option ScriptTable → Option (Option (List LuaService))
load_scripts evaluate junk none = some none
load_scripts evaluate junk (some table) = do
  states ← load_entries evaluate junk (table.raw_length + 1) table.entries []
  some (some states)

-- A key or a value of a table: a string, a number as it is printed, or anything else.
pub data Scalar : Type 0 where
  string number : List ℕ → Scalar
  neither : Scalar

-- What `lua_tostring` and `strdup` make of it, unless it is NULL.
unfoldable pub chars_of : Scalar → Option (List ℕ)
chars_of (string s) = some (strdup s)
chars_of (number s) = some s
chars_of neither = none

-- `lua_rawlen`, which is 0 for a number.
unfoldable pub lua_rawlen : Scalar → ℕ
lua_rawlen (string s) = length s
lua_rawlen (number s) = 0
lua_rawlen neither = 0

-- An element of `mimetypes`: no table, one without entries, or its first key and value.
pub data TypeEntry : Type 0 where
  no_table empty_table : TypeEntry
  first : Scalar → Scalar → TypeEntry

unfoldable pub load_type : TypeEntry → Option Mimetype
load_type no_table = none
load_type empty_table = none
load_type (first key value) = do
  mimetype ← chars_of value
  postfix ← chars_of key
  some (record { postfix = postfix; postfix_size = lua_rawlen key; mimetype = mimetype })

-- The loop over `mimetypes`, of at most as many rounds as its raw length.
unfoldable pub load_types : ℕ → List TypeEntry → Option (List Mimetype)
load_types zero entries = some []
load_types (suc rounds) [] = some []
load_types (suc rounds) (entry ∷ entries) = do
  t ← load_type entry
  types ← load_types rounds entries
  some (t ∷ types)

abbrev default_type : List ℕ → List ℕ → Mimetype
default_type postfix mimetype = record {
  postfix = postfix;
  postfix_size = length postfix;
  mimetype = mimetype;
}

abbrev pub default_mimetypes : List Mimetype
default_mimetypes =
    default_type (codes "html") (codes "text/html")
    ∷ default_type (codes "htm") (codes "text/html")
    ∷ default_type (codes "png") (codes "image/png")
    ∷ default_type (codes "gif") (codes "image/gif")
    ∷ default_type (codes "jpg") (codes "image/jpeg")
    ∷ default_type (codes "jpeg") (codes "image/jpeg")
    ∷ default_type (codes "css") (codes "text/css")
    ∷ default_type (codes "js") (codes "text/javascript")
    ∷ default_type (codes "txt") (codes "text/plain")
    ∷ []

pub record TypeTable : Type 0 where
  pub raw_length : ℕ
  pub entries : List TypeEntry

-- The globals of the Lua state in which the file was evaluated. `port` is what `lua_tointeger` gives of a
-- number, as 64 bits.
pub record Globals : Type 0 where
  pub port : Option ℕ
  pub mimetypes : Option TypeTable
  pub scripts : Option ScriptTable

-- httpd_conf_t; `port` is an `int` as 32 bits.
pub record HttpdConf : Type 0 where
  pub port : ℕ
  pub mimetypes : List Mimetype
  pub default_mimetype : List ℕ
  pub lua_states : Option (List LuaService)

unfoldable pub load_port : Option ℕ → ℕ
load_port none = 8888
load_port (some n) = n % 2 ^ 32

unfoldable pub load_mimetypes : Option TypeTable → Option (List Mimetype)
load_mimetypes none = some default_mimetypes
load_mimetypes (some table) = load_types table.raw_length table.entries

unfoldable pub httpd_conf_load : (List ℕ → Option ℕ) → ℕ → Globals → Option HttpdConf
httpd_conf_load evaluate junk globals = do
  mimetypes ← load_mimetypes globals.mimetypes
  lua_states ← load_scripts evaluate junk globals.scripts
  some (record {
    port = load_port globals.port;
    mimetypes = mimetypes;
    default_mimetype = bin_mimetype;
    lua_states = lua_states;
  })
