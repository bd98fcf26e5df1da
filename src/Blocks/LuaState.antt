-- ===== src/Blocks/LuaState.antt =====
-- src/blocks/mailbox.c, process.c and blocks.c: the Lua states of processes, and how one is spawned.
-- The userdata of `mailbox.h` are at addresses, as the Lua states are; what `malloc`, `luaL_newstate` and
-- `lua_newuserdata` return is a parameter, and a collection of garbage is none of these commands. `none` is
-- undefined behaviour, as for Store.
pub mod Spawn
pub mod Written
pub mod Spawned
pub mod Family
pub mod FirstRun
pub mod Started
mod Tests
use blocks.Prelude.{
  ℕ, Bool, true, false, List, [], ◌∷◌, ◌++◌, Option, none, some, ◌==◌, if◌then◌else◌,
}
use blocks.Blocks.Store.{Ptr, null, Task, task_init, Store, Cmd, update}
use blocks.Blocks.Mailbox.{mailbox_set_task}
use blocks.Blocks.Mailbox
use blocks.Blocks.Process.{push_task}
use blocks.Blocks.Copy.{Value, userdata, LuaApi, copy_stack}
use blocks.Blocks.Threads.{ThreadPool, l_blocks_init}

-- The light userdata that index the registry are the addresses of three static characters.
pub data RegistryKey : Type 0 where
  mailbox_key parent_mailbox_key current_message_key : RegistryKey

-- A C function of blocks.c that Lua code calls.
pub data CFunction : Type 0 where
  c_spawn c_sleep c_message_receive c_add_to_reply c_pool_extend : CFunction
  c_message_send c_mailbox_state c_mailbox_tostring c_mailbox_ref_destroy : CFunction
  c_message_get c_message_tostring c_message_destroy : CFunction

-- What the table `blocks` and the metatables have under a string: the table itself, a string or a function.
pub data Slot : Type 0 where
  itself : Slot
  text : List ℕ → Slot
  c_function : CFunction → Slot

-- What the code uses of a Lua state. A table is the list of its fields; a metatable stands in the registry under
-- its type's name.
pub record LuaState : Type 0 where
  pub stack : List Value
  pub registry : RegistryKey → Option Ptr
  pub metatables : List (List ℕ × List (List ℕ × Slot))
  pub globals : List (List ℕ × List (List ℕ × Slot))

-- A `struct mailbox_ref` or `struct message_ref`, and its metatable.
pub record Userdata : Type 0 where
  pub holds : Ptr
  pub metatable : Option (List ℕ)

-- The shared objects, the Lua states and their userdata, and the static variable `pool` of blocks.c.
pub record System : Type 0 where
  pub store : Store
  pub states : Ptr → Option LuaState
  pub refs : Ptr → Option Userdata
  pub pool : Option ThreadPool

abbrev pub Sys : Type 0 → Type 0
Sys A = System → Option (A × System)

abbrev pub pure : {A : Type 0} → A → Sys A
pure a s = some (a, s)

abbrev pub and_then : {A B : Type 0} → Option (A × System) → (A → Sys B) → Option (B × System)
and_then none f = none
and_then (some (a, s)) f = f a s

infixl 5 ◌>>=◌ ◌>>◌
abbrev pub ◌>>=◌ : {A B : Type 0} → Sys A → (A → Sys B) → Sys B
◌>>=◌ m f s = and_then (m s) f

abbrev pub ◌>>◌ : {B : Type 0} → Sys (Unit {0}) → Sys B → Sys B
m >> k = m >>= λ _. k

abbrev pub with_store : {A : Type 0} → System → Option (A × Store) → Option (A × System)
with_store s none = none
with_store s (some (a, store)) = some (a, record s { store = store })

-- A command on the shared objects.
abbrev pub lift : {A : Type 0} → Cmd A → Sys A
lift m s = with_store s (m s.store)

abbrev pub found : {A : Type 0} → Ptr → Option A → System → Option (A × System)
found p none s = none
found p (some a) s = if p == null then none else some (a, s)

unfoldable pub load_state : Ptr → Sys LuaState
load_state l s = found l (s.states l) s

abbrev pub put_state : Ptr → LuaState → Sys (Unit {0})
put_state l st s = some (tt, record s { states = update s.states l (some st) })

unfoldable pub load_ref : Ptr → Sys Userdata
load_ref p s = found p (s.refs p) s

abbrev pub put_ref : Ptr → Userdata → Sys (Unit {0})
put_ref p u s = some (tt, record s { refs = update s.refs p (some u) })

unfoldable pub same_registry_key : RegistryKey → RegistryKey → Bool
same_registry_key mailbox_key mailbox_key = true
same_registry_key mailbox_key parent_mailbox_key = false
same_registry_key mailbox_key current_message_key = false
same_registry_key parent_mailbox_key mailbox_key = false
same_registry_key parent_mailbox_key parent_mailbox_key = true
same_registry_key parent_mailbox_key current_message_key = false
same_registry_key current_message_key mailbox_key = false
same_registry_key current_message_key parent_mailbox_key = false
same_registry_key current_message_key current_message_key = true

unfoldable pub set_key : RegistryKey → Ptr → (RegistryKey → Option Ptr) → RegistryKey → Option Ptr
set_key k p r k' = if same_registry_key k' k then some p else r k'

-- `ref = lua_newuserdata(...)` under a key of the registry, and the pointer that it is given.
unfoldable pub register : RegistryKey → Ptr → Ptr → Ptr → Sys (Unit {0})
register key l ref p = do
  st ← load_state l
  put_state l (record st { registry = set_key key ref st.registry })
  put_ref ref (record { holds = p; metatable = none })

unfoldable pub mailbox_init : Ptr → Ptr → Ptr → Sys Ptr
unfolding register
mailbox_init l ref fresh = do
  mailbox ← lift (blocks.Blocks.Mailbox.mailbox_init fresh)
  register mailbox_key l ref mailbox
  pure mailbox

unfoldable pub mailbox_register_current_message : Ptr → Ptr → Ptr → Sys (Unit {0})
unfolding register
mailbox_register_current_message l ref msg = register current_message_key l ref msg

unfoldable pub mailbox_register_parent : Ptr → Ptr → Ptr → Sys (Unit {0})
unfolding register
mailbox_register_parent l ref mailbox = register parent_mailbox_key l ref mailbox

-- `lua_touserdata` of what the registry has under a key; NULL if it has nothing.
abbrev pub touserdata : Option Ptr → Ptr
touserdata none = null
touserdata (some p) = p

unfoldable pub mailbox_get : Ptr → Sys Ptr
mailbox_get l = do st ← load_state l; pure (touserdata (st.registry mailbox_key))

unfoldable pub mailbox_get_parent : Ptr → Sys Ptr
mailbox_get_parent l = do st ← load_state l; pure (touserdata (st.registry parent_mailbox_key))
