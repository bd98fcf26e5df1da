-- ===== src/Blocks/LuaState/Spawn.antt =====
-- src/blocks/blocks.c and process.c: the opening of the library in a Lua state, and the spawning of a process.
use blocks.Prelude.{ℕ, Bool, true, false, List, [], ◌∷◌, ◌++◌, Option, none, some, if◌then◌else◌}
use blocks.Blocks.Store.{Ptr, task_init, put_task}
use blocks.Blocks.Mailbox.{mailbox_set_task}
use blocks.Blocks.Process.{push_task}
use blocks.Blocks.Copy.{
  Value, nil, boolean, number, string, function, load_string, userdata, lightuserdata, thread,
  table, LuaApi, same_bytes, copied, raised, panicked, copy_stack,
}
use blocks.Blocks.Threads.{l_blocks_init}
use blocks.Http.Buffer.{codes}
use blocks.Blocks.LuaState.{
  c_spawn, c_sleep, c_message_receive, c_add_to_reply, c_pool_extend, c_message_send,
  c_mailbox_state, c_mailbox_tostring, c_mailbox_ref_destroy, c_message_get, c_message_tostring,
  c_message_destroy, Slot, itself, text, c_function, LuaState, Sys, pure, ◌>>=◌, ◌>>◌, lift,
  load_state, put_state, load_ref, put_ref, mailbox_init, mailbox_get, mailbox_register_parent,
}

abbrev pub mailbox_ref_type_name : List ℕ
mailbox_ref_type_name = codes "blocks.mailbox-ref"

abbrev pub message_ref_type_name : List ℕ
message_ref_type_name = codes "blocks.message-ref"

-- A field with a string key, and `lua_settable`.
unfoldable pub get_field {ℓ} : {A : Type ℓ} → List ℕ → List (List ℕ × A) → Option A
get_field k [] = none
get_field k ((k', v) ∷ fs) = let rest = get_field k fs in if same_bytes k k' then some v else rest

unfoldable pub set_field {ℓ} : {A : Type ℓ} → List ℕ → A → List (List ℕ × A) → List (List ℕ × A)
set_field k v [] = (k, v) ∷ []
set_field k v ((k', v') ∷ fs) =
    let rest = set_field k v fs in if same_bytes k k' then (k', v) ∷ fs else (k', v') ∷ rest

abbrev pub blocks_functions : List (List ℕ × Slot)
blocks_functions =
    (codes "spawn", c_function c_spawn)
    ∷ (codes "sleep", c_function c_sleep)
    ∷ (codes "receive", c_function c_message_receive)
    ∷ (codes "add_to_reply", c_function c_add_to_reply)
    ∷ (codes "extend_pool", c_function c_pool_extend)
    ∷ []

-- `luaL_newmetatable`: the table that the registry has under the name, or a new one.
unfoldable pub newmetatable : List ℕ → LuaState → List (List ℕ × Slot)
unfolding get_field
newmetatable name st = elim (get_field name st.metatables) [ none ↦ [] | some fields ↦ fields ]

-- The fields that are set in it one after another.
unfoldable pub set_fields : List (List ℕ × Slot) → List (List ℕ × Slot) → List (List ℕ × Slot)
unfolding set_field
set_fields [] t = t
set_fields ((k, v) ∷ fs) t = set_fields fs (set_field k v t)

abbrev pub mailbox_ref_fields : List (List ℕ × Slot)
mailbox_ref_fields =
    (codes "__index", itself)
    ∷ (codes "send", c_function c_message_send)
    ∷ (codes "state", c_function c_mailbox_state)
    ∷ (codes "__metadata", text (codes "restricted"))
    ∷ (codes "__type", text mailbox_ref_type_name)
    ∷ (codes "__tostring", c_function c_mailbox_tostring)
    ∷ (codes "__gc", c_function c_mailbox_ref_destroy)
    ∷ []

abbrev pub message_ref_fields : List (List ℕ × Slot)
message_ref_fields =
    (codes "__index", itself)
    ∷ (codes "get", c_function c_message_get)
    ∷ (codes "__metadata", text (codes "restricted"))
    ∷ (codes "__type", text message_ref_type_name)
    ∷ (codes "__tostring", c_function c_message_tostring)
    ∷ (codes "__gc", c_function c_message_destroy)
    ∷ []

unfoldable pub open_metatable : List ℕ → List (List ℕ × Slot) → LuaState → LuaState
unfolding newmetatable set_fields set_field
open_metatable name fields st = record st {
  metatables = set_field name (set_fields fields (newmetatable name st)) st.metatables;
}

-- `l_blocks_init`, on the static variable.
unfoldable pub init_pool : Sys (Unit {0})
init_pool s = elim (l_blocks_init s.pool) [
  | none ↦ none
  | some pool ↦ some (tt, record s { pool = pool })
]

-- `ref` and `fresh` are the userdata and the mailbox that `mailbox_init` allocates.
unfoldable pub luaopen_blocks : Ptr → Ptr → Ptr → Sys (Unit {0})
unfolding open_metatable set_field init_pool
luaopen_blocks l ref fresh = do
  st ← load_state l
  put_state l (record st { globals = set_field (codes "blocks") blocks_functions st.globals })
  init_pool
  st ← load_state l
  let st = open_metatable mailbox_ref_type_name mailbox_ref_fields st
  let st = open_metatable message_ref_type_name message_ref_fields st
  put_state l (record st { stack = [] })
  _ ← mailbox_init l ref fresh
  pure tt

-- `luaL_newstate`, with the libraries of `luaL_openlibs` left out.
abbrev pub new_state : LuaState
new_state = record { stack = []; registry = λ _. none; metatables = []; globals = [] }

-- What `malloc`, `luaL_newstate` and `lua_newuserdata` return: the task, its Lua state, its mailbox, and the userdata
-- that refer to that and to the parent's mailbox.
pub record Fresh : Type 0 where
  pub task : Ptr
  pub state : Ptr
  pub mailbox : Ptr
  pub mailbox_ref : Ptr
  pub parent_ref : Ptr

-- The copies are pushed to the stack of the new state. The answer `false` is an error that is raised in the parent's
-- state; what was pushed before that is not followed. An error in the new state ends the whole process, which is
-- `none`.
unfoldable pub push_copies : LuaApi → Ptr → Ptr → Sys Bool
push_copies api src dst = do
  from ← load_state src
  to ← load_state dst
  elim (copy_stack api from.stack) [
    | panicked ↦ λ s. none
    | raised ↦ pure false
    | copied values ↦ do put_state dst (record to { stack = to.stack ++ values }); pure true
  ]

-- `process_spawn` up to the copy of the stack: the task, its Lua state and its mailbox.
unfoldable pub make_task : Fresh → Ptr → Sys Ptr
unfolding luaopen_blocks
make_task fresh parent = do
  put_state fresh.state new_state
  lift (
      put_task fresh.task
        (some (record { mailbox = fresh.mailbox; is_loaded = false; state = task_init })))
  luaopen_blocks fresh.state fresh.mailbox_ref fresh.mailbox
  ref ← mailbox_get fresh.state
  mailbox ← load_ref ref
  lift (mailbox_set_task mailbox.holds fresh.task)
  parent_ref ← mailbox_get parent
  parent_mailbox ← load_ref parent_ref
  mailbox_register_parent fresh.state fresh.parent_ref parent_mailbox.holds
  pure mailbox.holds

-- `process_spawn`: the mailbox, or `none` where an error is raised.
unfoldable pub process_spawn : LuaApi → Fresh → Ptr → Sys (Option Ptr)
unfolding push_copies make_task
process_spawn api fresh parent = do
  mailbox ← make_task fresh parent
  is_copied ← push_copies api parent fresh.state
  if is_copied
      then (do
        lift (push_task fresh.task)
        st ← load_state parent
        put_state parent (record st { stack = [] })
        pure (some mailbox))
      else pure none

-- `luaL_getmetatable` and `lua_setmetatable`, which are without effect where the registry has nothing.
unfoldable pub set_metatable : List ℕ → LuaState → Ptr → Sys (Unit {0})
unfolding get_field
set_metatable name st p = do
  u ← load_ref p
  put_ref p (record u {
    metatable = elim (get_field name st.metatables) [ none ↦ none | some _ ↦ some name ];
  })

-- `lua_newuserdata` with the mailbox of the new process; `ref` is what it returns. The result is the number of
-- values, or `none` where an error is raised.
unfoldable pub l_spawn : LuaApi → Fresh → Ptr → Ptr → Sys (Option ℕ)
unfolding process_spawn set_metatable
l_spawn api fresh ref l = do
  child ← process_spawn api fresh l
  elim child [
    | none ↦ pure none
    | some mailbox ↦ do
      put_ref ref (record { holds = mailbox; metatable = none })
      st ← load_state l
      put_state l (record st { stack = st.stack ++ userdata ref ∷ [] })
      set_metatable mailbox_ref_type_name st ref
      pure (some 1)
  ]

abbrev typed : List ℕ → Ptr → Option (List ℕ) → Option Ptr
typed name p none = none
typed name p (some name') = if same_bytes name name' then some p else none

-- `luaL_checkudata` on a value: its address, or `none` where an error is raised.
unfoldable pub checkudata : List ℕ → Value → Sys (Option Ptr)
unfolding same_bytes
checkudata name (userdata p) = do u ← load_ref p; pure (typed name p u.metatable)
checkudata name nil = pure none
checkudata name (boolean b) = pure none
checkudata name (number n) = pure none
checkudata name (string s) = pure none
checkudata name (function dump) = pure none
checkudata name (load_string dump) = pure none
checkudata name (lightuserdata p) = pure none
checkudata name thread = pure none
checkudata name (table fs) = pure none
