-- ===== src/Blocks/LuaState/Tests.antt =====
-- A parent with its Lua state at address 100, of which the mailbox is at 10, spawns a process.
use blocks.Prelude.{◌≡◌, refl, true, false, List, [], ◌∷◌, none, some, arith, ◌==◌, if◌then◌else◌}
use blocks.Blocks.Store.{Mailbox, mbox_alive, task_init, Store}
use blocks.Blocks.Mailbox.Queue.{Holds}
use blocks.Blocks.Process
use blocks.Blocks.Copy.{
  nil, Value, function, load_string, number, userdata, LuaApi, copied, raised, copy_value,
  copy_values, is_function, copy_stack,
}
use blocks.Blocks.Threads.{new_pool}
use blocks.Http.Buffer.{codes}
use blocks.Blocks.LuaState.{mailbox_key, set_key, same_registry_key, LuaState, System}
use blocks.Blocks.LuaState.Spawn.{
  Fresh, get_field, l_spawn, mailbox_ref_type_name, mailbox_ref_fields,
}
use blocks.Blocks.Copy.{same_bytes}
use blocks.Blocks.LuaState.Written.{States, Refs, sys, ref_to}
use blocks.Blocks.LuaState.Spawned.{Runs, IsFresh}
use blocks.Util.LuaEval.{ok, returned}
use blocks.Blocks.LuaState.FirstRun.{Lua, first_run}
use blocks.Blocks.LuaState.Started.{l_spawn-first_run}
use blocks.Blocks.LuaState.Family.{Types, Related, IsApart, l_spawn-Related, l_spawn-leaks}

abbrev api : LuaApi
api = record { to_integer = λ n. n; numeric = λ s. none }

abbrev store : Store
store = record {
  messages = λ _. none;
  mailboxes = λ _. none;
  tasks = λ _. none;
  contents = λ _. false;
  heaps = λ _. true;
  task_queue = 7 ∷ [];
}

abbrev parent_with : List Value → LuaState
parent_with stack = record {
  stack = stack;
  registry = set_key mailbox_key 101 (λ _. none);
  metatables = (mailbox_ref_type_name, mailbox_ref_fields) ∷ [];
  globals = [];
}

abbrev states_with : List Value → States
states_with stack p = if p == 100 then some (parent_with stack) else none

abbrev refs : Refs
refs p = if p == 101 then some (ref_to 10) else none

abbrev fresh : Fresh
fresh = record { task = 20; state = 200; mailbox = 30; mailbox_ref = 201; parent_ref = 202 }

parent-Runs :
    (stack : List Value) → Runs (states_with stack) refs 100 (parent_with stack) 101 (ref_to 10)
unfolding set_key same_registry_key
parent-Runs stack = record {
  ne_null = omega arith;
  at = refl;
  key = refl;
  own_ne = omega arith;
  own_at = refl;
}

parent-Types : (stack : List Value) → Types (parent_with stack)
unfolding get_field same_bytes
parent-Types stack = record { fields = _; at = refl; send = refl }

fresh-IsFresh : IsFresh fresh 100 101
fresh-IsFresh = record {
  task = omega arith;
  state = omega arith;
  mailbox = omega arith;
  mailbox_ref = omega arith;
  parent_ref = omega arith;
  apart = omega arith;
  own_mailbox = omega arith;
  own_parent = omega arith;
  refs = omega arith;
}

fresh-IsApart : IsApart 102 101 fresh
fresh-IsApart = record {
  ne_null = omega arith;
  mailbox_ref = omega arith;
  parent_ref = omega arith;
}

abbrev stack : List Value
stack = function (codes "f") ∷ number 3 ∷ []

stack-copies : copy_stack api stack ≡ copied (load_string (codes "f") ∷ number 3 ∷ [])
unfolding copy_stack copy_values copy_value is_function
stack-copies = refl

l_spawn-Related_example :
    (u : System) × (l_spawn api fresh 102 100 (sys store (states_with stack) refs new_pool)
      ≡ some (some 1, u))
    × (u.states 100 ≡ some (record (parent_with stack) { stack = userdata 102 ∷ [] }))
    × Related u 100 102 fresh 10 (load_string (codes "f") ∷ number 3 ∷ [])
    × (Process.process_spawn 20 30 store ≡ some (30, u.store))
    × Holds u.store 30 mbox_alive []
l_spawn-Related_example =
    l_spawn-Related api fresh 102 100 101 store (states_with stack) refs new_pool
      (parent_with stack) (ref_to 10) fresh-IsFresh fresh-IsApart (parent-Runs stack)
      (parent-Types stack) (load_string (codes "f") ∷ number 3 ∷ []) stack-copies

-- The first value is no function.
abbrev bad : List Value
bad = number 3 ∷ []

bad-copies : copy_stack api bad ≡ raised
unfolding copy_stack is_function
bad-copies = refl

l_spawn-leaks_example :
    (u : System) × (l_spawn api fresh 102 100 (sys store (states_with bad) refs new_pool)
      ≡ some (none, u))
    × (u.store.tasks 20 ≡ some (record { mailbox = 30; is_loaded = false; state = task_init }))
    × ((b : Mailbox) × (u.store.mailboxes 30 ≡ some b))
    × ((child : LuaState) × (u.states 200 ≡ some child))
    × (u.store.task_queue ≡ 7 ∷ [])
l_spawn-leaks_example =
    l_spawn-leaks api fresh 102 100 101 store (states_with bad) refs new_pool (parent_with bad)
      (ref_to 10) fresh-IsFresh fresh-IsApart (parent-Runs bad) (parent-Types bad) bad-copies

-- A function whose evaluation leaves its arguments.
abbrev lua : Lua
lua = record {
  loadbuffer = λ dump. (ok, function dump);
  run = λ code args. returned args;
  not_callable = nil;
  unexpected_state = nil;
  traceback = nil;
}

l_spawn-first_run_example :
    (u : System) × (child : LuaState) × (l_spawn api fresh 102 100
        (sys store (states_with stack) refs new_pool)
      ≡ some (some 1, u))
    × (u.states 200 ≡ some child)
    × (first_run lua child.stack ≡ some (number 3 ∷ []))
l_spawn-first_run_example =
    l_spawn-first_run api lua fresh 102 100 101 store (states_with stack) refs new_pool
      (parent_with stack) (ref_to 10) (codes "f") (codes "f") (number 3 ∷ []) fresh-IsFresh
      fresh-IsApart (parent-Runs stack) (parent-Types stack) refl (tt, tt) refl
