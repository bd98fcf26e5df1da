-- ===== src/Blocks/Process/Sched.antt =====
-- The workers and the senders as interleaved steps, each one critical section of process.c.
pub mod Invariant
pub mod Effects
pub mod Exclusive
use blocks.Prelude.{ℕ, ◌≡◌, ◌≢◌, Bool, true, false, List, Option, none, some, ◌==◌}
use blocks.Blocks.Store.{
  Ptr, null, Task, TaskState, task_idle, task_init, task_processing, task_dead, Store, update,
  put_task,
}
use blocks.Blocks.Process.{pop_task, push_task, set_state, process_notify_task, free_task, recheck}

-- Where a worker stands: at `pthread_cond_wait`; behind `pop_task`; behind `TASK_PROCESSING`, with
-- the Lua state in use; behind the evaluation, with `do_continue`; in `task_destroy`, behind
-- `TASK_DEAD`; behind `TASK_IDLE`.
pub data Pc : Type 0 where
  idle : Pc
  popped : Ptr → Pc
  running : Ptr → Pc
  returned : Ptr → Bool → Pc
  dying : Ptr → Pc
  parked : Ptr → Ptr → Pc

pub record World : Type 0 where
  pub store : Store
  pub pcs : ℕ → Pc

-- The state of a task, if it is allocated.
unfoldable pub state_of : Option Task → Option TaskState
state_of none = none
state_of (some t) = some t.state

-- What the evaluation of Lua code and the calls on mailboxes leave alone: the state of every task and
-- the task queue.
pub record SameTasks (s t : Store) : Type 0 where
  pub states : (p : Ptr) → state_of (t.tasks p) ≡ state_of (s.tasks p)
  pub queue : t.task_queue ≡ s.task_queue

pub data Step (x : World) : World → Type 0 where
  pops :
      (w : ℕ) (t : Ptr) (s : Store)
      → x.pcs w ≡ idle
      → pop_task x.store ≡ some (t, s)
      → t ≢ null
      → Step x (record { store = s; pcs = update x.pcs w (popped t) })
  marks :
      (w : ℕ) (t : Ptr) (s : Store)
      → x.pcs w ≡ popped t
      → set_state t task_processing x.store ≡ some (tt, s)
      → Step x (record { store = s; pcs = update x.pcs w (running t) })
  evaluates :
      (w : ℕ) (t : Ptr) (do_continue : Bool) (s : Store)
      → x.pcs w ≡ running t
      → SameTasks x.store s
      → Step x (record { store = s; pcs = update x.pcs w (returned t do_continue) })
  kills :
      (w : ℕ) (t : Ptr) (s : Store)
      → x.pcs w ≡ returned t false
      → set_state t task_dead x.store ≡ some (tt, s)
      → Step x (record { store = s; pcs = update x.pcs w (dying t) })
  frees :
      (w : ℕ) (t : Ptr) (s : Store)
      → x.pcs w ≡ dying t
      → free_task t x.store ≡ some (tt, s)
      → Step x (record { store = s; pcs = update x.pcs w idle })
  parks :
      (w : ℕ) (t box : Ptr) (s : Store)
      → x.pcs w ≡ returned t true
      → set_state t task_idle x.store ≡ some (tt, s)
      → Step x (record { store = s; pcs = update x.pcs w (parked t box) })
  rechecks :
      (w : ℕ) (t box : Ptr) (s : Store)
      → x.pcs w ≡ parked t box
      → recheck t box x.store ≡ some (tt, s)
      → Step x (record { store = s; pcs = update x.pcs w idle })
  notifies :
      (t : Ptr) (s : Store)
      → process_notify_task t x.store ≡ some (tt, s)
      → Step x (record { store = s; pcs = x.pcs })
  spawns :
      (t box : Ptr) (s : Store)
      → t ≢ null
      → x.store.tasks t ≡ none
      → push_task t (record x.store {
        tasks =
            update x.store.tasks t
              (some (record { mailbox = box; is_loaded = false; state = task_init }));
      })
        ≡ some (tt, s)
      → Step x (record { store = s; pcs = x.pcs })
  mailboxes : (s : Store) → SameTasks x.store s → Step x (record { store = s; pcs = x.pcs })

pub data Reach (x : World) : World → Type 0 where
  here : Reach x x
  next : {y z : World} → Reach x y → Step y z → Reach x z
