-- ===== src/Blocks/Process/Tests.antt =====
-- One task at address 20, and the theorems about its scheduling.
use blocks.Prelude.{ℕ, ◌≡◌, refl, true, false, [], ◌∷◌, none, some, arith, ◌==◌, if◌then◌else◌}
use blocks.Blocks.Store.{null, task_idle, task_init, mbox_alive, Mailbox, Store, update, load_task}
use blocks.Blocks.Mailbox.Chain.{nil, has}
use blocks.Blocks.Mailbox.Queue.{Holds}
use blocks.Blocks.Process.{pop_task, push_task, append_item, process_notify_task, worker_round}
use blocks.Blocks.Process.LateNotify.{Loaded, worker_round-late}
use blocks.Blocks.Process.Sched.{idle, popped, World, Reach, here, next, spawns, pops, notifies}
use blocks.Blocks.Process.Sched.Invariant.{Distinct}
use blocks.Blocks.Process.Sched.Exclusive.{Reach-exclusive, Reach-Distinct}

abbrev empty_box : Mailbox
empty_box = record {
  head = null;
  end = null;
  count = 0;
  state = mbox_alive;
  task = 20;
  last_message = null;
}

abbrev no_task : Store
no_task = record {
  messages = λ _. none;
  mailboxes = λ p. if p == 10 then some empty_box else none;
  tasks = λ _. none;
  contents = λ _. false;
  heaps = λ _. true;
  task_queue = [];
}

abbrev one_task : Store
one_task = record no_task {
  tasks = λ p.
      if p == 20 then some (record { mailbox = 10; is_loaded = true; state = task_idle }) else none;
}

one_task-Holds : Holds one_task 10 mbox_alive []
one_task-Holds = record {
  mailbox = empty_box;
  ne_null = omega arith;
  at_box = refl;
  in_state = refl;
  chain = nil;
  end = tt;
  count = refl;
}

one_task-Loaded : Loaded one_task 20 10 task_idle
one_task-Loaded = record { ne_null = omega arith; at = refl }

worker_round-late_example :
    (s' : Store) × (process_notify_task 20 one_task ≡ some (tt, s'))
    × (s'.task_queue ≡ append_item [] 20)
    × (worker_round 9 20
          (record { do_continue = true; reply = 0; last = 0 })
          (record s' { task_queue = [] })
        ≡ none)
worker_round-late_example =
    worker_round-late one_task 20 10 mbox_alive 9 []
      (record { do_continue = true; reply = 0; last = 0 }) one_task-Loaded one_task-Holds

abbrev start : World
start = record { store = no_task; pcs = λ _. idle }

abbrev spawned : Store
spawned = record no_task {
  tasks =
      update no_task.tasks 20
        (some (record { mailbox = 10; is_loaded = false; state = task_init }));
  task_queue = 20 ∷ [];
}

abbrev taken : World
taken = record {
  store = record spawned { task_queue = [] };
  pcs = update (λ _. idle) 3 (popped 20);
}

abbrev notified : World
notified = record { store = spawned; pcs = λ _. idle }

notified-Reach : Reach start notified
unfolding push_task process_notify_task load_task update
notified-Reach =
    next (next here (spawns 20 10 spawned (omega arith) refl refl)) (notifies 20 spawned refl)

-- The task is spawned, and worker 3 takes it.
taken-Reach : Reach start taken
unfolding push_task pop_task
taken-Reach =
    next (next here (spawns 20 10 spawned (omega arith) refl refl))
      (pops 3 20 (record spawned { task_queue = [] }) refl refl (omega arith))

Reach-exclusive_example : (◌≡◌ {A = ℕ} 3 3) × (has 20 [] ≡ false)
unfolding update
Reach-exclusive_example =
    Reach-exclusive (record { no_tasks = refl; waiting = λ w. refl }) taken-Reach 3 3 20 refl refl

-- The task is notified while it waits in the queue.
Reach-Distinct_example : Distinct (20 ∷ [])
Reach-Distinct_example =
    Reach-Distinct (record { no_tasks = refl; waiting = λ w. refl }) notified-Reach
