-- ===== src/Blocks/Process/LateNotify.antt =====
-- process.c and `mailbox_send`: a call of `process_notify_task` that comes after the worker has answered
-- the message, since `mailbox_send` makes it after the mailbox's critical section.
use blocks.Prelude.{ℕ, ◌≡◌, refl, ◌≢◌, true, List, [], Option, none, some, ne→==}
use blocks.Blocks.Store.{
  Ptr, null, Task, TaskState, task_idle, task_waiting, task_processing, MailboxState, Message,
  Store, found, update, load_task, load_message,
}
use blocks.Blocks.Mailbox.{mailbox_message_content_set}
use blocks.Blocks.Mailbox.Chain.{update_self}
use blocks.Blocks.Mailbox.Queue.{Holds, mailbox_receive-nil}
use blocks.Blocks.Process.{
  Outcome, push_task, append_item, set_state, process_notify_task, take_message, give_reply,
  run_task, worker_round, is_idle,
}

-- The task at `t` is allocated, in the state `st`, and has run its function once.
pub record Loaded (s : Store) (t box : Ptr) (st : TaskState) : Type 0 where
  pub ne_null : t ≢ null
  pub at : s.tasks t ≡ some (record { mailbox = box; is_loaded = true; state = st })

module _ (s : Store) (t box : Ptr) (st : TaskState) (l : Loaded s t box st) where
  pub load : load_task t s ≡ some (record { mailbox = box; is_loaded = true; state = st }, s)
  unfolding load_task
  load = rw (l.at, ne→== t null l.ne_null)

  abbrev pub in_state : TaskState → Store
  in_state st' = record s {
    tasks = update s.tasks t (some (record { mailbox = box; is_loaded = true; state = st' }));
  }

  pub set_state-some : (st' : TaskState) → set_state t st' s ≡ some (tt, in_state st')
  unfolding set_state
  set_state-some st' = rw load

  pub in_state-Loaded : (st' : TaskState) → Loaded (in_state st') t box st'
  in_state-Loaded st' = record { ne_null = l.ne_null; at = update_self s.tasks t _ }

load_null : (s : Store) (o : Option Message) → found null o s ≡ none
load_null s none = refl
load_null s (some m) = refl

-- With no message in its mailbox a loaded task answers NULL.
give_reply-null : (s : Store) (reply : Ptr) → give_reply null reply s ≡ none
unfolding give_reply mailbox_message_content_set load_message
give_reply-null s reply = rw (load_null s (s.messages null))

run_task-empty :
    (s : Store) (t box : Ptr) (st : TaskState) (ms : MailboxState) (outcome : Outcome)
    → Loaded s t box st
    → Holds s box ms []
    → run_task t box outcome s ≡ none
unfolding run_task take_message
run_task-empty s t box st ms outcome l h =
    rw (load s t box st l, mailbox_receive-nil s box ms h, give_reply-null s outcome.reply)

abbrev pub same_mailbox : (s : Store) → (Ptr → Option Task) → List Ptr → Store
same_mailbox s tasks q = record s { tasks = tasks; task_queue = q }

-- The mailbox is not touched by what happens to tasks and queue.
pub Holds-tasks :
    (s : Store) (box : Ptr) (ms : MailboxState) (ps : List Ptr) (tasks : Ptr → Option Task)
    (q : List Ptr)
    → Holds s box ms ps
    → Holds (same_mailbox s tasks q) box ms ps
Holds-tasks s box ms ps tasks q h = record {
  mailbox = h.mailbox;
  ne_null = h.ne_null;
  at_box = h.at_box;
  in_state = h.in_state;
  chain = h.chain;
  end = h.end;
  count = h.count;
}

-- If a sender notifies a loaded task that is idle again with an empty mailbox, because its message has
-- been answered already, the task goes to the end of the queue, and the worker that takes it from there
-- writes the reply through a NULL message, whatever its Lua function returns.
pub worker_round-late :
    (s : Store) (t box : Ptr) (ms : MailboxState) (fuel : ℕ) (q : List Ptr) (outcome : Outcome)
    → Loaded s t box task_idle
    → Holds s box ms []
    → (s' : Store) × (process_notify_task t s ≡ some (tt, s'))
      × (s'.task_queue ≡ append_item s.task_queue t)
      × (worker_round fuel t outcome (record s' { task_queue = q }) ≡ none)
unfolding process_notify_task worker_round push_task
worker_round-late s t box ms fuel q outcome l h =
    let notified = in_state s t box task_idle l task_waiting in
    let l1 = in_state-Loaded s t box task_idle l task_waiting in
    (
      record notified { task_queue = append_item s.task_queue t },
      rw (load s t box task_idle l) (unfold is_idle in refl),
      refl,
      let r : Store = record notified { task_queue = q } in
          let lr : Loaded r t box task_waiting = record { ne_null = l1.ne_null; at = l1.at } in
          let hr = Holds-tasks s box ms [] r.tasks q h in
          let r2 = in_state r t box task_waiting lr task_processing in
          let l2 = in_state-Loaded r t box task_waiting lr task_processing in
          let h2 = Holds-tasks r box ms [] r2.tasks q hr in
          rw (
            set_state-some r t box task_waiting lr task_processing,
            load r2 t box task_processing l2,
            run_task-empty r2 t box task_processing ms outcome l2 h2,
          ),
    )
