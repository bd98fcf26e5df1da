-- ===== src/Blocks/Process.antt =====
-- src/blocks/process.c: the task queue, the worker's round and the end of a task.
-- A task's Lua state enters through what the worker asks of it: whether a function is left on its
-- stack, and the contents that `lua_message_pop` makes of it. The `task_item` list has no other
-- pointer into it than the queue's, and is a list.
pub mod Sched
pub mod LateNotify
pub mod Drain
pub mod Reply
pub mod Round
pub mod Ended
mod Tests
use blocks.Prelude.{
  ℕ, zero, suc, Bool, true, false, List, [], ◌∷◌, Option, none, some, ◌==◌, if◌then◌else◌,
}
use blocks.Blocks.Store.{
  Ptr, null, Task, TaskState, task_idle, task_init, task_waiting, task_processing, task_dead, Store,
  Cmd, pure, ◌>>=◌, ◌>>◌, load_task, load_mailbox, put_task, found,
}
use blocks.Blocks.Mailbox.{
  post, mailbox_receive, mailbox_peek, mailbox_message_reply, mailbox_message_destroy,
  mailbox_message_content_destroy, mailbox_message_content_set, mailbox_destroy,
  mailbox_set_last_message, mailbox_init, mailbox_set_task,
}

-- NULL if the queue is empty.
unfoldable pub pop_item : List Ptr → Ptr × List Ptr
pop_item [] = (null, [])
pop_item (t ∷ rest) = (t, rest)

unfoldable pub pop_task : Cmd Ptr
unfolding pop_item
pop_task s = some ((pop_item s.task_queue).0, record s { task_queue = (pop_item s.task_queue).1 })

-- The `while` loop to the last item.
unfoldable pub append_item : List Ptr → Ptr → List Ptr
append_item [] task = task ∷ []
append_item (t ∷ rest) task = t ∷ append_item rest task

unfoldable pub push_task : Ptr → Cmd (Unit {0})
unfolding append_item
push_task task s = some (tt, record s { task_queue = append_item s.task_queue task })

unfoldable pub is_idle : TaskState → Bool
is_idle task_idle = true
is_idle task_init = false
is_idle task_waiting = false
is_idle task_processing = false
is_idle task_dead = false

unfoldable pub set_state : Ptr → TaskState → Cmd (Unit {0})
set_state task st = do t ← load_task task; put_task task (some (record t { state = st }))

unfoldable pub process_notify_task : Ptr → Cmd (Unit {0})
unfolding is_idle push_task
process_notify_task task = do
  t ← load_task task
  if is_idle t.state
      then (do put_task task (some (record t { state = task_waiting })); push_task task)
      else pure tt

-- `mailbox_send`, with the notification of the recipient's task. `fresh` is what `malloc` returns.
unfoldable pub mailbox_send : Ptr → Ptr → Ptr → Ptr → Cmd Ptr
mailbox_send sender recipient content fresh = do
  msg ← post sender recipient content fresh
  if msg == null
      then pure null
      else (do b ← load_mailbox recipient; process_notify_task b.task; pure msg)

-- The loop of `task_destroy` over the messages that are left; `none` also if the fuel runs out.
unfoldable pub drain : ℕ → Ptr → Cmd (Unit {0})
drain zero box = λ s. none
drain (suc fuel) box = do
  msg ← mailbox_receive box
  elim (msg == null) [
    | true ↦ pure tt
    | false ↦ do mailbox_message_reply msg true; mailbox_message_destroy msg; drain fuel box
  ]

-- `lua_close` and `free` at the end of `task_destroy`.
unfoldable pub free_task : Ptr → Cmd (Unit {0})
free_task task = do _ ← load_task task; put_task task none

unfoldable pub task_destroy : ℕ → Ptr → Cmd (Unit {0})
unfolding set_state drain free_task
task_destroy fuel task = do
  set_state task task_dead
  t ← load_task task
  drain fuel t.mailbox
  mailbox_destroy t.mailbox
  free_task task

-- What the Lua state gives back: whether a function is on the stack, the content of the reply, and
-- the content that is kept if the task ends.
pub record Outcome : Type 0 where
  pub do_continue : Bool
  pub reply : Ptr
  pub last : Ptr

-- The part of a round in which a loaded task works on a message. The message's values are copied to
-- the Lua stack before its content is destroyed. That it is registered as the current one is left out: no code
-- reads it.
unfoldable pub take_message : Ptr → Cmd Ptr
take_message box = do
  msg ← mailbox_receive box
  if msg == null then pure null else (do mailbox_message_content_destroy msg; pure msg)

unfoldable pub give_reply : Ptr → Ptr → Cmd (Unit {0})
give_reply msg reply = do
  mailbox_message_content_set msg reply
  mailbox_message_reply msg false
  if msg == null then pure tt else mailbox_message_destroy msg

-- The first run of a task loads its function; a later run answers one message.
unfoldable pub run_task : Ptr → Ptr → Outcome → Cmd (Unit {0})
run_task task box outcome = do
  t ← load_task task
  if t.is_loaded
      then (do msg ← take_message box; give_reply msg outcome.reply)
      else put_task task (some (record t { is_loaded = true }))

-- `if (mailbox_peek(mbox_ref) != NULL) process_notify_task(t);`
unfoldable pub recheck : Ptr → Ptr → Cmd (Unit {0})
recheck task box = do
  msg ← mailbox_peek box
  if msg == null then pure tt else process_notify_task task

-- A round of `worker` on a task that it has popped, from `t->state = TASK_PROCESSING` on.
unfoldable pub worker_round : ℕ → Ptr → Outcome → Cmd (Unit {0})
worker_round fuel task outcome = do
  set_state task task_processing
  t ← load_task task
  run_task task t.mailbox outcome
  if outcome.do_continue
      then (do set_state task task_idle; recheck task t.mailbox)
      else (do mailbox_set_last_message t.mailbox outcome.last; task_destroy fuel task)

-- The loop of one `worker`, over the rounds of which the outcomes are given. With an empty queue it waits.
unfoldable pub worker : ℕ → List Outcome → Cmd (Unit {0})
worker fuel [] = pure tt
worker fuel (outcome ∷ outcomes) = do
  let rest = worker fuel outcomes
  task ← pop_task
  if task == null then pure tt else (do worker_round fuel task outcome; rest)

-- `process_spawn`: `fresh` and `box` are what `malloc` returns for the task and its mailbox, which
-- `luaopen_blocks` makes. The values of the parent's stack are copied by `copy_stack`.
unfoldable pub process_spawn : Ptr → Ptr → Cmd Ptr
process_spawn fresh box = do
  put_task fresh (some (record { mailbox = box; is_loaded = false; state = task_init }))
  _ ← mailbox_init box
  mailbox_set_task box fresh
  push_task fresh
  pure box
