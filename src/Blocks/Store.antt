-- ===== src/Blocks/Store.antt =====
-- The shared objects of src/blocks/mailbox.c and process.c: messages, mailboxes and tasks at
-- addresses, and commands that read and write them.
-- A `mailbox_ref_t *` is the address of the mailbox that it refers to. The mutex and the condition
-- variable of an object are no fields: what a mutex guards is one command.
use blocks.Prelude.{ℕ, Bool, false, List, Option, none, some, ◌==◌, if◌then◌else◌}
use blocks.Prelude.Int.{ℤ}

abbrev pub Ptr : Type 0
Ptr = ℕ

abbrev pub null : Ptr
null = 0

-- enum message_state
pub data MessageState : Type 0 where
  msg_waiting msg_processing msg_ready msg_dead : MessageState

-- struct message; `content` is the address of a `message_content_t`.
pub record Message : Type 0 where
  pub content : Ptr
  pub sender : Ptr
  pub mailbox : Ptr
  pub next : Ptr
  pub state : MessageState
  pub ref_count : ℤ

-- enum mailbox_state
pub data MailboxState : Type 0 where
  mbox_alive mbox_dead : MailboxState

-- struct mailbox
pub record Mailbox : Type 0 where
  pub head : Ptr
  pub end : Ptr
  pub count : ℕ
  pub state : MailboxState
  pub task : Ptr
  pub last_message : Ptr

-- enum task_state
pub data TaskState : Type 0 where
  task_idle task_init task_waiting task_processing task_dead : TaskState

-- struct task; of its Lua state, the mailbox that `mailbox_get` finds in the registry.
pub record Task : Type 0 where
  pub mailbox : Ptr
  pub is_loaded : Bool
  pub state : TaskState

-- All of them, and the task queue of the one thread pool. An address that holds nothing is not
-- allocated; `contents` are the allocated `message_content_t`, and `heaps` tells whether the heap that the
-- one at an address points to, or the last one pointed to, is allocated.
pub record Store : Type 0 where
  pub messages : Ptr → Option Message
  pub mailboxes : Ptr → Option Mailbox
  pub tasks : Ptr → Option Task
  pub contents : Ptr → Bool
  pub heaps : Ptr → Bool
  pub task_queue : List Ptr

-- `none` is undefined behaviour: a read or write through NULL or through an address that is not
-- allocated.
abbrev pub Cmd : Type 0 → Type 0
Cmd A = Store → Option (A × Store)

abbrev pub pure : {A : Type 0} → A → Cmd A
pure a s = some (a, s)

abbrev pub and_then : {A B : Type 0} → Option (A × Store) → (A → Cmd B) → Option (B × Store)
and_then none f = none
and_then (some (a, s)) f = f a s

infixl 5 ◌>>=◌ ◌>>◌
abbrev pub ◌>>=◌ : {A B : Type 0} → Cmd A → (A → Cmd B) → Cmd B
◌>>=◌ m f s = and_then (m s) f

abbrev pub ◌>>◌ : {B : Type 0} → Cmd (Unit {0}) → Cmd B → Cmd B
m >> k = m >>= λ _. k

-- A write to a table of objects.
unfoldable pub update {ℓ} : {A : Type ℓ} → (Ptr → A) → Ptr → A → Ptr → A
update f p v q = if q == p then v else f q

abbrev pub found : {A : Type 0} → Ptr → Option A → Store → Option (A × Store)
found p none s = none
found p (some a) s = if p == null then none else some (a, s)

unfoldable pub load_message : Ptr → Cmd Message
load_message p s = found p (s.messages p) s

unfoldable pub load_mailbox : Ptr → Cmd Mailbox
load_mailbox p s = found p (s.mailboxes p) s

unfoldable pub load_task : Ptr → Cmd Task
load_task p s = found p (s.tasks p) s

abbrev pub put_message : Ptr → Option Message → Cmd (Unit {0})
put_message p m s = some (tt, record s { messages = update s.messages p m })

abbrev pub put_mailbox : Ptr → Option Mailbox → Cmd (Unit {0})
put_mailbox p b s = some (tt, record s { mailboxes = update s.mailboxes p b })

abbrev pub put_task : Ptr → Option Task → Cmd (Unit {0})
put_task p t s = some (tt, record s { tasks = update s.tasks p t })

-- `free` of a `message_content_t` and of its heap; a second one is a fault.
unfoldable pub free_content : Ptr → Cmd (Unit {0})
free_content p s =
    if s.contents p
    then some
        (tt, record s { contents = update s.contents p false; heaps = update s.heaps p false })
    else none

-- `free` of a `message_content_t` alone.
unfoldable pub free_struct : Ptr → Cmd (Unit {0})
free_struct p s =
    if s.contents p then some (tt, record s { contents = update s.contents p false }) else none
