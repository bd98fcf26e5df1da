-- ===== src/Blocks/Mailbox.antt =====
-- src/blocks/mailbox.c. Each command is one critical section, or the code between two of them.
pub mod Chain
pub mod Queue
pub mod Posted
pub mod History
pub mod Lifecycle
pub mod FreedOnce
mod Tests
use blocks.Prelude.{
  ℕ, ◌+◌, ◌-◌, ◌%◌, ◌^◌, Bool, true, false, ◌&&◌, ◌||◌, Option, none, some, ◌==◌, if◌then◌else◌,
}
use blocks.Prelude.Int.{ℤ, pos, pred, is_nonpos}
use blocks.Blocks.Store.{
  Ptr, null, Message, MessageState, msg_waiting, msg_processing, msg_ready, msg_dead, Mailbox,
  MailboxState, mbox_alive, mbox_dead, Task, Store, Cmd, pure, ◌>>=◌, ◌>>◌, load_message,
  load_mailbox, put_message, put_mailbox, free_content, free_struct,
}

-- `fresh` is what `malloc` returns; the registry of the Lua state is the `mailbox` of its task.
unfoldable pub mailbox_init : Ptr → Cmd Ptr
mailbox_init fresh = do
  put_mailbox fresh (
      some (record {
        head = null;
        end = null;
        count = 0;
        state = mbox_alive;
        task = null;
        last_message = null;
      }))
  pure fresh

unfoldable pub is_alive : MailboxState → Bool
is_alive mbox_alive = true
is_alive mbox_dead = false

unfoldable pub mailbox_isactive : Ptr → Cmd Bool
mailbox_isactive mailbox = do b ← load_mailbox mailbox; pure (is_alive b.state)

unfoldable pub mailbox_set_last_message : Ptr → Ptr → Cmd (Unit {0})
mailbox_set_last_message mailbox message = do
  b ← load_mailbox mailbox
  put_mailbox mailbox (some (record b { last_message = message }))

unfoldable pub mailbox_get_last_message : Ptr → Cmd Ptr
mailbox_get_last_message mailbox = do b ← load_mailbox mailbox; pure b.last_message

unfoldable pub mailbox_set_task : Ptr → Ptr → Cmd (Unit {0})
mailbox_set_task mailbox task = do
  b ← load_mailbox mailbox
  put_mailbox mailbox (some (record b { task = task }))

-- The first call marks the mailbox dead, and the second frees it. `last_message` is freed alone, not
-- the heap that it points to.
unfoldable pub mailbox_destroy : Ptr → Cmd (Unit {0})
unfolding is_alive
mailbox_destroy mailbox = do
  b ← load_mailbox mailbox
  if is_alive b.state then put_mailbox mailbox (some (record b { state = mbox_dead })) else (do
    if b.last_message == null then pure tt else free_struct b.last_message
    put_mailbox mailbox none)

-- The `malloc` and the fields of `mailbox_send`.
unfoldable pub new_message : Ptr → Ptr → Ptr → Message
new_message sender recipient content = record {
  content = content;
  sender = sender;
  mailbox = recipient;
  next = null;
  state = msg_waiting;
  ref_count = pos 2;
}

-- The critical section of `mailbox_send`. `count` is an `unsigned int`.
unfoldable pub enqueue : Ptr → Ptr → Cmd (Unit {0})
enqueue rcpt msg = do
  b ← load_mailbox rcpt
  if b.head == null
      then put_mailbox rcpt
          (some (record b { head = msg; end = msg; count = (b.count + 1) % 2 ^ 32 }))
      else (do
        last ← load_message b.end
        put_message b.end (some (record last { next = msg }))
        put_mailbox rcpt (some (record b { end = msg; count = (b.count + 1) % 2 ^ 32 })))

-- `mailbox_send` up to `process_notify_task`: NULL if the mailbox is dead, else the new message at
-- the address `fresh` that `malloc` returns. The warning about a long queue is output only.
unfoldable pub post : Ptr → Ptr → Ptr → Ptr → Cmd Ptr
unfolding is_alive new_message
post sender recipient content fresh = do
  b ← load_mailbox recipient
  if is_alive b.state
      then (do
        put_message fresh (some (new_message sender recipient content))
        enqueue recipient fresh
        pure fresh)
      else pure null

unfoldable pub mailbox_receive : Ptr → Cmd Ptr
mailbox_receive mailbox = do
  b ← load_mailbox mailbox
  if b.head == null then pure null else (do
    msg ← load_message b.head
    put_mailbox mailbox
        (some (record b { head = msg.next; count = (b.count + 2 ^ 32 - 1) % 2 ^ 32 }))
    pure b.head)

unfoldable pub mailbox_peek : Ptr → Cmd Ptr
mailbox_peek mailbox = do b ← load_mailbox mailbox; pure b.head

unfoldable pub mailbox_message_reply : Ptr → Bool → Cmd (Unit {0})
mailbox_message_reply message is_dead = do
  m ← load_message message
  put_message message (some (record m { state = if is_dead then msg_dead else msg_ready }))

-- `state == MSG_READY || state == MSG_DEAD`
unfoldable pub is_answered : MessageState → Bool
is_answered msg_waiting = false
is_answered msg_processing = false
is_answered msg_ready = true
is_answered msg_dead = true

-- `mailbox_wait_for_reply` returns in the states in which its loop test fails; in the others it
-- waits, which is the result `false`.
unfoldable pub mailbox_wait_for_reply : Ptr → Cmd Bool
unfolding is_answered
mailbox_wait_for_reply message = do m ← load_message message; pure (is_answered m.state)

-- `lua_message_content_destroy`
unfoldable pub lua_message_content_destroy : Ptr → Cmd (Unit {0})
unfolding free_content
lua_message_content_destroy content = if content == null then pure tt else free_content content

unfoldable pub mailbox_message_destroy : Ptr → Cmd (Unit {0})
unfolding is_answered lua_message_content_destroy
mailbox_message_destroy message = do
  m ← load_message message
  if is_nonpos (pred m.ref_count) && is_answered m.state
      then (do lua_message_content_destroy m.content; put_message message none)
      else put_message message (some (record m { ref_count = pred m.ref_count }))

unfoldable pub mailbox_message_content_destroy : Ptr → Cmd (Unit {0})
unfolding lua_message_content_destroy
mailbox_message_content_destroy message = do
  m ← load_message message
  lua_message_content_destroy m.content
  m' ← load_message message
  put_message message (some (record m' { content = null }))

unfoldable pub mailbox_message_content_set : Ptr → Ptr → Cmd (Unit {0})
mailbox_message_content_set message content = do
  m ← load_message message
  put_message message (some (record m { content = content }))

unfoldable pub mailbox_message_get_content : Ptr → Cmd Ptr
mailbox_message_get_content message = do m ← load_message message; pure m.content
