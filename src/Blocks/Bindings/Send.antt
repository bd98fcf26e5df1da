-- ===== src/Blocks/Bindings/Send.antt =====
-- A message that is sent to a dead mailbox, and one that is answered.
use blocks.Prelude.{◌≡◌, refl, ◌≢◌, Bool, true, false, List, none, some, ne→==, if◌then◌else◌}
use blocks.Blocks.Store.{
  Ptr, null, mbox_dead, Store, Cmd, ◌>>◌, Message, msg_dead, msg_ready, update, free_content,
}
use blocks.Blocks.Mailbox.{
  is_alive, is_answered, post, lua_message_content_destroy, mailbox_message_content_set,
  mailbox_message_reply, mailbox_wait_for_reply, mailbox_message_get_content,
}
use blocks.Blocks.Mailbox.Chain.{update_self}
use blocks.Blocks.Mailbox.Queue.{Holds, load_mailbox-some, load_message-some}
use blocks.Blocks.Process.{mailbox_send}
use blocks.Blocks.Bindings.{l_message_send, l_mailbox_message_get}

post-dead :
    (s : Store) (sender box content fresh : Ptr) (ps : List Ptr)
    → Holds s box mbox_dead ps
    → post sender box content fresh s ≡ some (null, s)
unfolding post
post-dead s sender box content fresh ps h =
    rw (load_mailbox-some s box h.mailbox h.ne_null h.at_box, h.in_state) (unfold is_alive in refl)

mailbox_send-dead :
    (s : Store) (sender box content fresh : Ptr) (ps : List Ptr)
    → Holds s box mbox_dead ps
    → mailbox_send sender box content fresh s ≡ some (null, s)
unfolding mailbox_send
mailbox_send-dead s sender box content fresh ps h = rw (post-dead s sender box content fresh ps h)

-- A message that is sent to a dead mailbox is refused with `false`; its content is freed, once, and nothing
-- else is changed.
pub l_message_send-dead :
    (s : Store) (sender box content fresh : Ptr) (ps : List Ptr)
    → Holds s box mbox_dead ps
    → content ≢ null
    → s.contents content ≡ true
    → l_message_send sender box content fresh s
      ≡ some (
        none,
        record s {
          contents = update s.contents content false;
          heaps = update s.heaps content false;
        },
      )
unfolding l_message_send lua_message_content_destroy free_content
l_message_send-dead s sender box content fresh ps h ne owned =
    rw (mailbox_send-dead s sender box content fresh ps h, ne→== content null ne, owned)

answered : (is_dead : Bool) → is_answered (if is_dead then msg_dead else msg_ready) ≡ true
unfolding is_answered
answered true = refl
answered false = refl

-- How a worker answers a message: `mailbox_message_content_set`, then `mailbox_message_reply`.
abbrev answer : Ptr → Ptr → Bool → Cmd (Unit {0})
answer p content is_dead = mailbox_message_content_set p content >> mailbox_message_reply p is_dead

-- Once a message that is allocated has been answered, `get` does not wait, and returns the values of the
-- content that the answer has, also if the answer says that the process is dead.
l_mailbox_message_get-answer :
    (s : Store) (p content : Ptr) (is_dead : Bool) (m : Message)
    → p ≢ null
    → s.messages p ≡ some m
    → (t : Store) × (answer p content is_dead s ≡ some (tt, t))
      × (l_mailbox_message_get p t ≡ some (some content, t))
unfolding mailbox_message_content_set mailbox_message_reply l_mailbox_message_get
    mailbox_wait_for_reply mailbox_message_get_content
l_mailbox_message_get-answer s p content is_dead m ne at =
    let m1 : Message = record m { content = content } in
    let s1 : Store = record s { messages = update s.messages p (some m1) } in
    let m2 : Message = record m1 { state = if is_dead then msg_dead else msg_ready } in
    let t : Store = record s1 { messages = update s1.messages p (some m2) } in
    let load1 = load_message-some s1 p m1 ne (update_self s.messages p (some m1)) in
    let load2 = load_message-some t p m2 ne (update_self s1.messages p (some m2)) in
    (t, rw (load_message-some s p m ne at, load1), rw (load2, answered is_dead, load2))
