-- ===== src/Blocks/Process/Reply.antt =====
-- process.c: how a worker takes a message, and answers it.
use blocks.Prelude.{◌≡◌, ◌∙◌, ◌≢◌, true, false, some, ne→==}
use blocks.Prelude.Int.{pos}
use blocks.Blocks.Store.{Ptr, null, Message, msg_ready, Store, update, free_content}
use blocks.Blocks.Mailbox.{
  lua_message_content_destroy, mailbox_message_content_destroy, mailbox_message_content_set,
  mailbox_message_reply, mailbox_message_destroy,
}
use blocks.Blocks.Mailbox.Chain.{update_self, update_other}
use blocks.Blocks.Mailbox.Queue.{load_message-some}
use blocks.Blocks.Process.{give_reply}

abbrev pub with_message : Store → Ptr → Message → Store
with_message s p m = record s { messages = update s.messages p (some m) }

-- The store behind the destruction of a content.
abbrev pub without_content : Store → Ptr → Store
without_content s c = record s {
  contents = update s.contents c false;
  heaps = update s.heaps c false;
}

-- The message at `p`, of which the sender awaits the answer, with a content that is allocated.
pub record Awaited (s : Store) (p : Ptr) (m : Message) : Type 0 where
  pub ne_null : p ≢ null
  pub at : s.messages p ≡ some m
  pub counted : m.ref_count ≡ pos 2
  pub content_ne : m.content ≢ null
  pub owned : s.contents m.content ≡ true

module _ (p : Ptr) (ne : p ≢ null) (s : Store) (m : Message) (at : s.messages p ≡ some m) where
  set_content :
      (c : Ptr)
      → mailbox_message_content_set p c s ≡ some (tt, with_message s p (record m { content = c }))
  unfolding mailbox_message_content_set
  set_content c = rw (load_message-some s p m ne at)

  reply_ready :
      mailbox_message_reply p false s ≡ some (tt, with_message s p (record m { state = msg_ready }))
  unfolding mailbox_message_reply
  reply_ready = rw (load_message-some s p m ne at)

  drop_ready :
      m.ref_count ≡ pos 2
      → mailbox_message_destroy p s ≡ some (tt, with_message s p (record m { ref_count = pos 1 }))
  unfolding mailbox_message_destroy
  drop_ready e = rw (load_message-some s p m ne at, e)

  pub destroy_content :
      m.content ≢ null
      → s.contents m.content ≡ true
      → mailbox_message_content_destroy p s
        ≡ some (tt, with_message (without_content s m.content) p (record m { content = null }))
  unfolding mailbox_message_content_destroy lua_message_content_destroy free_content
  destroy_content content_ne owned =
      let again = load_message-some (without_content s m.content) p m ne at in
      rw (load_message-some s p m ne at, ne→== m.content null content_ne, owned, again)

-- The message when it is answered.
abbrev pub replied : Message → Ptr → Message
replied m reply = record m { content = reply; state = msg_ready; ref_count = pos 1 }

-- `give_reply` on a message with two references.
module _ (p : Ptr) (ne : p ≢ null) (s : Store) (m : Message) (at : s.messages p ≡ some m)
    (counted : m.ref_count ≡ pos 2) (reply : Ptr) where
  abbrev pub store1 : Store
  store1 = with_message s p (record m { content = reply })

  abbrev pub store2 : Store
  store2 = with_message store1 p (record m { content = reply; state = msg_ready })

  abbrev pub answered : Store
  answered = with_message store2 p (replied m reply)

  pub give_reply-answered : give_reply p reply s ≡ some (tt, answered)
  unfolding give_reply
  give_reply-answered =
      let e1 = set_content p ne s m at reply in
      let at1 = update_self s.messages p (some (record m { content = reply })) in
      let e2 = reply_ready p ne store1 (record m { content = reply }) at1 in
      let at2 =
        update_self store1.messages p (some (record m { content = reply; state = msg_ready })) in
      let e3 =
        drop_ready p ne store2 (record m { content = reply; state = msg_ready }) at2 counted in
      rw (e1, e2, ne→== p null ne, e3)

  pub answered_other : (a : Ptr) → a ≢ p → answered.messages a ≡ s.messages a
  answered_other a other =
      update_other store2.messages p a (some (replied m reply)) other
      ∙ update_other store1.messages p a (some (record m { content = reply; state = msg_ready }))
          other
      ∙ update_other s.messages p a (some (record m { content = reply })) other

  pub answered_self : answered.messages p ≡ some (replied m reply)
  answered_self = update_self store2.messages p (some (replied m reply))
