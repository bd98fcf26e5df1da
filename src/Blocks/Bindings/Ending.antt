-- ===== src/Blocks/Bindings/Ending.antt =====
-- process.c and blocks.c: what a process that has ended is to the others.
use blocks.Prelude.{ne→==, ℕ, ◌<◌, ◌≡◌, ◌≢◌, true, false, List, [], ◌∷◌, none, some, length}
use blocks.Blocks.Store.{
  Ptr, null, Message, mbox_alive, mbox_dead, Store, update, free_struct, TaskState,
}
use blocks.Blocks.Mailbox.{
  is_alive, mailbox_destroy, mailbox_isactive, mailbox_get_last_message, mailbox_wait_for_reply,
}
use blocks.Blocks.Mailbox.Chain.{has, update_self}
use blocks.Blocks.Mailbox.Queue.{Holds, load_mailbox-some}
use blocks.Blocks.Process.{worker_round}
use blocks.Blocks.Process.Drain.{Held}
use blocks.Blocks.Process.LateNotify.{Loaded}
use blocks.Blocks.Process.Reply.{Awaited}
use blocks.Blocks.Process.Ended.{worker_round-Ended}
use blocks.Blocks.Bindings.{
  l_message_send, l_mailbox_ref_destroy, l_mailbox_state, l_mailbox_message_get,
}
use blocks.Blocks.Bindings.Send.{l_message_send-dead}
use blocks.Blocks.Bindings.Service.{get-replied}

-- The sender of `p` has its reply, those of `ps` need not wait, and the mailbox tells that the process has
-- ended and what it has left, and takes no message.
pub record Closed (box p reply last : Ptr) (ps : List Ptr) (u : Store) : Type 0 where
  pub get : l_mailbox_message_get p u ≡ some (some reply, u)
  pub answered : (q : Ptr) → has q ps ≡ true → mailbox_wait_for_reply q u ≡ some (true, u)
  pub state : l_mailbox_state box u ≡ some (some last, u)
  pub refuses :
      (sender content fresh : Ptr)
      → content ≢ null
      → u.contents content ≡ true
      → l_message_send sender box content fresh u
        ≡ some (
          none,
          record u {
            contents = update u.contents content false;
            heaps = update u.heaps content false;
          },
        )
  pub collects :
      last ≢ null
      → u.contents last ≡ true
      → u.heaps last ≡ true
      → (v : Store) × (l_mailbox_ref_destroy box u ≡ some (tt, v))
        × (v.mailboxes box ≡ none)
        × (v.contents last ≡ false)
        × (v.heaps last ≡ true)

-- The mailbox is freed when its reference is collected, and of the contents that it has the struct alone.
l_mailbox_ref_destroy-dead :
    (u : Store) (box last : Ptr) (h : Holds u box mbox_dead [])
    → h.mailbox.last_message ≡ last
    → last ≢ null
    → u.contents last ≡ true
    → l_mailbox_ref_destroy box u
      ≡ some (
        tt,
        record u {
          mailboxes = update u.mailboxes box none;
          contents = update u.contents last false;
        },
      )
unfolding l_mailbox_ref_destroy mailbox_destroy free_struct
l_mailbox_ref_destroy-dead u box last h e ne owned =
    rw (load_mailbox-some u box h.mailbox h.ne_null h.at_box, h.in_state)
      (unfold is_alive in rw (e, ne→== last null ne, owned))

l_mailbox_state-dead :
    (u : Store) (box : Ptr) (h : Holds u box mbox_dead [])
    → l_mailbox_state box u ≡ some (some h.mailbox.last_message, u)
unfolding l_mailbox_state mailbox_isactive mailbox_get_last_message
l_mailbox_state-dead u box h =
    let load = load_mailbox-some u box h.mailbox h.ne_null h.at_box in
    rw (load, h.in_state) (unfold is_alive in rw load)

-- If the function of a loaded task leaves no function, and the task's mailbox is alive and has messages that are
-- still referred to by their senders, the oldest awaited and with a content, the round ends on fuel above the number
-- of the others: the task is freed, the oldest message has the reply and no sender waits any longer; the mailbox
-- tells from then on that the process has ended, with the contents that it left, and refuses every message that has
-- an allocated content; and when its reference is collected then, it is freed, and of the contents that it left, if
-- these are allocated, the struct is freed and the heap stays allocated.
pub worker_round-Closed :
    (fuel : ℕ) (s : Store) (t box p reply last : Ptr) (st : TaskState) (m : Message) (ps : List Ptr)
    → Loaded s t box st
    → Awaited s p m
    → Holds s box mbox_alive (p ∷ ps)
    → ((q : Ptr) → has q ps ≡ true → Held s q)
    → length ps < fuel
    → (u : Store) × (worker_round fuel t
          (record { do_continue = false; reply = reply; last = last })
          s
        ≡ some (tt, u))
      × (u.tasks t ≡ none)
      × Closed box p reply last (p ∷ ps) u
worker_round-Closed fuel s t box p reply last st m ps l a h held lt =
    let (u, e, d, at) = worker_round-Ended fuel s t box p reply last st m ps l a h held lt in
    (
      u,
      e,
      d.gone,
      record {
        get = get-replied u p reply m a.ne_null at;
        answered = d.answered;
        state = rw (l_mailbox_state-dead u box d.dead, d.keeps_last);
        collects = λ ne owned heap. (
          record u {
            mailboxes = update u.mailboxes box none;
            contents = update u.contents last false;
          },
          l_mailbox_ref_destroy-dead u box last d.dead d.keeps_last ne owned,
          update_self u.mailboxes box none,
          update_self u.contents last false,
          heap,
        );
        refuses = λ sender content fresh ne owned.
            l_message_send-dead u sender box content fresh [] d.dead ne owned;
      },
    )
