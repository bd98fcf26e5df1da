-- ===== src/Blocks/Mailbox/Tests.antt =====
-- A mailbox at address 10, and the theorems about it.
use blocks.Prelude.{
  ◌≡◌, refl, ◌↔◌, inl, true, false, [], ◌∷◌, none, some, arith, ◌==◌, if◌then◌else◌,
}
use blocks.Blocks.Store.{
  null, msg_ready, Mailbox, mbox_alive, Store, update, load_message, load_mailbox,
}
use blocks.Blocks.Mailbox.{new_message, post, enqueue, mailbox_receive, mailbox_message_reply}
use blocks.Blocks.Mailbox.Chain.{nil}
use blocks.Blocks.Mailbox.Queue.{Holds}
use blocks.Blocks.Mailbox.History.{
  posts, receives, Trace, done, step, run_call, queue_results, queue_end, Trace-queue,
}
use blocks.Blocks.Mailbox.Lifecycle.{
  replies, run_event, phase_after, may_reply, may_sender_drop, sender_drops,
}
use blocks.Blocks.Mailbox.FreedOnce as Once
use blocks.Blocks.Mailbox.FreedOnce.{History, event, sent, History-freed, History-progress}

abbrev empty_box : Mailbox
empty_box = record {
  head = null;
  end = null;
  count = 0;
  state = mbox_alive;
  task = 20;
  last_message = null;
}

abbrev store : Store
store = record {
  messages = λ _. none;
  mailboxes = λ p. if p == 10 then some empty_box else none;
  tasks = λ _. none;
  contents = λ _. false;
  heaps = λ _. true;
  task_queue = [];
}

store-Holds : Holds store 10 mbox_alive []
store-Holds = record {
  mailbox = empty_box;
  ne_null = omega arith;
  at_box = refl;
  in_state = refl;
  chain = nil;
  end = tt;
  count = refl;
}

abbrev posted : Store
posted = record store {
  messages = update store.messages 5 (some (new_message 11 10 0));
  mailboxes = update store.mailboxes 10 (some (record empty_box { head = 5; end = 5; count = 1 }));
}

abbrev received : Store
received = record posted {
  mailboxes = update posted.mailboxes 10 (some (record empty_box { head = 0; end = 5; count = 0 }));
}

one_message : Trace 10 store (posts 11 0 5 ∷ receives ∷ []) (5 ∷ 5 ∷ []) received
unfolding run_call post enqueue mailbox_receive load_message load_mailbox update new_message
one_message = step (posts 11 0 5) 5 (omega arith, refl) refl (step receives 5 tt refl done)

Trace-queue_example :
    (5 ∷ 5 ∷ [] ≡ queue_results (posts 11 0 5 ∷ receives ∷ []) [])
    × Holds received 10 mbox_alive (queue_end (posts 11 0 5 ∷ receives ∷ []) [])
Trace-queue_example = Trace-queue one_message [] store-Holds

abbrev replied : Store
replied = record posted {
  messages = update posted.messages 5 (some (record (new_message 11 10 0) { state = msg_ready }));
}

one_reply : History 5 posted sent replied (record sent { answered = true })
unfolding run_event phase_after mailbox_message_reply load_message update new_message
one_reply = event (replies false) (may_reply false false) refl Once.done

History-freed_example : (replied.messages 5 ≡ none) ↔ (false ≡ true)
unfolding update
History-freed_example = History-freed 5 11 10 0 (omega arith) refl (inl refl) one_reply

History-progress_example : (v : Store) × (run_event 5 sender_drops replied ≡ some (tt, v))
unfolding update
History-progress_example =
    History-progress 5 11 10 0 sender_drops (omega arith) refl (inl refl) one_reply
      (may_sender_drop true false)
