-- ===== src/Blocks/Bindings/Tests.antt =====
-- A process with two messages, and one to which two messages are sent.
use blocks.Prelude.{
  Option, sym, ap, ◌∙◌, ◌≡◌, refl, ◌∷◌, true, false, [], some, none, arith, ◌==◌, if◌then◌else◌,
}
use blocks.Blocks.Store.{
  ◌>>◌, task_idle, Ptr, null, Message, Mailbox, mbox_alive, Store, task_waiting,
}
use blocks.Blocks.Mailbox.{new_message}
use blocks.Blocks.Mailbox.Chain.{nil, cons, has}
use blocks.Blocks.Mailbox.Queue.{Holds}
use blocks.Blocks.Process.{worker, worker_round}
use blocks.Blocks.Process.Drain.{Held}
use blocks.Blocks.Process.Reply.{Awaited}
use blocks.Blocks.Bindings.Ending.{Closed, worker_round-Closed}
use blocks.Blocks.Process.LateNotify.{Loaded}
use blocks.Blocks.Bindings.Sending.{Ready, Sending}
use blocks.Blocks.Bindings.Conversation.{AllNew, send_all, worker-send_all}
use blocks.Blocks.Bindings.Service.{AllAnswered, Sent, Served, outcomes, worker-Served}

abbrev content_of : Option Message → Ptr
content_of none = 0
content_of (some m) = m.content

-- A task at address 20 in the queue, with the messages at 5 and 6.
abbrev first_sent : Message
first_sent = record (new_message 11 10 40) { next = 6 }

abbrev then_sent : Message
then_sent = new_message 12 10 41

abbrev two_box : Mailbox
two_box = record {
  head = 5;
  end = 6;
  count = 2;
  state = mbox_alive;
  task = 20;
  last_message = null;
}

abbrev two_sent : Store
two_sent = record {
  messages = λ p. if p == 5 then some first_sent else if p == 6 then some then_sent else none;
  mailboxes = λ p. if p == 10 then some two_box else none;
  tasks = λ p.
      if p == 20
      then some (record { mailbox = 10; is_loaded = true; state = task_waiting })
      else none;
  contents = λ p. if p == 40 then true else p == 41;
  heaps = λ _. true;
  task_queue = 20 ∷ [];
}

two_sent-Holds : Holds two_sent 10 mbox_alive (5 ∷ 6 ∷ [])
unfolding new_message
two_sent-Holds = record {
  mailbox = two_box;
  ne_null = omega arith;
  at_box = refl;
  in_state = refl;
  chain = cons first_sent (omega arith) refl refl (cons then_sent (omega arith) refl refl nil);
  end = refl;
  count = refl;
}

first_sent-Awaited : Awaited two_sent 5 first_sent
unfolding new_message
first_sent-Awaited = record {
  ne_null = omega arith;
  at = refl;
  counted = refl;
  content_ne = omega arith;
  owned = refl;
}

two_sent-Sent : Sent two_sent (5 ∷ 6 ∷ [])
unfolding new_message
two_sent-Sent = (
  first_sent,
  first_sent-Awaited,
  λ q m i e same.
      let is_six : q ≡ 6 = ground (arith, i) in
      let content : m.content ≡ 41 = ap content_of (sym e ∙ ap two_sent.messages is_six) in
      omega (arith, content, same),
  (
    then_sent,
    record {
      ne_null = omega arith;
      at = refl;
      counted = refl;
      content_ne = omega arith;
      owned = refl;
    },
    λ q m i e same. cc,
    tt,
  ),
)

two_sent-Loaded : Loaded two_sent 20 10 task_waiting
two_sent-Loaded = record { ne_null = omega arith; at = refl }

-- The replies are the contents at 51 and 52.
worker-Served_example :
    (u : Store) × (worker 0 (outcomes (51 ∷ 52 ∷ [])) two_sent ≡ some (tt, u))
    × Served two_sent 20 10 mbox_alive (5 ∷ 6 ∷ []) (51 ∷ 52 ∷ []) u
worker-Served_example =
    worker-Served 0 20 10 5 mbox_alive (6 ∷ []) (51 ∷ 52 ∷ []) two_sent task_waiting refl
      two_sent-Loaded two_sent-Holds two_sent-Sent refl

two_sent-Held : (p : Ptr) → has p (6 ∷ []) ≡ true → Held two_sent p
unfolding new_message
two_sent-Held p i =
    let is_six : p ≡ 6 = ground (arith, i) in
    record { message = then_sent; at = ap two_sent.messages is_six; counted = refl }

-- The function ends with the reply at 51 and the values at 60.
worker_round-Closed_example :
    (u : Store) × (worker_round 2 20
        (record { do_continue = false; reply = 51; last = 60 })
        two_sent
      ≡ some (tt, u))
    × (u.tasks 20 ≡ none)
    × Closed 10 5 51 60 (5 ∷ 6 ∷ []) u
worker_round-Closed_example =
    worker_round-Closed 2 two_sent 20 10 5 51 60 task_waiting first_sent (6 ∷ []) two_sent-Loaded
      first_sent-Awaited two_sent-Holds two_sent-Held (omega arith)

-- The task is idle, and the two messages are still to be sent.
abbrev idle_box : Mailbox
idle_box = record two_box { head = null; end = null; count = 0 }

abbrev none_sent : Store
none_sent = record two_sent {
  messages = λ _. none;
  mailboxes = λ p. if p == 10 then some idle_box else none;
  tasks = λ p.
      if p == 20 then some (record { mailbox = 10; is_loaded = true; state = task_idle }) else none;
  task_queue = [];
}

none_sent-Ready : Ready none_sent 20 10 []
none_sent-Ready = record {
  loaded = record { ne_null = omega arith; at = refl };
  holds = record {
    mailbox = idle_box;
    ne_null = omega arith;
    at_box = refl;
    in_state = refl;
    chain = nil;
    end = tt;
    count = refl;
  };
  task = refl;
  queue = refl;
  sent = tt;
}

abbrev first_sending : Sending
first_sending = record { sender = 11; content = 40; fresh = 5 }

abbrev then_sending : Sending
then_sending = record { sender = 12; content = 41; fresh = 6 }

sendings-AllNew : AllNew none_sent [] (first_sending ∷ then_sending ∷ [])
sendings-AllNew = (
  record {
    fresh_ne = omega arith;
    free = refl;
    content_ne = omega arith;
    owned = refl;
    apart = λ q m i e same. cc;
  },
  (omega arith, omega arith, tt),
  (
    record {
      fresh_ne = omega arith;
      free = refl;
      content_ne = omega arith;
      owned = refl;
      apart = λ q m i e same. cc;
    },
    tt,
    tt,
  ),
)

worker-send_all_example :
    (u : Store) × ((do
      send_all 10 (first_sending ∷ then_sending ∷ [])
      worker 0 (outcomes (51 ∷ 52 ∷ [])))
        none_sent
      ≡ some (tt, u))
    × Loaded u 20 10 task_idle
    × Holds u 10 mbox_alive []
    × (u.task_queue ≡ [])
    × AllAnswered u (5 ∷ 6 ∷ []) (51 ∷ 52 ∷ [])
worker-send_all_example =
    worker-send_all 0 none_sent 20 10 first_sending (then_sending ∷ []) (51 ∷ 52 ∷ [])
      none_sent-Ready sendings-AllNew refl
