-- ===== src/Blocks/Mailbox/Lifecycle.antt =====
-- A message from `mailbox_send` to its last `mailbox_message_destroy`: the sender and the recipient
-- each hold one reference, and drop it in any order.
use blocks.Prelude.{
  ◌≡◌, refl, ap, ◌∙◌, ◌≢◌, ◌⊎◌, inl, inr, Bool, true, false, ◌&&◌, none, some, arith, ◌==◌, ne→==,
  Bool-cases, if◌then◌else◌,
}
use blocks.Prelude.Int.{ℤ, pos, pred, is_nonpos}
use blocks.Blocks.Store.{
  Ptr, null, Message, msg_ready, msg_dead, Store, Cmd, update, load_message, free_content,
}
use blocks.Blocks.Mailbox.Chain.{update_self}
use blocks.Blocks.Mailbox.{
  is_answered, lua_message_content_destroy, mailbox_message_reply, mailbox_message_destroy,
  mailbox_message_content_destroy, mailbox_message_content_set,
}

-- What the two sides do: the recipient takes the content, sets another, replies (with `true` when
-- its task dies) and drops its reference; the sender drops its own.
pub data Event : Type 0 where
  takes : Event
  sets : Ptr → Event
  replies : Bool → Event
  receiver_drops : Event
  sender_drops : Event

pub record Phase : Type 0 where
  pub answered : Bool
  pub receiver_done : Bool
  pub sender_done : Bool

unfoldable pub run_event : Ptr → Event → Cmd (Unit {0})
run_event p takes = mailbox_message_content_destroy p
run_event p (sets content) = mailbox_message_content_set p content
run_event p (replies is_dead) = mailbox_message_reply p is_dead
run_event p receiver_drops = mailbox_message_destroy p
run_event p sender_drops = mailbox_message_destroy p

unfoldable pub phase_after : Event → Phase → Phase
phase_after takes ph = ph
phase_after (sets content) ph = ph
phase_after (replies is_dead) ph = record ph { answered = true }
phase_after receiver_drops ph = record ph { receiver_done = true }
phase_after sender_drops ph = record ph { sender_done = true }

-- The order that the code keeps: the recipient works on the message, and replies, before it drops its
-- reference; the sender drops its reference once, at any time.
pub data Allowed (s : Store) (p : Ptr) : Phase → Event → Type 0 where
  may_take :
      (sd : Bool)
      → Allowed s p (record { answered = false; receiver_done = false; sender_done = sd }) takes
  may_set :
      (sd : Bool) (content : Ptr)
      → s.contents content ≡ true
      → Allowed s p
          (record { answered = false; receiver_done = false; sender_done = sd })
          (sets content)
  may_reply :
      (sd is_dead : Bool)
      → Allowed s p
          (record { answered = false; receiver_done = false; sender_done = sd })
          (replies is_dead)
  may_receiver_drop :
      (sd : Bool)
      → Allowed s p
          (record { answered = true; receiver_done = false; sender_done = sd })
          receiver_drops
  may_sender_drop :
      (a rd : Bool)
      → Allowed s p (record { answered = a; receiver_done = rd; sender_done = false }) sender_drops

abbrev references : Bool → Bool → ℤ
references false false = pos 2
references false true = pos 1
references true false = pos 1
references true true = pos 0

-- The message is allocated, counts the references that are not dropped, and its content is allocated.
pub record Allocated (s : Store) (p : Ptr) (ph : Phase) : Type 0 where
  pub message : Message
  pub at : s.messages p ≡ some message
  pub counted : message.ref_count ≡ references ph.receiver_done ph.sender_done
  pub state : is_answered message.state ≡ ph.answered
  pub content : (message.content ≡ null) ⊎ (s.contents message.content ≡ true)
  pub order : ph.receiver_done ≡ true → ph.answered ≡ true
  pub held : (ph.receiver_done && ph.sender_done) ≡ false

-- It is freed once both are dropped.
pub record Freed (s : Store) (p : Ptr) (ph : Phase) : Type 0 where
  pub gone : s.messages p ≡ none
  pub both : (ph.receiver_done && ph.sender_done) ≡ true

abbrev pub Life : Store → Ptr → Phase → Type 0
Life s p ph = Allocated s p ph ⊎ Freed s p ph

answered_reply : (b : Bool) → is_answered (if b then msg_dead else msg_ready) ≡ true
unfolding is_answered
answered_reply true = refl
answered_reply false = refl

module _ (s : Store) (p : Ptr) (ne : p ≢ null) where
  load : (m : Message) → s.messages p ≡ some m → load_message p s ≡ some (m, s)
  unfolding load_message
  load m e = ground arith

  -- The content of a live message can be freed.
  content_freed :
      (c : Ptr)
      → (c ≡ null) ⊎ (s.contents c ≡ true)
      → (g h : Ptr → Bool) × (lua_message_content_destroy c s
          ≡ some (tt, record s { contents = g; heaps = h }))
  unfolding lua_message_content_destroy
  content_freed c (inl e) = (s.contents, s.heaps, rw e)
  content_freed c (inr h) = elim (Bool-cases (c == null)) [
    | inl e ↦ (s.contents, s.heaps, rw e)
    | inr e ↦ (update s.contents c false, update s.heaps c false, unfold free_content in rw (e, h))
  ]

  -- One reference less, and others are left.
  drop_kept :
      (m : Message)
      → s.messages p ≡ some m
      → is_nonpos (pred m.ref_count) ≡ false
      → mailbox_message_destroy p s
        ≡ some (
          tt,
          record s {
            messages = update s.messages p (some (record m { ref_count = pred m.ref_count }));
          },
        )
  unfolding mailbox_message_destroy
  drop_kept m e k = rw (load m e, k)

  -- The last reference.
  drop_freed :
      (m : Message)
      → s.messages p ≡ some m
      → (m.content ≡ null) ⊎ (s.contents m.content ≡ true)
      → is_nonpos (pred m.ref_count) ≡ true
      → is_answered m.state ≡ true
      → (s' : Store) × (mailbox_message_destroy p s ≡ some (tt, s')) × (s'.messages p ≡ none)
  unfolding mailbox_message_destroy
  drop_freed m e c k a =
      let (g, h, freed) = content_freed m.content c in
      (
        record s { messages = update s.messages p none; contents = g; heaps = h },
        rw (load m e, k, a, freed),
        update_self s.messages p none,
      )

  -- The message after a write.
  abbrev written : Message → (Ptr → Bool) → (Ptr → Bool) → Store
  written m g h = record s { messages = update s.messages p (some m); contents = g; heaps = h }

  at_written : (m : Message) (g h : Ptr → Bool) → (written m g h).messages p ≡ some m
  at_written m g h = update_self s.messages p (some m)

  drop_kept-Allocated :
      (ph : Phase) (rd sd : Bool)
      → (l : Allocated s p ph)
      → is_nonpos (pred (references ph.receiver_done ph.sender_done)) ≡ false
      → pred (references ph.receiver_done ph.sender_done) ≡ references rd sd
      → (rd ≡ true → ph.answered ≡ true)
      → (rd && sd) ≡ false
      → (s' : Store) × (mailbox_message_destroy p s ≡ some (tt, s'))
        × Allocated s' p (record { answered = ph.answered; receiver_done = rd; sender_done = sd })
  drop_kept-Allocated ph rd sd l k c o held =
      let m' : Message = record l.message { ref_count = pred l.message.ref_count } in
      (
        written m' s.contents s.heaps,
        drop_kept l.message l.at (rw l.counted k),
        record {
          message = m';
          at = at_written m' s.contents s.heaps;
          counted = ap pred l.counted ∙ c;
          state = l.state;
          content = l.content;
          order = o;
          held = held;
        },
      )

  abbrev Goes : Event → Phase → Type 0
  Goes e ph = (s' : Store) × (run_event p e s ≡ some (tt, s')) × Life s' p (phase_after e ph)

  run_event-Allocated : (e : Event) (ph : Phase) → Allowed s p ph e → Allocated s p ph → Goes e ph
  unfolding run_event phase_after
  run_event-Allocated e ph (may_take sd) l =
      let (g, h, freed) = content_freed l.message.content l.content in
      let m' : Message = record l.message { content = null } in
      (
        written m' g h,
        unfold mailbox_message_content_destroy load_message in
            rw (load l.message l.at, freed, l.at, ne→== p null ne),
        inl (record {
          message = m';
          at = at_written m' g h;
          counted = l.counted;
          state = l.state;
          content = inl refl;
          order = l.order;
          held = l.held;
        }),
      )
  run_event-Allocated e ph (may_set sd content ok) l =
      let m' : Message = record l.message { content = content } in
      (
        written m' s.contents s.heaps,
        unfold mailbox_message_content_set in rw (load l.message l.at),
        inl (record {
          message = m';
          at = at_written m' s.contents s.heaps;
          counted = l.counted;
          state = l.state;
          content = inr ok;
          order = l.order;
          held = l.held;
        }),
      )
  run_event-Allocated e ph (may_reply sd is_dead) l =
      let m' : Message = record l.message { state = if is_dead then msg_dead else msg_ready } in
      (
        written m' s.contents s.heaps,
        unfold mailbox_message_reply in rw (load l.message l.at),
        inl (record {
          message = m';
          at = at_written m' s.contents s.heaps;
          counted = l.counted;
          state = answered_reply is_dead;
          content = l.content;
          order = λ _. refl;
          held = l.held;
        }),
      )
  run_event-Allocated e ph (may_receiver_drop false) l =
      let (s', run, l') = drop_kept-Allocated ph true false l refl refl (λ _. refl) refl in
      (s', run, inl l')
  run_event-Allocated e ph (may_receiver_drop true) l =
      let (s', run, gone) = drop_freed l.message l.at l.content (rw l.counted) l.state in
      (s', run, inr (record { gone = gone; both = refl }))
  run_event-Allocated e ph (may_sender_drop a false) l =
      let (s', run, l') = drop_kept-Allocated ph false true l refl refl (λ e. cc) refl in
      (s', run, inl l')
  run_event-Allocated e ph (may_sender_drop a true) l =
      let (s', run, gone) =
        drop_freed l.message l.at l.content (rw l.counted) (l.state ∙ l.order refl) in
      (s', run, inr (record { gone = gone; both = refl }))

  -- What the protocol allows never touches a freed message: it was freed by both.
  not-Allowed_of_Freed : (e : Event) (ph : Phase) → Allowed s p ph e → ¬ Freed s p ph
  not-Allowed_of_Freed e ph (may_take sd) f = cc f.both
  not-Allowed_of_Freed e ph (may_set sd content ok) f = cc f.both
  not-Allowed_of_Freed e ph (may_reply sd is_dead) f = cc f.both
  not-Allowed_of_Freed e ph (may_receiver_drop sd) f = cc f.both
  not-Allowed_of_Freed e ph (may_sender_drop a true) f = cc f.both
  not-Allowed_of_Freed e ph (may_sender_drop a false) f = cc f.both

  -- Every allowed call runs: no read or write of a freed message, no second `free` of a content.
  pub run_event-Life : (e : Event) (ph : Phase) → Allowed s p ph e → Life s p ph → Goes e ph
  run_event-Life e ph a (inl l) = run_event-Allocated e ph a l
  run_event-Life e ph a (inr f) = absurd (not-Allowed_of_Freed e ph a f)
