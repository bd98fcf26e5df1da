-- ===== src/Blocks/Process/Drain.antt =====
-- process.c: the loop of `task_destroy`.
use blocks.Prelude.{
  ℕ, zero, suc, ◌<◌, ◌≡◌, refl, sym, ap, ◌∙◌, ◌≢◌, true, false, List, [], ◌∷◌, Option, some, arith,
  subst, ◌⊎◌, inl, inr, Bool-cases, ◌==◌, ne→==, length,
}
use blocks.Prelude.Int.{pos}
use blocks.Blocks.Store.{Ptr, null, Message, msg_dead, MailboxState, Store, Cmd, pure, ◌>>◌, update}
use blocks.Blocks.Mailbox.{
  is_answered, mailbox_message_reply, mailbox_message_destroy, mailbox_wait_for_reply,
  mailbox_receive,
}
use blocks.Blocks.Mailbox.Chain.{has, Chain, cons, frame, ne_of_has, update_self, update_other}
use blocks.Blocks.Mailbox.Queue.{
  Holds, load_message-some, mailbox_receive-nil, mailbox_receive-frame,
}
use blocks.Blocks.Process.{drain}

-- The message at `p` is allocated, and both sides hold a reference to it.
pub record Held (s : Store) (p : Ptr) : Type 0 where
  pub message : Message
  pub at : s.messages p ≡ some message
  pub counted : message.ref_count ≡ pos 2

-- What answering the message at `p` does to the store.
record Answered (s t : Store) (p : Ptr) : Type 0 where
  message : Message
  at : t.messages p ≡ some message
  dead : message.state ≡ msg_dead
  boxes : t.mailboxes ≡ s.mailboxes
  tasks : t.tasks ≡ s.tasks
  queue : t.task_queue ≡ s.task_queue
  same : (a : Ptr) → a ≢ p → t.messages a ≡ s.messages a

module _ (s : Store) (p : Ptr) (ne : p ≢ null) (h : Held s p) where
  abbrev dead_message : Message
  dead_message = record h.message { state = msg_dead }

  abbrev replied : Store
  replied = record s { messages = update s.messages p (some dead_message) }

  abbrev dropped : Store
  dropped = record replied {
    messages = update replied.messages p (some (record dead_message { ref_count = pos 1 }));
  }

  reply_dead : mailbox_message_reply p true s ≡ some (tt, replied)
  unfolding mailbox_message_reply
  reply_dead = rw (load_message-some s p h.message ne h.at)

  drop_dead : mailbox_message_destroy p replied ≡ some (tt, dropped)
  unfolding mailbox_message_destroy
  drop_dead = rw (
    load_message-some replied p dead_message ne (update_self s.messages p (some dead_message)),
    h.counted,
  )

  dropped-Answered : Answered s dropped p
  dropped-Answered = record {
    message = record dead_message { ref_count = pos 1 };
    at = update_self replied.messages p _;
    dead = refl;
    boxes = refl;
    tasks = refl;
    queue = refl;
    same = λ a n. update_other replied.messages p a _ n ∙ update_other s.messages p a _ n;
  }

pub Chain-out :
    {h : Ptr → Option Message} {head p : Ptr} {ps : List Ptr}
    → Chain h head (p ∷ ps)
    → has p ps ≡ false
Chain-out (cons m ne e out c) = out

pub Chain-ne :
    {h : Ptr → Option Message} {head p : Ptr} {ps : List Ptr} → Chain h head (p ∷ ps) → p ≢ null
Chain-ne (cons m ne e out c) = ne

-- A mailbox does not change when a message that is not in it is answered.
Answered-Holds :
    (s t : Store) (box p : Ptr) (st : MailboxState) (ps : List Ptr)
    → has p ps ≡ false
    → Answered s t p
    → Holds s box st ps
    → Holds t box st ps
Answered-Holds s t box p st ps out a h = record {
  mailbox = h.mailbox;
  ne_null = h.ne_null;
  at_box = ap (λ f. f box) a.boxes ∙ h.at_box;
  in_state = h.in_state;
  chain = frame h.chain (λ q i. a.same q (ne_of_has ps i out));
  end = h.end;
  count = h.count;
}

wait_answered :
    (s : Store) (p : Ptr) (m : Message)
    → p ≢ null
    → s.messages p ≡ some m
    → m.state ≡ msg_dead
    → mailbox_wait_for_reply p s ≡ some (true, s)
unfolding mailbox_wait_for_reply
wait_answered s p m ne at d = rw (load_message-some s p m ne at, d) (unfold is_answered in refl)

Held-same : (s t : Store) (p : Ptr) → t.messages p ≡ s.messages p → Held s p → Held t p
Held-same s t p e h = record { message = h.message; at = e ∙ h.at; counted = h.counted }

pub has_cons : (q p : Ptr) (ps : List Ptr) → has q (p ∷ ps) ≡ true → (q ≡ p) ⊎ (has q ps ≡ true)
has_cons q p ps i = elim (Bool-cases (q == p)) [
  | inl e ↦ inl (ground arith)
  | inr e ↦ inr (ground arith)
]

-- One round of the loop that takes a message.
drain-suc :
    (fuel : ℕ) (box p : Ptr) (s s0 s1 s2 : Store)
    → (p == null) ≡ false
    → mailbox_receive box s ≡ some (p, s0)
    → mailbox_message_reply p true s0 ≡ some (tt, s1)
    → mailbox_message_destroy p s1 ≡ some (tt, s2)
    → drain (suc fuel) box s ≡ drain fuel box s2
unfolding drain
drain-suc fuel box p s s0 s1 s2 k e r d =
    let answer : Cmd (Unit {0}) =
      mailbox_message_reply p true >> (mailbox_message_destroy p >> drain fuel box) in
    rw e (
      ap (λ b. (elim b as (λ _. Cmd (Unit {0})) [ true ↦ pure tt | false ↦ answer ]) s0) k
      ∙ rw (r, d))

-- What is left of the store: the messages `ps` are answered, and the others are as they were.
pub record Drained (s : Store) (box : Ptr) (st : MailboxState) (ps : List Ptr) (last : Ptr)
    (t : Store) : Type 0 where
  pub empty : Holds t box st []
  pub keeps_last : empty.mailbox.last_message ≡ last
  pub answered : (p : Ptr) → has p ps ≡ true → mailbox_wait_for_reply p t ≡ some (true, t)
  pub others : (p : Ptr) → has p ps ≡ false → t.messages p ≡ s.messages p
  pub tasks : t.tasks ≡ s.tasks
  pub queue : t.task_queue ≡ s.task_queue

-- The loop of `task_destroy` over a mailbox whose messages are all still referred to by their senders, on
-- fuel above their number: it comes to its end, leaves the mailbox empty, every sender that waits for one
-- of the messages has its answer, and every other message is as it was.
pub drain-Drained :
    (fuel : ℕ) (s : Store) (box : Ptr) (st : MailboxState) (ps : List Ptr) (hs : Holds s box st ps)
    → ((p : Ptr) → has p ps ≡ true → Held s p)
    → length ps < fuel
    → (t : Store) × (drain fuel box s ≡ some (tt, t))
      × Drained s box st ps hs.mailbox.last_message t
unfolding drain Answered-Holds
drain-Drained zero s box st ps hs held l = absurd (omega arith)
drain-Drained (suc fuel) s box st [] hs held l = (
  s,
  rw (mailbox_receive-nil s box st hs),
  record {
    empty = hs;
    keeps_last = refl;
    answered = λ p i. cc;
    others = λ p o. refl;
    tasks = refl;
    queue = refl;
  },
)
drain-Drained (suc fuel) s box st (p ∷ ps) hs held l =
    let ne = Chain-ne hs.chain in
    let out = Chain-out hs.chain in
    let (boxes, e, h0, same_last) = mailbox_receive-frame s box p st ps hs in
    let s0 : Store = record s { mailboxes = boxes } in
    let h = held p (ground arith) in
    let h' : Held s0 p = record { message = h.message; at = h.at; counted = h.counted } in
    let s1 = dropped s0 p ne h' in
    let a = dropped-Answered s0 p ne h' in
    let h1 = Answered-Holds s0 s1 box p st ps out a h0 in
    let (t, e', d) =
      drain-Drained fuel s1 box st ps h1
        (λ q i. Held-same s s1 q (a.same q (ne_of_has ps i out)) (held q (ground arith)))
        (omega arith) in
    (
      t,
      drain-suc fuel box p s s0 (replied s0 p ne h') s1 (ne→== p null ne) e (reply_dead s0 p ne h')
            (drop_dead s0 p ne h')
          ∙ e',
      record {
        empty = d.empty;
        keeps_last = d.keeps_last ∙ same_last;
        answered = λ q i. elim (has_cons q p ps i) [
          | inl same_p ↦
              subst (λ x. mailbox_wait_for_reply x t ≡ some (true, t)) (sym same_p)
                (wait_answered t p a.message ne (d.others p out ∙ a.at) a.dead)
          | inr in_ps ↦ d.answered q in_ps
        ];
        others = λ q o. d.others q (ground (arith, o)) ∙ a.same q (ground (arith, o));
        tasks = d.tasks ∙ a.tasks;
        queue = d.queue ∙ a.queue;
      },
    )
