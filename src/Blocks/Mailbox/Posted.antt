-- ===== src/Blocks/Mailbox/Posted.antt =====
-- mailbox.c: the messages of a mailbox when one is sent to it.
use blocks.Prelude.{
  ◌⊎◌, inl, inr, Bool-cases, ◌==◌, ◌+◌, ◌%◌, ◌^◌, ◌≡◌, refl, sym, ap, subst, ◌∙◌, ◌≢◌, false, List,
  [], ◌∷◌, ◌++◌, Option, none, some, arith, ne→==, length, length-append,
}
use blocks.Blocks.Store.{Ptr, null, Message, Mailbox, mbox_alive, Store, update}
use blocks.Blocks.Mailbox.Chain.{
  has, Chain, nil, cons, EndsAt, last_of, frame, Linked, Chain-snoc, ne-last_of, last_of-snoc,
  head_of_nil, head-ne_null, has_of_none, ne_of_has, Chain-last, update_self, update_other,
}
use blocks.Blocks.Mailbox.{new_message, enqueue, post}
use blocks.Blocks.Mailbox.Queue.{Holds, load_mailbox-some, load_message-some}

abbrev tail_box : Mailbox → Ptr → Mailbox
tail_box b fresh = record b { end = fresh; count = (b.count + 1) % 2 ^ 32 }

-- A message is as it was, or only its `next` pointer is changed.
abbrev pub Relinked : Option Message → Option Message → Ptr → Type 0
Relinked old new fresh =
    (new ≡ old) ⊎ ((m : Message) × (old ≡ some m) × (new ≡ some (record m { next = fresh })))

-- What a new message at `fresh` leaves as it was.
pub record Framed (s t : Store) (fresh : Ptr) : Type 0 where
  pub messages : (a : Ptr) → a ≢ fresh → Relinked (s.messages a) (t.messages a) fresh
  pub contents : t.contents ≡ s.contents
  pub tasks : t.tasks ≡ s.tasks
  pub queue : t.task_queue ≡ s.task_queue

module _ (s : Store) (box fresh : Ptr) (new : Message) (b : Mailbox) (box_ne : box ≢ null)
    (at_box : s.mailboxes box ≡ some b) (fresh_ne : fresh ≢ null) (at : s.messages fresh ≡ some new)
    (next : new.next ≡ null) where
  abbrev Enqueued : List Ptr → Type 0
  Enqueued ps =
      (s' : Store) × (enqueue box fresh s ≡ some (tt, s'))
      × (h : Holds s' box b.state (ps ++ fresh ∷ [])) × (h.mailbox.task ≡ b.task)
      × (s'.messages fresh ≡ some new)
      × Framed s s' fresh

  enqueue-empty : b.head ≡ null → b.count ≡ 0 → Enqueued []
  unfolding enqueue update
  enqueue-empty h k = (
    record s {
      mailboxes =
          update s.mailboxes box
            (some (record b { head = fresh; end = fresh; count = (b.count + 1) % 2 ^ 32 }));
    },
    rw (load_mailbox-some s box b box_ne at_box, h),
    record {
      mailbox = record b { head = fresh; end = fresh; count = (b.count + 1) % 2 ^ 32 };
      ne_null = box_ne;
      in_state = refl;
      at_box = ground arith;
      chain = cons new fresh_ne at refl (subst (λ q. Chain s.messages q []) (sym next) nil);
      end = refl;
      count = omega arith;
    },
    refl,
    at,
    record { messages = λ a ne. inl refl; contents = refl; tasks = refl; queue = refl },
  )

  relinks :
      (a : Ptr) (m : Message)
      → s.messages b.end ≡ some m
      → Relinked (s.messages a) (update s.messages b.end (some (record m { next = fresh })) a) fresh
  relinks a m e = elim (Bool-cases (a == b.end)) [
    | inl k ↦
        let same : a ≡ b.end = ground (arith, k) in
        inr (m, ap s.messages same ∙ e, rw same (update_self s.messages b.end _))
    | inr k ↦ inl (update_other s.messages b.end a _ (ground (arith, k)))
  ]

  enqueue-last :
      (p : Ptr) (ps : List Ptr)
      → Chain s.messages b.head (p ∷ ps)
      → b.head ≢ null
      → has fresh (p ∷ ps) ≡ false
      → b.end ≡ last_of p ps
      → b.count ≡ length (p ∷ ps) % 2 ^ 32
      → Enqueued (p ∷ ps)
  unfolding enqueue update
  enqueue-last p ps c h out e k =
      let (m, em, nel) = Chain-last c h in
      let apart : fresh ≢ b.end = λ eq. ne-last_of p ps out (eq ∙ e) in
      let linked : Linked s.messages (update s.messages b.end (some (record m { next = fresh })))
          fresh b.head (p ∷ ps) =
        record { same = λ a i n. ground arith; linked = λ m' e'. ground arith } in
      let end_ne : b.end ≢ null = λ eq. nel (sym e ∙ eq) in
      let end_at : s.messages b.end ≡ some m = ap s.messages e ∙ em in
      (
        record s {
          messages = update s.messages b.end (some (record m { next = fresh }));
          mailboxes = update s.mailboxes box (some (tail_box b fresh));
        },
        rw (
          load_mailbox-some s box b box_ne at_box,
          ne→== b.head null h,
          load_message-some s b.end m end_ne end_at,
        ),
        record {
          mailbox = tail_box b fresh;
          ne_null = box_ne;
          in_state = refl;
          at_box = ground arith;
          chain = Chain-snoc fresh fresh_ne new (ground arith) next c h out linked;
          end = sym (last_of-snoc p fresh ps);
          count = omega (arith, length-append ps (fresh ∷ []));
        },
        refl,
        ground arith,
        record {
          messages = λ a ne. relinks a m end_at;
          contents = refl;
          tasks = refl;
          queue = refl;
        },
      )

  enqueue-Holds :
      (ps : List Ptr)
      → Chain s.messages b.head ps
      → has fresh ps ≡ false
      → EndsAt b.end ps
      → b.count ≡ length ps % 2 ^ 32
      → Enqueued ps
  enqueue-Holds [] c out e k = enqueue-empty (head_of_nil c) (omega arith)
  enqueue-Holds (p ∷ ps) c out e k = enqueue-last p ps c (head-ne_null c) out e k

next-new_message : (a b c : Ptr) → (new_message a b c).next ≡ null
unfolding new_message
next-new_message a b c = refl

-- `mailbox_send` to a live mailbox puts a new message behind those that wait there.
pub post-Framed :
    (s : Store) (box sender content fresh : Ptr) (ps : List Ptr) (hs : Holds s box mbox_alive ps)
    → fresh ≢ null
    → s.messages fresh ≡ none
    → (s' : Store) × (post sender box content fresh s ≡ some (fresh, s'))
      × (h : Holds s' box mbox_alive (ps ++ fresh ∷ [])) × (h.mailbox.task ≡ hs.mailbox.task)
      × (s'.messages fresh ≡ some (new_message sender box content))
      × Framed s s' fresh
unfolding post
post-Framed s box sender content fresh ps hs ne free =
    let new = new_message sender box content in
    let s1 : Store = record s { messages = update s.messages fresh (some new) } in
    let out = has_of_none fresh hs.chain free in
    let (s', e, h, same_task, at, f) =
      enqueue-Holds s1 box fresh new hs.mailbox hs.ne_null hs.at_box ne
        (update_self s.messages fresh (some new)) (next-new_message sender box content) ps
        (frame hs.chain λ a i. update_other s.messages fresh a (some new) (ne_of_has ps i out)) out
        hs.end hs.count in
    (
      s',
      rw (load_mailbox-some s box hs.mailbox hs.ne_null hs.at_box, hs.in_state, e),
      record {
        mailbox = h.mailbox;
        ne_null = h.ne_null;
        at_box = h.at_box;
        in_state = h.in_state ∙ hs.in_state;
        chain = h.chain;
        end = h.end;
        count = h.count;
      },
      same_task,
      at,
      record {
        messages = λ a apart.
            subst (λ o. Relinked o (s'.messages a) fresh)
              (update_other s.messages fresh a (some new) apart) (f.messages a apart);
        contents = f.contents;
        tasks = f.tasks;
        queue = f.queue;
      },
    )

-- The answer of the new message is awaited, and both sides refer to it.
pub post-Holds :
    (s : Store) (box sender content fresh : Ptr) (ps : List Ptr)
    → Holds s box mbox_alive ps
    → fresh ≢ null
    → s.messages fresh ≡ none
    → (s' : Store) × (post sender box content fresh s ≡ some (fresh, s'))
      × Holds s' box mbox_alive (ps ++ fresh ∷ [])
      × (s'.messages fresh ≡ some (new_message sender box content))
post-Holds s box sender content fresh ps hs ne free =
    let (s', e, h, _, at, _) = post-Framed s box sender content fresh ps hs ne free in
    (s', e, h, at)
