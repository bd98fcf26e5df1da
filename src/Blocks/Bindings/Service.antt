-- ===== src/Blocks/Bindings/Service.antt =====
-- process.c and blocks.c: a worker that answers the messages of a process, one round after another.
use blocks.Prelude.{
  ℕ, ◌≡◌, refl, sym, ap, ◌∙◌, ◌≢◌, true, false, List, [], ◌∷◌, some, arith, ne→==, length,
}
use blocks.Blocks.Store.{
  Ptr, null, Message, MailboxState, Store, update, TaskState, task_idle, task_waiting,
}
use blocks.Blocks.Mailbox.{is_answered, mailbox_wait_for_reply, mailbox_message_get_content}
use blocks.Blocks.Mailbox.Chain.{has, ne_of_has, update_other}
use blocks.Blocks.Mailbox.Queue.{Holds, load_message-some}
use blocks.Blocks.Process.{Outcome, pop_task, append_item, worker_round, worker}
use blocks.Blocks.Process.Drain.{Chain-out}
use blocks.Blocks.Process.LateNotify.{Loaded, Holds-tasks}
use blocks.Blocks.Process.Reply.{Awaited, replied}
use blocks.Blocks.Process.Round.{Rounded, worker_round-Rounded}
use blocks.Blocks.Bindings.{l_mailbox_message_get}

-- No message of the list has the content `c`.
abbrev pub Apart : Store → Ptr → List Ptr → Type 0
Apart s c ps = (q : Ptr) (m : Message) → has q ps ≡ true → s.messages q ≡ some m → m.content ≢ c

-- Messages that are awaited, each with a content of its own.
abbrev pub Sent : Store → List Ptr → Type 0
Sent s [] = Unit {0}
Sent s (p ∷ ps) = (m : Message) × Awaited s p m × Apart s m.content ps × Sent s ps

-- They stay so when another message is answered.
Sent-frame :
    (s u : Store) (c : Ptr) (ps : List Ptr)
    → ((a : Ptr) → has a ps ≡ true → u.messages a ≡ s.messages a)
    → u.contents ≡ update s.contents c false
    → Apart s c ps
    → Sent s ps
    → Sent u ps
Sent-frame s u c [] same freed apart h = tt
Sent-frame s u c (p ∷ ps) same freed apart (m, a, own, rest) =
    let at = same p (ground arith) in
    let ne : m.content ≢ c = apart p m (ground arith) a.at in
    (
      m,
      record {
        ne_null = a.ne_null;
        at = at ∙ a.at;
        counted = a.counted;
        content_ne = a.content_ne;
        owned =
            ap (λ f. f m.content) freed ∙ update_other s.contents c m.content false ne ∙ a.owned;
      },
      λ q n i e. own q n i (sym (same q (ground arith)) ∙ e),
      Sent-frame s u c ps (λ b i. same b (ground arith)) freed
          (λ q n i e. apart q n (ground arith) e) rest,
    )

-- The senders get the replies.
abbrev pub AllAnswered : Store → List Ptr → List Ptr → Type 0
AllAnswered u [] [] = Unit {0}
AllAnswered u [] (r ∷ rs) = ⊥
AllAnswered u (p ∷ ps) [] = ⊥
AllAnswered u (p ∷ ps) (r ∷ rs) =
    (l_mailbox_message_get p u ≡ some (some r, u)) × AllAnswered u ps rs

pub get-replied :
    (u : Store) (p r : Ptr) (m : Message)
    → p ≢ null
    → u.messages p ≡ some (replied m r)
    → l_mailbox_message_get p u ≡ some (some r, u)
unfolding l_mailbox_message_get mailbox_wait_for_reply mailbox_message_get_content is_answered
get-replied u p r m ne at = let load = load_message-some u p (replied m r) ne at in rw (load, load)

-- The function of the task leaves a function each time, and these contents.
abbrev pub outcomes : List Ptr → List Outcome
outcomes [] = []
outcomes (r ∷ rs) = record { do_continue = true; reply = r; last = null } ∷ outcomes rs

abbrev pub Served : Store → Ptr → Ptr → MailboxState → List Ptr → List Ptr → Store → Type 0
Served s t box ms ps rs u =
    Loaded u t box task_idle
    × Holds u box ms []
    × (u.task_queue ≡ [])
    × AllAnswered u ps rs
    × ((a : Ptr) → has a ps ≡ false → u.messages a ≡ s.messages a)

worker-step :
    (fuel : ℕ) (r t : Ptr) (rs : List Ptr) (s u : Store)
    → s.task_queue ≡ t ∷ []
    → t ≢ null
    → worker_round fuel t
        (record { do_continue = true; reply = r; last = null })
        (record s { task_queue = [] })
      ≡ some (tt, u)
    → worker fuel (outcomes (r ∷ rs)) s ≡ worker fuel (outcomes rs) u
unfolding worker pop_task
worker-step fuel r t rs s u q ne e = rw (q, ne→== t null ne, e)

-- The first round.
worker-Rounded :
    (fuel : ℕ) (t box p r : Ptr) (ms : MailboxState) (m : Message) (ps rs : List Ptr) (s : Store)
    (st : TaskState)
    → Loaded s t box st
    → Holds s box ms (p ∷ ps)
    → Awaited s p m
    → s.task_queue ≡ t ∷ []
    → (u : Store) × (worker fuel (outcomes (r ∷ rs)) s ≡ worker fuel (outcomes rs) u)
      × Rounded (record s { task_queue = [] }) t box ms p m ps r u
worker-Rounded fuel t box p r ms m ps rs s st l h a q =
    let s0 : Store = record s { task_queue = [] } in
    let l0 : Loaded s0 t box st = record { ne_null = l.ne_null; at = l.at } in
    let h0 = Holds-tasks s box ms (p ∷ ps) s.tasks [] h in
    let a0 : Awaited s0 p m = record {
      ne_null = a.ne_null;
      at = a.at;
      counted = a.counted;
      content_ne = a.content_ne;
      owned = a.owned;
    } in
    let (u, e, w) = worker_round-Rounded s0 t box p st ms m ps l0 a0 h0 fuel r null in
    (u, worker-step fuel r t rs s u q l.ne_null e, w)

-- A worker whose queue has the one task serves all its messages, one round for each.
pub worker-Served :
    (fuel : ℕ) (t box p : Ptr) (ms : MailboxState) (ps rs : List Ptr) (s : Store) (st : TaskState)
    → length rs ≡ length (p ∷ ps)
    → Loaded s t box st
    → Holds s box ms (p ∷ ps)
    → Sent s (p ∷ ps)
    → s.task_queue ≡ t ∷ []
    → (u : Store) × (worker fuel (outcomes rs) s ≡ some (tt, u)) × Served s t box ms (p ∷ ps) rs u
unfolding worker
worker-Served fuel t box p ms ps [] s st len l h sent q = absurd (omega (arith, len))
worker-Served fuel t box p ms [] (r ∷ r2 ∷ rs) s st len l h sent q = absurd (omega (arith, len))
worker-Served fuel t box p ms (p2 ∷ ps) (r ∷ []) s st len l h sent q = absurd (omega (arith, len))
worker-Served fuel t box p ms [] (r ∷ []) s st len l h (m, a, own, rest) q =
    let (u, step, w) = worker-Rounded fuel t box p r ms m [] [] s st l h a q in
    (
      u,
      step,
      (
        w.loaded,
        w.waits,
        w.queue,
        (get-replied u p r m a.ne_null w.answer, tt),
        λ b out. w.others b (ground (arith, out)),
      ),
    )
worker-Served fuel t box p ms (p2 ∷ ps) (r ∷ r2 ∷ rs) s st len l h (m, a, own, rest) q =
    let (u, step, w) = worker-Rounded fuel t box p r ms m (p2 ∷ ps) (r2 ∷ rs) s st l h a q in
    let out = Chain-out h.chain in
    let sent =
      Sent-frame s u m.content (p2 ∷ ps) (λ b i. w.others b (ne_of_has (p2 ∷ ps) i out)) w.contents
        own rest in
    let (v, e, (l2, h2, q2, answers, same)) =
      worker-Served fuel t box p2 ms ps (r2 ∷ rs) u task_waiting (omega (arith, len)) w.loaded
        w.waits sent (w.queue ∙ unfold append_item in refl) in
    (
      v,
      step ∙ e,
      (
        l2,
        h2,
        q2,
        (get-replied v p r m a.ne_null (same p out ∙ w.answer), answers),
        λ b o. same b (ground (arith, o)) ∙ w.others b (ground (arith, o)),
      ),
    )
