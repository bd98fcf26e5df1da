-- ===== src/Blocks/Mailbox/History.antt =====
-- A mailbox over a history of calls, against a queue of message addresses.
use blocks.Prelude.{◌≡◌, refl, ◌≢◌, List, [], ◌∷◌, ◌++◌, Option, none, some, same_result}
use blocks.Blocks.Store.{Ptr, null, mbox_alive, Store}
use blocks.Blocks.Mailbox.{post, mailbox_receive, mailbox_peek}
use blocks.Blocks.Mailbox.Queue.{
  Holds, first, mailbox_receive-cons, mailbox_receive-nil, mailbox_peek-first,
}
use blocks.Blocks.Mailbox.Posted.{post-Holds}

-- A call on the mailbox; `posts` has the sender, the content and the address that `malloc` returns.
pub data Call : Type 0 where
  posts : Ptr → Ptr → Ptr → Call
  receives : Call
  peeks : Call

-- The queue after a call, and the result of the call.
unfoldable pub queue_after : Call → List Ptr → List Ptr
queue_after (posts sender content fresh) ps = ps ++ fresh ∷ []
queue_after receives [] = []
queue_after receives (p ∷ ps) = ps
queue_after peeks ps = ps

unfoldable pub queue_result : Call → List Ptr → Ptr
queue_result (posts sender content fresh) ps = fresh
queue_result receives ps = first ps
queue_result peeks ps = first ps

unfoldable pub queue_results : List Call → List Ptr → List Ptr
unfolding queue_result queue_after
queue_results [] ps = []
queue_results (c ∷ cs) ps = queue_result c ps ∷ queue_results cs (queue_after c ps)

unfoldable pub queue_end : List Call → List Ptr → List Ptr
unfolding queue_after
queue_end [] ps = ps
queue_end (c ∷ cs) ps = queue_end cs (queue_after c ps)

unfoldable pub run_call : Ptr → Call → Store → Option (Ptr × Store)
run_call box (posts sender content fresh) = post sender box content fresh
run_call box receives = mailbox_receive box
run_call box peeks = mailbox_peek box

-- `malloc` returns an address that holds no message, and not NULL.
abbrev pub Allocates : Store → Call → Type 0
Allocates s (posts sender content fresh) = (fresh ≢ null) × (s.messages fresh ≡ none)
Allocates s receives = Unit {0}
Allocates s peeks = Unit {0}

-- A history of calls on the mailbox, with their results.
pub data Trace (box : Ptr) : Store → List Call → List Ptr → Store → Type 0 where
  done : {s : Store} → Trace box s [] [] s
  step :
      {s t u : Store} {cs : List Call} {rs : List Ptr} (c : Call) (r : Ptr)
      → Allocates s c
      → run_call box c s ≡ some (r, t)
      → Trace box t cs rs u
      → Trace box s (c ∷ cs) (r ∷ rs) u

-- One call does to the mailbox what it does to the queue, and does not fault.
pub run_call-Holds :
    (box : Ptr) (c : Call) (s : Store) (ps : List Ptr)
    → Holds s box mbox_alive ps
    → Allocates s c
    → (t : Store) × (run_call box c s ≡ some (queue_result c ps, t))
      × Holds t box mbox_alive (queue_after c ps)
unfolding run_call queue_result queue_after
run_call-Holds box (posts sender content fresh) s ps h (ne, free) =
    let (t, e, h', _) = post-Holds s box sender content fresh ps h ne free in (t, e, h')
run_call-Holds box receives s [] h a = (s, mailbox_receive-nil s box mbox_alive h, h)
run_call-Holds box receives s (p ∷ ps) h a =
    let (t, e, h', _) = mailbox_receive-cons s box p mbox_alive ps h in (t, e, h')
run_call-Holds box peeks s ps h a = (s, mailbox_peek-first s box mbox_alive ps h, h)

abbrev Refined : Ptr → List Call → List Ptr → List Ptr → Store → Type 0
Refined box cs ps rs u = (rs ≡ queue_results cs ps) × Holds u box mbox_alive (queue_end cs ps)

-- Over every history of sends, receives and peeks, a live mailbox gives the results of a first-in
-- first-out queue, and it holds at the end what the queue holds.
pub Trace-queue :
    {box : Ptr} {s u : Store} {cs : List Call} {rs : List Ptr}
    → Trace box s cs rs u
    → (ps : List Ptr) → Holds s box mbox_alive ps
    → Refined box cs ps rs u
unfolding queue_results queue_end
Trace-queue done ps h = (refl, h)
Trace-queue {box} (step {s} {t} {u} {cs} {rs} c r a e rest) ps h =
    let (t', e', h') = run_call-Holds box c s ps h a in
    let (results, holds) =
      Trace-queue rest (queue_after c ps) (
        same_result (λ _ x. Holds x box mbox_alive (queue_after c ps)) (run_call box c s) e' e
          h') in
    (cc, holds)
