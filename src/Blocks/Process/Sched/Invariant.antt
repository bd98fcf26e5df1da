-- ===== src/Blocks/Process/Sched/Invariant.antt =====
-- The invariant of the steps of Sched: who may hold a task of process.c.
use blocks.Prelude.{
  ℕ, ◌≡◌, refl, sym, ◌∙◌, Bool, true, false, ◌||◌, List, [], ◌∷◌, Option, none, some, arith, ◌==◌,
  if◌then◌else◌,
}
use blocks.Blocks.Store.{
  Ptr, TaskState, task_idle, task_init, task_waiting, task_processing, task_dead, update,
}
use blocks.Blocks.Mailbox.Chain.{has}
use blocks.Blocks.Process.{append_item}
use blocks.Blocks.Process.Sched.{Pc, idle, popped, running, returned, dying, parked}

-- The worker has taken the task from the queue and has not given it up.
abbrev pub holds : Pc → Ptr → Bool
holds idle t = false
holds (popped u) t = t == u
holds (running u) t = t == u
holds (returned u _) t = t == u
holds (dying u) t = t == u
holds (parked u _) t = false

abbrev pub is_queued : Option TaskState → Bool
is_queued none = false
is_queued (some task_idle) = false
is_queued (some task_init) = true
is_queued (some task_waiting) = true
is_queued (some task_processing) = false
is_queued (some task_dead) = false

abbrev pub is_busy : Option TaskState → Bool
is_busy none = false
is_busy (some task_idle) = false
is_busy (some task_init) = true
is_busy (some task_waiting) = true
is_busy (some task_processing) = true
is_busy (some task_dead) = true

abbrev pub Distinct : List Ptr → Type 0
Distinct [] = Unit {0}
Distinct (t ∷ ts) = (has t ts ≡ false) × Distinct ts

abbrev pub States : Type 0
States = Ptr → Option TaskState

-- Over the states of the tasks, the queue and the workers: a task stands in the queue at most once,
-- only in a state in which nobody adds it again, and not while a worker holds it; and one worker at
-- most holds it.
pub record Inv (f : States) (q : List Ptr) (pcs : ℕ → Pc) : Type 0 where
  pub distinct : Distinct q
  pub queued : (t : Ptr) → has t q ≡ true → is_queued (f t) ≡ true
  pub taken : (w : ℕ) (t : Ptr) → holds (pcs w) t ≡ true → has t q ≡ false
  pub busy : (w : ℕ) (t : Ptr) → holds (pcs w) t ≡ true → is_busy (f t) ≡ true
  pub alone : (v w : ℕ) (t : Ptr) → holds (pcs v) t ≡ true → holds (pcs w) t ≡ true → v ≡ w

abbrev pub set_to : States → Ptr → Option TaskState → States
set_to f t st p = if p == t then st else f p

pub has-append_item : (a t : Ptr) (q : List Ptr) → has a (append_item q t) ≡ (has a q || a == t)
unfolding append_item
has-append_item a t [] = ground arith
has-append_item a t (x ∷ q) = ground (arith, has-append_item a t q)

pub Distinct-append_item :
    (t : Ptr) (q : List Ptr) → Distinct q → has t q ≡ false → Distinct (append_item q t)
unfolding append_item
Distinct-append_item t [] d o = (refl, tt)
Distinct-append_item t (x ∷ q) d o =
    (ground (arith, has-append_item x t q), Distinct-append_item t q d.1 (ground arith))

pub queued_busy : (o : Option TaskState) → is_queued o ≡ true → is_busy o ≡ true
queued_busy none h = h
queued_busy (some task_idle) h = h
queued_busy (some task_init) h = refl
queued_busy (some task_waiting) h = refl
queued_busy (some task_processing) h = refl
queued_busy (some task_dead) h = refl

pub not-queued :
    (o : Option TaskState) (b : Bool)
    → is_busy o ≡ false
    → (b ≡ true → is_queued o ≡ true)
    → b ≡ false
not-queued o false h k = refl
not-queued o true h k = cc (sym h ∙ queued_busy o (k refl))

module _ {f : States} {q : List Ptr} {pcs : ℕ → Pc} (inv : Inv f q pcs) where
  pub same-Inv : {g : States} → ((p : Ptr) → g p ≡ f p) → Inv g q pcs
  same-Inv same = record {
    distinct = inv.distinct;
    queued = λ t h. rw (same t) (inv.queued t h);
    taken = inv.taken;
    busy = λ w t h. rw (same t) (inv.busy w t h);
    alone = inv.alone;
  }

  -- A worker goes on with the task that it holds, or gives it up, and sets its state.
  pub work-Inv :
      (w : ℕ) (t : Ptr) (pc : Pc) (st : Option TaskState)
      → holds (pcs w) t ≡ true
      → ((u : Ptr) → holds pc u ≡ true → (u ≡ t) × (is_busy st ≡ true))
      → Inv (set_to f t st) q (update pcs w pc)
  unfolding update
  work-Inv w t pc st h only = record {
    distinct = inv.distinct;
    queued = λ u i. ground (arith, inv.queued u i, inv.taken w t h);
    taken = λ v u i. ground (arith, inv.taken v u, inv.taken w t h, only u);
    busy = λ v u i. ground (arith, inv.busy v u, only u, inv.alone v w t);
    alone =
        λ v v' u i i'. ground (arith, inv.alone v v' u, inv.alone v w t, inv.alone v' w t, only u);
  }

  -- A worker goes on with the task that it holds, or gives it up, and changes no state.
  pub keep-Inv :
      (w : ℕ) (pc : Pc)
      → ((u : Ptr) → holds pc u ≡ true → holds (pcs w) u ≡ true)
      → Inv f q (update pcs w pc)
  unfolding update
  keep-Inv w pc only = record {
    distinct = inv.distinct;
    queued = inv.queued;
    taken = λ v u i. ground (arith, inv.taken v u, inv.taken w u, only u);
    busy = λ v u i. ground (arith, inv.busy v u, inv.busy w u, only u);
    alone =
        λ v v' u i i'. ground (arith, inv.alone v v' u, inv.alone v w u, inv.alone w v' u, only u);
  }

  -- A task that is idle, or new, enters the queue.
  pub enqueue-Inv :
      (t : Ptr) (st : TaskState)
      → is_busy (f t) ≡ false
      → is_queued (some st) ≡ true
      → Inv (set_to f t (some st)) (append_item q t) pcs
  enqueue-Inv t st free k = record {
    distinct =
        Distinct-append_item t q inv.distinct (not-queued (f t) (has t q) free (inv.queued t));
    queued = λ u i. ground (arith, inv.queued u, has-append_item u t q);
    taken = λ v u i. ground (arith, inv.taken v u, inv.busy v u, has-append_item u t q);
    busy = λ v u i. ground (arith, inv.busy v u);
    alone = inv.alone;
  }

-- The task at the head of the queue goes to a worker.
pub pop-Inv :
    {f : States} {pcs : ℕ → Pc} (w : ℕ) (t : Ptr) (rest : List Ptr)
    → Inv f (t ∷ rest) pcs
    → Inv f rest (update pcs w (popped t))
unfolding update
pop-Inv {f} {pcs} w t rest inv = record {
  distinct = inv.distinct.1;
  queued = λ u i. inv.queued u (ground arith);
  taken = λ v u i. ground (arith, inv.taken v u, inv.distinct.0);
  busy = λ v u i. ground (arith, inv.busy v u, queued_busy (f t) (inv.queued t (ground arith)));
  alone = λ v v' u i i'. ground (arith, inv.alone v v' u, inv.taken v t, inv.taken v' t);
}
