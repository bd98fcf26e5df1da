-- ===== src/Blocks/Process/Sched/Exclusive.antt =====
-- process.c: which worker holds a task, over the steps of Sched.
use blocks.Prelude.{ℕ, ◌≡◌, refl, sym, subst, ap, ◌∙◌, true, false, [], none, some, arith, ==_refl}
use blocks.Blocks.Store.{Ptr, task_idle, task_init, task_processing, task_dead, Store, update}
use blocks.Blocks.Mailbox.Chain.{has}
use blocks.Blocks.Process.Sched.{
  idle, running, returned, dying, parked, World, state_of, Step, pops, marks, evaluates, kills,
  frees, parks, rechecks, notifies, spawns, mailboxes, Reach, here, next,
}
use blocks.Blocks.Process.Sched.Invariant.{
  holds, Distinct, Inv, same-Inv, work-Inv, keep-Inv, enqueue-Inv, pop-Inv,
}
use blocks.Blocks.Process.Sched.Effects.{
  states, HasInv, set_state-effect, free_task-effect, Notified-Inv, process_notify_task-effect,
  recheck-effect, pop_task-effect, push_task-effect, new_states,
}

-- Each step keeps the invariant.
Step-Inv : {x y : World} → Step x y → HasInv x.store x.pcs → HasInv y.store y.pcs
unfolding state_of
Step-Inv {x} (pops w t s at e ne) inv =
    let (q, same) = pop_task-effect t x.store s x.store.task_queue refl e ne in
    same-Inv (pop-Inv w t s.task_queue (subst (λ q. Inv (states x.store) q x.pcs) q inv)) same
Step-Inv {x} (marks w t s at e) inv =
    let (q, f) = set_state-effect t task_processing x.store s e in
    rw q (
      same-Inv
        (work-Inv inv w t (running t) (some task_processing) (rw at (==_refl t))
          λ u i. (ground arith, refl))
        f)
Step-Inv {x} (evaluates w t c s at same) inv =
    rw same.queue (same-Inv (keep-Inv inv w (returned t c) (λ u i. rw at i)) same.states)
Step-Inv {x} (kills w t s at e) inv =
    let (q, f) = set_state-effect t task_dead x.store s e in
    rw q (
      same-Inv
        (work-Inv inv w t (dying t) (some task_dead) (rw at (==_refl t))
          λ u i. (ground arith, refl))
        f)
Step-Inv {x} (frees w t s at e) inv =
    let (q, f) = free_task-effect t x.store s e in
    rw q (same-Inv (work-Inv inv w t idle none (rw at (==_refl t)) λ u i. cc) f)
Step-Inv {x} (parks w t box s at e) inv =
    let (q, f) = set_state-effect t task_idle x.store s e in
    rw q
      (same-Inv (work-Inv inv w t (parked t box) (some task_idle) (rw at (==_refl t)) λ u i. cc) f)
Step-Inv {x} (rechecks w t box s at e) inv =
    Notified-Inv t x.store s (recheck-effect t box x.store s e) (keep-Inv inv w idle (λ u i. cc))
Step-Inv {x} (notifies t s e) inv =
    Notified-Inv t x.store s (process_notify_task-effect t x.store s e) inv
Step-Inv {x} (spawns t box s ne free e) inv =
    let new : Store = record x.store {
      tasks =
          update x.store.tasks t
            (some (record { mailbox = box; is_loaded = false; state = task_init }));
    } in
    let (q, f) = push_task-effect t new s e in
    rw q (
      same-Inv (enqueue-Inv inv t task_init (rw free refl) refl)
        λ p. f p ∙ new_states x.store.tasks t box p)
Step-Inv {x} (mailboxes s same) inv = rw same.queue (same-Inv inv same.states)

Reach-Inv : {x y : World} → HasInv x.store x.pcs → Reach x y → HasInv y.store y.pcs
Reach-Inv inv here = inv
Reach-Inv inv (next r st) = Step-Inv st (Reach-Inv inv r)

-- The library has just been loaded: no tasks, an empty queue, all workers at the wait.
pub record Initial (x : World) : Type 0 where
  pub no_tasks : x.store.task_queue ≡ []
  pub waiting : (w : ℕ) → x.pcs w ≡ idle

Initial-Inv : {x : World} → Initial x → HasInv x.store x.pcs
Initial-Inv {x} i = record {
  distinct = rw i.no_tasks tt;
  queued = λ t h. cc (sym h ∙ ap (has t) i.no_tasks);
  taken = λ w t h. cc (sym h ∙ ap (λ p. holds p t) (i.waiting w));
  busy = λ w t h. cc (sym h ∙ ap (λ p. holds p t) (i.waiting w));
  alone = λ v w t h k. cc (sym h ∙ ap (λ p. holds p t) (i.waiting v));
}

-- In every interleaving of any number of workers, senders, spawns and notifications: a task that worker
-- `v` has taken from the queue and not given up is not in the queue, and any worker `w` that holds it is
-- `v`. No two workers use one task's Lua state.
pub Reach-exclusive :
    {x y : World}
    → Initial x
    → Reach x y
    → (v w : ℕ) (t : Ptr) → holds (y.pcs v) t ≡ true
    → holds (y.pcs w) t ≡ true
    → (v ≡ w) × (has t y.store.task_queue ≡ false)
Reach-exclusive i r v w t h k =
    let inv = Reach-Inv (Initial-Inv i) r in (inv.alone v w t h k, inv.taken v t h)

-- In every such interleaving no task stands in the queue twice, however often it is notified.
pub Reach-Distinct : {x y : World} → Initial x → Reach x y → Distinct y.store.task_queue
Reach-Distinct i r = (Reach-Inv (Initial-Inv i) r).distinct
