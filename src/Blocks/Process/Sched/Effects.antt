-- ===== src/Blocks/Process/Sched/Effects.antt =====
-- What the commands of process.c do to the states of the tasks and to the queue.
use blocks.Prelude.{
  ℕ, ◌≡◌, refl, sym, subst, ◌∙◌, ◌≢◌, ◌⊎◌, inl, inr, true, false, List, [], ◌∷◌, Option, none, some,
  arith, ◌==◌, Bool-cases, Option-cases, if◌then◌else◌,
}
use blocks.Blocks.Store.{
  Ptr, null, Task, TaskState, task_idle, task_init, task_waiting, task_processing, task_dead, Store,
  update, load_task, load_mailbox,
}
use blocks.Blocks.Mailbox.{mailbox_peek}
use blocks.Blocks.Process.{
  pop_task, push_task, append_item, set_state, process_notify_task, free_task, recheck, is_idle,
}
use blocks.Blocks.Process.Sched.{Pc, state_of}
use blocks.Blocks.Process.Sched.Invariant.{States, is_busy, Inv, set_to, same-Inv, enqueue-Inv}

-- The effects of the commands of process.c on states and queue.
abbrev pub states : Store → States
states s p = state_of (s.tasks p)

abbrev pub HasInv : Store → (ℕ → Pc) → Type 0
HasInv s pcs = Inv (states s) s.task_queue pcs

pub set_state-effect :
    (t : Ptr) (st : TaskState) (s s' : Store)
    → set_state t st s ≡ some (tt, s')
    → (s'.task_queue ≡ s.task_queue) × ((p : Ptr) → states s' p ≡ set_to (states s) t (some st) p)
unfolding set_state load_task update state_of
set_state-effect t st s s' e = (ground arith, λ p. ground arith)

pub free_task-effect :
    (t : Ptr) (s s' : Store)
    → free_task t s ≡ some (tt, s')
    → (s'.task_queue ≡ s.task_queue) × ((p : Ptr) → states s' p ≡ set_to (states s) t none p)
unfolding free_task load_task update state_of
free_task-effect t s s' e = (ground arith, λ p. ground arith)

abbrev pub Notified : Ptr → Store → Store → Type 0
Notified t s s' =
    (s' ≡ s)
    ⊎ ((is_busy (states s t) ≡ false)
        × (s'.task_queue ≡ append_item s.task_queue t)
        × ((p : Ptr) → states s' p ≡ set_to (states s) t (some task_waiting) p))

idle_not_busy : (st : TaskState) → is_idle st ≡ true → is_busy (some st) ≡ false
unfolding is_idle
idle_not_busy task_idle h = refl
idle_not_busy task_init h = cc
idle_not_busy task_waiting h = cc
idle_not_busy task_processing h = cc
idle_not_busy task_dead h = cc

becomes_waiting :
    (t : Ptr) (s s' : Store) (k : Task)
    → s.tasks t ≡ some k
    → process_notify_task t s ≡ some (tt, s')
    → Notified t s s'
unfolding process_notify_task load_task update state_of
becomes_waiting t s s' k at e = elim (Bool-cases (is_idle k.state)) [
  | inl i ↦ inr (ground (arith, idle_not_busy k.state i), ground arith, λ p. ground arith)
  | inr i ↦ inl (ground arith)
]

notify_gone : (t : Ptr) (s : Store) → s.tasks t ≡ none → process_notify_task t s ≡ none
unfolding process_notify_task load_task
notify_gone t s e = rw e

pub process_notify_task-effect :
    (t : Ptr) (s s' : Store) → process_notify_task t s ≡ some (tt, s') → Notified t s s'
process_notify_task-effect t s s' e = elim (Option-cases (s.tasks t)) [
  | inl gone ↦ cc (sym (notify_gone t s gone) ∙ e)
  | inr (k, at) ↦ becomes_waiting t s s' k at e
]

peek_keeps : (box m : Ptr) (s s1 : Store) → mailbox_peek box s ≡ some (m, s1) → s1 ≡ s
unfolding mailbox_peek load_mailbox
peek_keeps box m s s1 e = ground arith

recheck_peeked :
    (t box m : Ptr) (s s' : Store)
    → mailbox_peek box s ≡ some (m, s)
    → recheck t box s ≡ some (tt, s')
    → Notified t s s'
unfolding recheck
recheck_peeked t box m s s' p e = elim (Bool-cases (m == null)) [
  | inl z ↦ inl (ground (arith))
  | inr z ↦ process_notify_task-effect t s s' (ground arith)
]

recheck_fault : (t box : Ptr) (s : Store) → mailbox_peek box s ≡ none → recheck t box s ≡ none
unfolding recheck
recheck_fault t box s e = rw e

-- After `recheck` the task has been notified, or nothing has changed.
pub recheck-effect :
    (t box : Ptr) (s s' : Store) → recheck t box s ≡ some (tt, s') → Notified t s s'
recheck-effect t box s s' e = elim (Option-cases (mailbox_peek box s)) [
  | inl gone ↦ cc (sym (recheck_fault t box s gone) ∙ e)
  | inr ((m, s1), p) ↦
      recheck_peeked t box m s s'
        (subst (λ x. mailbox_peek box s ≡ some (m, x)) (peek_keeps box m s s1 p) p) e
]

pub Notified-Inv :
    {pcs : ℕ → Pc} (t : Ptr) (s s' : Store) → Notified t s s' → HasInv s pcs → HasInv s' pcs
Notified-Inv {pcs} t s s' (inl e) inv = subst (λ x. HasInv x pcs) (sym e) inv
Notified-Inv {pcs} t s s' (inr (free, q, f)) inv =
    rw q (same-Inv (enqueue-Inv inv t task_waiting free refl) f)

pub pop_task-effect :
    (t : Ptr) (s s' : Store) (q : List Ptr)
    → s.task_queue ≡ q
    → pop_task s ≡ some (t, s')
    → t ≢ null
    → (q ≡ t ∷ s'.task_queue) × ((p : Ptr) → states s' p ≡ states s p)
unfolding pop_task
pop_task-effect t s s' [] h e ne = ground arith
pop_task-effect t s s' (u ∷ rest) h e ne = (ground arith, λ p. ground arith)

pub push_task-effect :
    (t : Ptr) (s s' : Store)
    → push_task t s ≡ some (tt, s')
    → (s'.task_queue ≡ append_item s.task_queue t) × ((p : Ptr) → states s' p ≡ states s p)
unfolding push_task
push_task-effect t s s' e = (ground arith, λ p. ground arith)

pub new_states :
    (tasks : Ptr → Option Task) (t box p : Ptr)
    → state_of
        (update tasks t (some (record { mailbox = box; is_loaded = false; state = task_init })) p)
      ≡ (if p == t then some task_init else state_of (tasks p))
unfolding update state_of
new_states tasks t box p = ground arith
