-- ===== src/Blocks/Process/Ended.antt =====
-- process.c: `task_destroy`, and the round in which a task ends.
use blocks.Prelude.{
  ℕ, ◌<◌, Bool, inl, inr, ◌≡◌, refl, sym, ap, ◌∙◌, subst, ◌≢◌, true, false, List, [], ◌∷◌, Option,
  none, some, arith, ne→==, ◌==◌, if◌then◌else◌, length,
}
use blocks.Blocks.Store.{
  Ptr, null, Message, MailboxState, mbox_alive, mbox_dead, Mailbox, Store, update, Task, TaskState,
  task_dead, task_processing, load_task, found, load_message, pure, ◌>>=◌,
}
use blocks.Blocks.Mailbox.{
  is_answered, is_alive, mailbox_destroy, mailbox_set_last_message, mailbox_wait_for_reply,
}
use blocks.Blocks.Mailbox.Chain.{has, update_self, update_other, ne_of_has}
use blocks.Blocks.Mailbox.Queue.{Holds, load_mailbox-some, load_message-some}
use blocks.Blocks.Process.{Outcome, free_task, task_destroy, worker_round}
use blocks.Blocks.Process.Drain.{Held, Chain-out, has_cons, drain-Drained}
use blocks.Blocks.Process.LateNotify.{Loaded, load, in_state, set_state-some, in_state-Loaded}
use blocks.Blocks.Process.Reply.{Awaited, replied}
use blocks.Blocks.Process.Round.{processing, runs, ran-Loaded}

-- A store with another mailbox at `box`.
abbrev with_mailbox : Store → Ptr → Mailbox → Store
with_mailbox s box b = record s { mailboxes = update s.mailboxes box (some b) }

-- A mailbox that is empty is marked dead.
destroy_alive :
    (s : Store) (box : Ptr) (ps : List Ptr) (h : Holds s box mbox_alive ps)
    → mailbox_destroy box s ≡ some (tt, with_mailbox s box (record h.mailbox { state = mbox_dead }))
unfolding mailbox_destroy
destroy_alive s box ps h =
    rw (load_mailbox-some s box h.mailbox h.ne_null h.at_box, h.in_state) (unfold is_alive in refl)

free_task-some :
    (s : Store) (t : Ptr) (k : Task)
    → t ≢ null
    → s.tasks t ≡ some k
    → free_task t s ≡ some (tt, record s { tasks = update s.tasks t none })
unfolding free_task load_task
free_task-some s t k ne at = rw (at, ne→== t null ne)

-- What the end of a task leaves: its mailbox is empty, dead, and has its last message.
pub record Ended (s : Store) (t box : Ptr) (ps : List Ptr) (last : Ptr) (u : Store) : Type 0 where
  pub dead : Holds u box mbox_dead []
  pub keeps_last : dead.mailbox.last_message ≡ last
  pub answered : (p : Ptr) → has p ps ≡ true → mailbox_wait_for_reply p u ≡ some (true, u)
  pub others : (p : Ptr) → has p ps ≡ false → u.messages p ≡ s.messages p
  pub gone : u.tasks t ≡ none
  pub tasks : (a : Ptr) → a ≢ t → u.tasks a ≡ s.tasks a
  pub queue : u.task_queue ≡ s.task_queue

wait_found :
    (b : Bool) (s u : Store) (m : Message)
    → (do m' ← (λ z. if b then none else some (m, z)); pure (is_answered m'.state)) s
      ≡ some (true, s)
    → (do m' ← (λ z. if b then none else some (m, z)); pure (is_answered m'.state)) u
      ≡ some (true, u)
wait_found true s u m w = cc
wait_found false s u m w = cc

wait_some :
    (p : Ptr) (s u : Store) (o : Option Message)
    → (do m ← found p o; pure (is_answered m.state)) s ≡ some (true, s)
    → (do m ← found p o; pure (is_answered m.state)) u ≡ some (true, u)
wait_some p s u none w = cc
wait_some p s u (some m) w = wait_found (p == null) s u m w

-- Waiting for an answer depends on the messages only.
wait_same :
    (p : Ptr) (s : Store) (boxes : Ptr → Option Mailbox) (tasks : Ptr → Option Task)
    → mailbox_wait_for_reply p s ≡ some (true, s)
    → mailbox_wait_for_reply p (record s { mailboxes = boxes; tasks = tasks })
      ≡ some (true, record s { mailboxes = boxes; tasks = tasks })
unfolding mailbox_wait_for_reply load_message
wait_same p s boxes tasks w =
    wait_some p s (record s { mailboxes = boxes; tasks = tasks }) (s.messages p) w

-- `task_destroy` of a task with a live mailbox, of which every message is still referred to by its sender, on
-- fuel above their number.
pub task_destroy-Ended :
    (fuel : ℕ) (s : Store) (t box : Ptr) (st : TaskState) (ps : List Ptr)
    → Loaded s t box st
    → (h : Holds s box mbox_alive ps) → ((p : Ptr) → has p ps ≡ true → Held s p)
    → length ps < fuel
    → (u : Store) × (task_destroy fuel t s ≡ some (tt, u))
      × Ended s t box ps h.mailbox.last_message u
unfolding task_destroy
task_destroy-Ended fuel s t box st ps l h held lt =
    let s1 = in_state s t box st l task_dead in
    let l1 = in_state-Loaded s t box st l task_dead in
    let h1 : Holds s1 box mbox_alive ps = record {
      mailbox = h.mailbox;
      ne_null = h.ne_null;
      at_box = h.at_box;
      in_state = h.in_state;
      chain = h.chain;
      end = h.end;
      count = h.count;
    } in
    let held1 : (p : Ptr) → has p ps ≡ true → Held s1 p = λ p i. record {
      message = (held p i).message;
      at = (held p i).at;
      counted = (held p i).counted;
    } in
    let (v, e, d) = drain-Drained fuel s1 box mbox_alive ps h1 held1 lt in
    let b : Mailbox = record d.empty.mailbox { state = mbox_dead } in
    let v1 = with_mailbox v box b in
    let at = ap (λ f. f t) d.tasks ∙ l1.at in
    let u : Store = record v1 { tasks = update v1.tasks t none } in
    (
      u,
      rw (
        set_state-some s t box st l task_dead,
        load s1 t box task_dead l1,
        e,
        destroy_alive v box [] d.empty,
        free_task-some v1 t (record { mailbox = box; is_loaded = true; state = task_dead })
            l.ne_null at,
      ),
      record {
        dead = record {
          mailbox = b;
          ne_null = h.ne_null;
          at_box = update_self v.mailboxes box (some b);
          in_state = refl;
          chain = d.empty.chain;
          end = d.empty.end;
          count = d.empty.count;
        };
        keeps_last = d.keeps_last;
        answered = λ p i. wait_same p v u.mailboxes u.tasks (d.answered p i);
        others = d.others;
        gone = update_self v.tasks t none;
        tasks = λ a ne.
            update_other v.tasks t a none ne
            ∙ ap (λ f. f a) d.tasks
            ∙ update_other s.tasks t a _ ne;
        queue = d.queue;
      },
    )

set_last_message :
    (s : Store) (box last : Ptr) (ms : MailboxState) (ps : List Ptr) (h : Holds s box ms ps)
    → mailbox_set_last_message box last s
      ≡ some (tt, with_mailbox s box (record h.mailbox { last_message = last }))
unfolding mailbox_set_last_message
set_last_message s box last ms ps h = rw (load_mailbox-some s box h.mailbox h.ne_null h.at_box)

wait_ready :
    (s : Store) (p reply : Ptr) (m : Message)
    → p ≢ null
    → s.messages p ≡ some (replied m reply)
    → mailbox_wait_for_reply p s ≡ some (true, s)
unfolding mailbox_wait_for_reply is_answered
wait_ready s p reply m ne at = rw (load_message-some s p (replied m reply) ne at)

-- The round in which the function of a task leaves no function, on a task that has messages.
pub worker_round-Ended :
    (fuel : ℕ) (s : Store) (t box p reply last : Ptr) (st : TaskState) (m : Message) (ps : List Ptr)
    → Loaded s t box st
    → Awaited s p m
    → Holds s box mbox_alive (p ∷ ps)
    → ((q : Ptr) → has q ps ≡ true → Held s q)
    → length ps < fuel
    → (u : Store) × (worker_round fuel t
          (record { do_continue = false; reply = reply; last = last })
          s
        ≡ some (tt, u))
      × Ended s t box (p ∷ ps) last u
      × (u.messages p ≡ some (replied m reply))
unfolding worker_round
worker_round-Ended fuel s t box p reply last st m ps l a h held lt =
    let outcome : Outcome = record { do_continue = false; reply = reply; last = last } in
    let s1 = processing s t box p st mbox_alive m ps l a h in
    let l1 = in_state-Loaded s t box st l task_processing in
    let (s2, e, r) = runs s t box p st mbox_alive m ps l a h outcome in
    let l2 = ran-Loaded s t box p st mbox_alive m ps l a h reply s2 r in
    let out = Chain-out h.chain in
    let b : Mailbox = record r.waits.mailbox { last_message = last } in
    let s3 = with_mailbox s2 box b in
    let l3 : Loaded s3 t box task_processing = record { ne_null = l2.ne_null; at = l2.at } in
    let h3 : Holds s3 box mbox_alive ps = record {
      mailbox = b;
      ne_null = h.ne_null;
      at_box = update_self s2.mailboxes box (some b);
      in_state = r.waits.in_state;
      chain = r.waits.chain;
      end = r.waits.end;
      count = r.waits.count;
    } in
    let held3 : (q : Ptr) → has q ps ≡ true → Held s3 q = λ q i. record {
      message = (held q i).message;
      at = r.others q (ne_of_has ps i out) ∙ (held q i).at;
      counted = (held q i).counted;
    } in
    let (u, e', d) = task_destroy-Ended fuel s3 t box task_processing ps l3 h3 held3 lt in
    let at = d.others p out ∙ r.answer in
    (
      u,
      rw (
        set_state-some s t box st l task_processing,
        load s1 t box task_processing l1,
        e,
        set_last_message s2 box last mbox_alive ps r.waits,
        e',
      ),
      record {
        dead = d.dead;
        keeps_last = d.keeps_last;
        answered = λ q i. elim (has_cons q p ps i) [
          | inl same ↦
              subst (λ x. mailbox_wait_for_reply x u ≡ some (true, u)) (sym same)
                (wait_ready u p reply m a.ne_null at)
          | inr in_ps ↦ d.answered q in_ps
        ];
        others = λ q o. d.others q (ground (arith, o)) ∙ r.others q (ground (arith, o));
        gone = d.gone;
        tasks = λ c ne. d.tasks c ne ∙ ap (λ f. f c) r.tasks ∙ update_other s.tasks t c _ ne;
        queue = d.queue ∙ r.queue;
      },
      at,
    )
