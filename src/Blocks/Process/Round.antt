-- ===== src/Blocks/Process/Round.antt =====
-- process.c: the round of a worker on a loaded task that has a message.
use blocks.Prelude.{ℕ, ◌≡◌, refl, ap, ◌∙◌, ◌≢◌, true, false, List, [], ◌∷◌, some, ne→==}
use blocks.Blocks.Store.{
  Ptr, null, Message, MailboxState, Store, update, TaskState, task_idle, task_waiting,
  task_processing,
}
use blocks.Blocks.Mailbox.Chain.{has, ne_of_has, frame, update_self, update_other}
use blocks.Blocks.Mailbox.Queue.{Holds, mailbox_receive-frame, mailbox_peek-first}
use blocks.Blocks.Process.{
  Outcome, append_item, push_task, is_idle, process_notify_task, take_message, run_task, recheck,
  worker_round,
}
use blocks.Blocks.Process.Drain.{Chain-out, Chain-ne}
use blocks.Blocks.Process.LateNotify.{
  Loaded, load, in_state, set_state-some, in_state-Loaded, Holds-tasks,
}
use blocks.Blocks.Process.Reply.{
  with_message, without_content, Awaited, destroy_content, replied, answered, give_reply-answered,
  answered_other, answered_self,
}

-- What the run of a loaded task leaves: the message `p` is answered, and the messages behind it wait.
pub record Ran (s : Store) (box : Ptr) (ms : MailboxState) (p : Ptr) (m : Message) (ps : List Ptr)
    (reply : Ptr) (t : Store) : Type 0 where
  pub waits : Holds t box ms ps
  pub answer : t.messages p ≡ some (replied m reply)
  pub others : (a : Ptr) → a ≢ p → t.messages a ≡ s.messages a
  pub tasks : t.tasks ≡ s.tasks
  pub queue : t.task_queue ≡ s.task_queue
  pub contents : t.contents ≡ update s.contents m.content false

-- A mailbox survives a change of messages that are not in it.
messages-Holds :
    (s : Store) (box : Ptr) (ms : MailboxState) (ps : List Ptr) (t : Store)
    → t.mailboxes ≡ s.mailboxes
    → ((a : Ptr) → has a ps ≡ true → t.messages a ≡ s.messages a)
    → Holds s box ms ps
    → Holds t box ms ps
messages-Holds s box ms ps t e same h = record {
  mailbox = h.mailbox;
  ne_null = h.ne_null;
  at_box = ap (λ f. f box) e ∙ h.at_box;
  in_state = h.in_state;
  chain = frame h.chain same;
  end = h.end;
  count = h.count;
}

module _ (s : Store) (box p : Ptr) (ms : MailboxState) (m : Message) (ps : List Ptr)
    (a : Awaited s p m) (h : Holds s box ms (p ∷ ps)) (outcome : Outcome) where
  pub run-Ran :
      (t : Ptr) (st : TaskState)
      → Loaded s t box st
      → (u : Store) × (run_task t box outcome s ≡ some (tt, u))
        × Ran s box ms p m ps outcome.reply u
  unfolding run_task take_message
  run-Ran t st l =
      let (boxes, received, h1, last) = mailbox_receive-frame s box p ms ps h in
      let s1 : Store = record s { mailboxes = boxes } in
      let s2 : Store =
        with_message (without_content s1 m.content) p (record m { content = null }) in
      let destroyed = destroy_content p a.ne_null s1 m a.at a.content_ne a.owned in
      let at2 = update_self s.messages p (some (record m { content = null })) in
      let given =
        give_reply-answered p a.ne_null s2 (record m { content = null }) at2 a.counted
          outcome.reply in
      let u = answered p a.ne_null s2 (record m { content = null }) at2 a.counted outcome.reply in
      let others : (b : Ptr) → b ≢ p → u.messages b ≡ s.messages b = λ b ne.
        answered_other p a.ne_null s2 (record m { content = null }) at2 a.counted outcome.reply b ne
        ∙ update_other s.messages p b (some (record m { content = null })) ne in
      (
        u,
        rw (load s t box st l, received, ne→== p null a.ne_null, destroyed, given),
        record {
          waits =
              messages-Holds s1 box ms ps u refl
                (λ b i. others b (ne_of_has ps i (Chain-out h.chain))) h1;
          answer =
              answered_self p a.ne_null s2 (record m { content = null }) at2 a.counted
                outcome.reply;
          others = others;
          tasks = refl;
          queue = refl;
          contents = refl;
        },
      )

-- The task behind a round: it is idle, or in the queue again if more messages wait.
abbrev pub state_after : List Ptr → TaskState
state_after [] = task_idle
state_after (p ∷ ps) = task_waiting

abbrev pub queue_after : List Ptr → Ptr → List Ptr → List Ptr
queue_after [] t queue = queue
queue_after (p ∷ ps) t queue = append_item queue t

abbrev pub rechecked : (s : Store) (t box : Ptr) → List Ptr → Store
rechecked s t box [] = s
rechecked s t box (p ∷ ps) = record s {
  tasks =
      update s.tasks t (some (record { mailbox = box; is_loaded = true; state = task_waiting }));
  task_queue = append_item s.task_queue t;
}

recheck_lem :
    (s : Store) (t box : Ptr) (ms : MailboxState) (ps : List Ptr)
    → Loaded s t box task_idle
    → Holds s box ms ps
    → recheck t box s ≡ some (tt, rechecked s t box ps)
unfolding recheck process_notify_task push_task is_idle
recheck_lem s t box ms [] l h = rw (mailbox_peek-first s box ms [] h)
recheck_lem s t box ms (p ∷ ps) l h = rw (
  mailbox_peek-first s box ms (p ∷ ps) h,
  ne→== p null (Chain-ne h.chain),
  load s t box task_idle l,
)

-- What a round leaves.
pub record Rounded (s : Store) (t box : Ptr) (ms : MailboxState) (p : Ptr) (m : Message)
    (ps : List Ptr) (reply : Ptr) (u : Store) : Type 0 where
  pub waits : Holds u box ms ps
  pub answer : u.messages p ≡ some (replied m reply)
  pub others : (a : Ptr) → a ≢ p → u.messages a ≡ s.messages a
  pub loaded : Loaded u t box (state_after ps)
  pub tasks : (a : Ptr) → a ≢ t → u.tasks a ≡ s.tasks a
  pub queue : u.task_queue ≡ queue_after ps t s.task_queue
  pub contents : u.contents ≡ update s.contents m.content false

rechecked-Loaded :
    (s : Store) (t box : Ptr) (ps : List Ptr)
    → Loaded s t box task_idle
    → Loaded (rechecked s t box ps) t box (state_after ps)
rechecked-Loaded s t box [] l = l
rechecked-Loaded s t box (p ∷ ps) l = record { ne_null = l.ne_null; at = update_self s.tasks t _ }

rechecked-Holds :
    (s : Store) (t box : Ptr) (ms : MailboxState) (ps : List Ptr)
    → Holds s box ms ps
    → Holds (rechecked s t box ps) box ms ps
rechecked-Holds s t box ms [] h = h
rechecked-Holds s t box ms (p ∷ ps) h =
    messages-Holds s box ms (p ∷ ps) (rechecked s t box (p ∷ ps)) refl (λ a i. refl) h

-- The fields that `rechecked` does not change, and the queue.
record Kept (s : Store) (t : Ptr) (ps : List Ptr) (u : Store) : Type 0 where
  messages : u.messages ≡ s.messages
  contents : u.contents ≡ s.contents
  tasks : (a : Ptr) → a ≢ t → u.tasks a ≡ s.tasks a
  queue : u.task_queue ≡ queue_after ps t s.task_queue

rechecked-Kept : (s : Store) (t box : Ptr) (ps : List Ptr) → Kept s t ps (rechecked s t box ps)
rechecked-Kept s t box [] = record {
  messages = refl;
  contents = refl;
  tasks = λ a ne. refl;
  queue = refl;
}
rechecked-Kept s t box (p ∷ ps) = record {
  messages = refl;
  contents = refl;
  tasks = λ a ne. update_other s.tasks t a _ ne;
  queue = refl;
}

module _ (s : Store) (t box p : Ptr) (st : TaskState) (ms : MailboxState) (m : Message)
    (ps : List Ptr) (l : Loaded s t box st) (a : Awaited s p m) (h : Holds s box ms (p ∷ ps)) where
  -- Up to the evaluation's end.
  abbrev pub processing : Store
  processing = in_state s t box st l task_processing

  pub runs :
      (outcome : Outcome)
      → (u : Store) × (run_task t box outcome processing ≡ some (tt, u))
        × Ran processing box ms p m ps outcome.reply u
  runs outcome =
      let l1 = in_state-Loaded s t box st l task_processing in
      let h1 = Holds-tasks s box ms (p ∷ ps) processing.tasks s.task_queue h in
      let a1 : Awaited processing p m = record {
        ne_null = a.ne_null;
        at = a.at;
        counted = a.counted;
        content_ne = a.content_ne;
        owned = a.owned;
      } in
      run-Ran processing box p ms m ps a1 h1 outcome t task_processing l1

  pub ran-Loaded :
      (reply : Ptr) (u : Store)
      → Ran processing box ms p m ps reply u
      → Loaded u t box task_processing
  ran-Loaded reply u r = record {
    ne_null = l.ne_null;
    at = ap (λ f. f t) r.tasks ∙ update_self s.tasks t _;
  }

  -- A round on a task that is loaded and has messages, each sent with a content and awaited, in which the
  -- function leaves a function: the oldest message is answered with the content that the function gave, the
  -- others wait as before, and the task is at the end of the queue if there are others, and idle if not.
  pub worker_round-Rounded :
      (fuel : ℕ) (reply last : Ptr)
      → (u : Store) × (worker_round fuel t
            (record { do_continue = true; reply = reply; last = last })
            s
          ≡ some (tt, u))
        × Rounded s t box ms p m ps reply u
  unfolding worker_round
  worker_round-Rounded fuel reply last =
      let l1 = in_state-Loaded s t box st l task_processing in
      let (u, e, r) = runs (record { do_continue = true; reply = reply; last = last }) in
      let l2 = ran-Loaded reply u r in
      let u2 = in_state u t box task_processing l2 task_idle in
      let l3 = in_state-Loaded u t box task_processing l2 task_idle in
      let h3 = Holds-tasks u box ms ps u2.tasks u.task_queue r.waits in
      let kept = rechecked-Kept u2 t box ps in
      (
        rechecked u2 t box ps,
        rw (
          set_state-some s t box st l task_processing,
          load processing t box task_processing l1,
          e,
          set_state-some u t box task_processing l2 task_idle,
          recheck_lem u2 t box ms ps l3 h3,
        ),
        record {
          waits = rechecked-Holds u2 t box ms ps h3;
          answer = ap (λ f. f p) kept.messages ∙ r.answer;
          others = λ b ne. ap (λ f. f b) kept.messages ∙ r.others b ne;
          loaded = rechecked-Loaded u2 t box ps l3;
          tasks = λ b ne.
              kept.tasks b ne
              ∙ update_other u.tasks t b _ ne
              ∙ ap (λ f. f b) r.tasks
              ∙ update_other s.tasks t b _ ne;
          queue = kept.queue ∙ ap (queue_after ps t) r.queue;
          contents = kept.contents ∙ r.contents;
        },
      )
