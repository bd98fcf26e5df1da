-- ===== src/Blocks/Bindings/Sending.antt =====
-- mailbox.c, process.c and blocks.c: messages that are sent to a loaded process, which is idle or waits already.
use blocks.Prelude.{
  ◌≡◌, refl, sym, ap, ◌∙◌, ◌≢◌, subst, true, List, [], ◌∷◌, ◌++◌, none, some, ne→==,
}
use blocks.Prelude.Int.{pos}
use blocks.Blocks.Store.{Ptr, null, mbox_alive, Store, update, task_idle, task_waiting}
use blocks.Blocks.Mailbox.{new_message}
use blocks.Blocks.Mailbox.Chain.{has_of_none, update_self}
use blocks.Blocks.Mailbox.Queue.{Holds, load_mailbox-some}
use blocks.Blocks.Mailbox.Posted.{Relinked, post-Framed}
use blocks.Blocks.Process.{is_idle, append_item, push_task, process_notify_task, mailbox_send}
use blocks.Blocks.Process.LateNotify.{Loaded, load}
use blocks.Blocks.Process.Reply.{Awaited}
use blocks.Blocks.Process.Round.{state_after, queue_after}
use blocks.Blocks.Bindings.{l_message_send}
use blocks.Blocks.Bindings.Service.{Apart, Sent}
use blocks.Blocks.Bindings.Awaiting.{Sent-snoc, Sent-tasks}

-- The task `t` is loaded; it is idle if no message waits, and else alone in the queue. The senders of the messages
-- `ps` await their answers.
pub record Ready (s : Store) (t box : Ptr) (ps : List Ptr) : Type 0 where
  pub loaded : Loaded s t box (state_after ps)
  pub holds : Holds s box mbox_alive ps
  pub task : holds.mailbox.task ≡ t
  pub queue : s.task_queue ≡ queue_after ps t []
  pub sent : Sent s ps

-- The store when the task has been notified of a message behind `ps`.
abbrev notified : Store → Ptr → Ptr → List Ptr → Store
notified s t box [] = record s {
  tasks =
      update s.tasks t (some (record { mailbox = box; is_loaded = true; state = task_waiting }));
  task_queue = append_item s.task_queue t;
}
notified s t box (p ∷ ps) = s

notify_lem :
    (s : Store) (t box : Ptr) (ps : List Ptr)
    → Loaded s t box (state_after ps)
    → process_notify_task t s ≡ some (tt, notified s t box ps)
unfolding process_notify_task push_task is_idle
notify_lem s t box [] l = rw (load s t box task_idle l)
notify_lem s t box (p ∷ ps) l = rw (load s t box task_waiting l)

notified-Loaded :
    (s : Store) (t box : Ptr) (ps : List Ptr)
    → Loaded s t box (state_after ps)
    → Loaded (notified s t box ps) t box task_waiting
notified-Loaded s t box [] l = record { ne_null = l.ne_null; at = update_self s.tasks t _ }
notified-Loaded s t box (p ∷ ps) l = l

notified_queue :
    (s : Store) (t box : Ptr) (ps : List Ptr)
    → s.task_queue ≡ queue_after ps t []
    → (notified s t box ps).task_queue ≡ t ∷ []
unfolding append_item
notified_queue s t box [] e = ap (λ q. append_item q t) e
notified_queue s t box (p ∷ ps) e = e

state_snoc : (ps : List Ptr) (x : Ptr) → state_after (ps ++ x ∷ []) ≡ task_waiting
state_snoc [] x = refl
state_snoc (p ∷ ps) x = refl

queue_snoc : (ps : List Ptr) (x t : Ptr) → queue_after (ps ++ x ∷ []) t [] ≡ t ∷ []
unfolding append_item
queue_snoc [] x t = refl
queue_snoc (p ∷ ps) x t = refl

-- Once the task is notified, it waits.
notified-Ready :
    (s : Store) (t box x : Ptr) (ps qs : List Ptr) (h : Holds s box mbox_alive (qs ++ x ∷ []))
    → Loaded s t box (state_after ps)
    → s.task_queue ≡ queue_after ps t []
    → h.mailbox.task ≡ t
    → Sent s (qs ++ x ∷ [])
    → Ready (notified s t box ps) t box (qs ++ x ∷ [])
unfolding append_item
notified-Ready s t box x [] qs h l q owner sent =
    let u = notified s t box [] in
    record {
      loaded = rw (state_snoc qs x) (notified-Loaded s t box [] l);
      holds = record {
        mailbox = h.mailbox;
        ne_null = h.ne_null;
        at_box = h.at_box;
        in_state = h.in_state;
        chain = h.chain;
        end = h.end;
        count = h.count;
      };
      task = owner;
      queue = notified_queue s t box [] q ∙ sym (queue_snoc qs x t);
      sent = Sent-tasks s u.tasks u.task_queue (qs ++ x ∷ []) sent;
    }
notified-Ready s t box x (p ∷ ps) qs h l q owner sent = record {
  loaded = rw (state_snoc qs x) l;
  holds = h;
  task = owner;
  queue = q ∙ sym (queue_snoc qs x t);
  sent = sent;
}

-- `notified` leaves messages and contents as they were.
notified_same :
    (s : Store) (t box : Ptr) (ps : List Ptr)
    → ((notified s t box ps).messages ≡ s.messages) × ((notified s t box ps).contents ≡ s.contents)
notified_same s t box [] = (refl, refl)
notified_same s t box (p ∷ ps) = (refl, refl)

-- A message that is being sent: who sends it, its content, and its address.
pub record Sending : Type 0 where
  pub sender : Ptr
  pub content : Ptr
  pub fresh : Ptr

-- It is new, and its content is its own.
pub record New (s : Store) (ps : List Ptr) (x : Sending) : Type 0 where
  pub fresh_ne : x.fresh ≢ null
  pub free : s.messages x.fresh ≡ none
  pub content_ne : x.content ≢ null
  pub owned : s.contents x.content ≡ true
  pub apart : Apart s x.content ps

pub content_new :
    (a b c : Ptr) → ((new_message a b c).content ≡ c) × ((new_message a b c).ref_count ≡ pos 2)
unfolding new_message
content_new a b c = (refl, refl)

pub l_message_send-Ready :
    (s : Store) (t box : Ptr) (ps : List Ptr) (x : Sending)
    → Ready s t box ps
    → New s ps x
    → (u : Store) × (l_message_send x.sender box x.content x.fresh s ≡ some (some x.fresh, u))
      × Ready u t box (ps ++ x.fresh ∷ [])
      × (u.messages x.fresh ≡ some (new_message x.sender box x.content))
      × ((a : Ptr) → a ≢ x.fresh → Relinked (s.messages a) (u.messages a) x.fresh)
      × (u.contents ≡ s.contents)
unfolding l_message_send mailbox_send
l_message_send-Ready s t box ps x r n =
    let (s1, posted, h, same_task, at, f) =
      post-Framed s box x.sender x.content x.fresh ps r.holds n.fresh_ne n.free in
    let l : Loaded s1 t box (state_after ps) = record {
      ne_null = r.loaded.ne_null;
      at = ap (λ g. g t) f.tasks ∙ r.loaded.at;
    } in
    let new = new_message x.sender box x.content in
    let (content, count) = content_new x.sender box x.content in
    let a : Awaited s1 x.fresh new = record {
      ne_null = n.fresh_ne;
      at = at;
      counted = count;
      content_ne = λ e. n.content_ne (sym content ∙ e);
      owned = ap s1.contents content ∙ ap (λ g. g x.content) f.contents ∙ n.owned;
    } in
    let apart : Apart s new.content ps = subst (λ c. Apart s c ps) (sym content) n.apart in
    let out = has_of_none x.fresh r.holds.chain n.free in
    let owner = same_task ∙ r.task in
    let sent = Sent-snoc s s1 x.fresh new f.messages at ps out f.contents a apart r.sent in
    let (messages, contents) = notified_same s1 t box ps in
    (
      notified s1 t box ps,
      rw (
        posted,
        ne→== x.fresh null n.fresh_ne,
        load_mailbox-some s1 box h.mailbox h.ne_null h.at_box,
        owner,
        notify_lem s1 t box ps l,
        ne→== x.fresh null n.fresh_ne,
      ),
      notified-Ready s1 t box x.fresh ps ps h l (f.queue ∙ r.queue) owner sent,
      ap (λ g. g x.fresh) messages ∙ at,
      λ b ne. rw messages (f.messages b ne),
      contents ∙ f.contents,
    )
