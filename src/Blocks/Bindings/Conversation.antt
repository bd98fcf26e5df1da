-- ===== src/Blocks/Bindings/Conversation.antt =====
-- blocks.c, mailbox.c and process.c: messages that are sent to a process, and its worker that answers them.
use blocks.Prelude.{
  ℕ, suc, inl, inr, append-nil, ◌≡◌, refl, sym, ap, ◌∙◌, ◌≢◌, subst, List, [], ◌∷◌, ◌++◌, none,
  some, length, append_assoc,
}
use blocks.Blocks.Store.{Ptr, mbox_alive, Store, Cmd, pure, ◌>>=◌, ◌>>◌, task_idle, task_waiting}
use blocks.Blocks.Mailbox.{new_message}
use blocks.Blocks.Mailbox.Queue.{Holds}
use blocks.Blocks.Mailbox.Posted.{Relinked}
use blocks.Blocks.Process.{worker, append_item}
use blocks.Blocks.Process.LateNotify.{Loaded}
use blocks.Blocks.Bindings.{l_message_send}
use blocks.Blocks.Bindings.Service.{AllAnswered, outcomes, worker-Served}
use blocks.Blocks.Bindings.Awaiting.{Apart-snoc}
use blocks.Blocks.Bindings.Sending.{Ready, Sending, New, content_new, l_message_send-Ready}

-- Calls of `send` on one mailbox, one after another.
unfoldable pub send_all : Ptr → List Sending → Cmd (Unit {0})
send_all box [] = pure tt
send_all box (x ∷ xs) = do _ ← l_message_send x.sender box x.content x.fresh; send_all box xs

abbrev pub messages_of : List Sending → List Ptr
messages_of [] = []
messages_of (x ∷ xs) = x.fresh ∷ messages_of xs

-- Neither the addresses nor the contents are that of `x`.
abbrev pub AllOther : Sending → List Sending → Type 0
AllOther x [] = Unit {0}
AllOther x (y ∷ ys) = (y.fresh ≢ x.fresh) × (y.content ≢ x.content) × AllOther x ys

abbrev pub AllNew : Store → List Ptr → List Sending → Type 0
AllNew s ps [] = Unit {0}
AllNew s ps (x ∷ xs) = New s ps x × AllOther x xs × AllNew s ps xs

still_free :
    (s u : Store) (a fresh : Ptr)
    → Relinked (s.messages a) (u.messages a) fresh
    → s.messages a ≡ none
    → u.messages a ≡ none
still_free s u a fresh relinked free = elim relinked [
  | inl same ↦ same ∙ free
  | inr (m, old, new) ↦ cc
]

module _ (s u : Store) (box : Ptr) (ps : List Ptr) (x : Sending)
    (at : u.messages x.fresh ≡ some (new_message x.sender box x.content))
    (relinked : (a : Ptr) → a ≢ x.fresh → Relinked (s.messages a) (u.messages a) x.fresh)
    (contents : u.contents ≡ s.contents) where
  AllNew-snoc :
      (xs : List Sending) → AllOther x xs → AllNew s ps xs → AllNew u (ps ++ x.fresh ∷ []) xs
  AllNew-snoc [] other new = tt
  AllNew-snoc (y ∷ ys) (apart, own, other) (n, others, new) =
      let (content, _) = content_new x.sender box x.content in
      (
        record {
          fresh_ne = n.fresh_ne;
          free = still_free s u y.fresh x.fresh (relinked y.fresh apart) n.free;
          content_ne = n.content_ne;
          owned = ap (λ g. g y.content) contents ∙ n.owned;
          apart =
              Apart-snoc s u x.fresh (new_message x.sender box x.content) relinked at y.content ps
                (λ e. own (sym e ∙ content)) n.apart;
        },
        others,
        AllNew-snoc ys other new,
      )

send_all-Ready :
    (s : Store) (t box : Ptr) (ps : List Ptr) (xs : List Sending)
    → Ready s t box ps
    → AllNew s ps xs
    → (u : Store) × (send_all box xs s ≡ some (tt, u)) × Ready u t box (ps ++ messages_of xs)
unfolding send_all
send_all-Ready s t box ps [] r new = (s, refl, subst (Ready s t box) (sym (append-nil ps)) r)
send_all-Ready s t box ps (x ∷ xs) r (n, other, new) =
    let (s1, e, r1, at, relinked, contents) = l_message_send-Ready s t box ps x r n in
    let new1 = AllNew-snoc s s1 box ps x at relinked contents xs other new in
    let (u, e', r') = send_all-Ready s1 t box (ps ++ x.fresh ∷ []) xs r1 new1 in
    (u, rw (e, e'), subst (Ready u t box) (append_assoc ps (x.fresh ∷ []) (messages_of xs)) r')

length-messages_of : (xs : List Sending) → length (messages_of xs) ≡ length xs
length-messages_of [] = refl
length-messages_of (x ∷ xs) = ap suc (length-messages_of xs)

-- Messages are sent to a process that is loaded and idle, with an empty mailbox, while no task is in the queue; each has a
-- new address and an allocated content of its own. Then a worker serves them all, in as many rounds, if the process's
-- function leaves a function each time: no access faults, each sender that calls `get` has the reply to its own
-- message, in the order in which they were sent, and the process is idle again with an empty mailbox and an empty queue.
pub worker-send_all :
    (fuel : ℕ) (s : Store) (t box : Ptr) (x : Sending) (xs : List Sending) (rs : List Ptr)
    → Ready s t box []
    → AllNew s [] (x ∷ xs)
    → length rs ≡ length (x ∷ xs)
    → (u : Store) × ((do send_all box (x ∷ xs); worker fuel (outcomes rs)) s ≡ some (tt, u))
      × Loaded u t box task_idle
      × Holds u box mbox_alive []
      × (u.task_queue ≡ [])
      × AllAnswered u (messages_of (x ∷ xs)) rs
worker-send_all fuel s t box x xs rs r new len =
    let (s1, e, r1) = send_all-Ready s t box [] (x ∷ xs) r new in
    let l : Loaded s1 t box task_waiting = record {
      ne_null = r1.loaded.ne_null;
      at = r1.loaded.at;
    } in
    let (u, e', (idle, empty, queue, answers, same)) =
      worker-Served fuel t box x.fresh mbox_alive (messages_of xs) rs s1 task_waiting
        (len ∙ sym (length-messages_of (x ∷ xs))) l r1.holds r1.sent
        (r1.queue ∙ unfold append_item in refl) in
    (u, rw (e, e'), idle, empty, queue, answers)
