-- ===== src/Blocks/Mailbox/FreedOnce.antt =====
-- A message over its whole history.
use blocks.Prelude.{
  ◌≡◌, refl, sym, ◌∙◌, ◌≢◌, ◌⊎◌, ◌↔◌, inl, inr, same_result, true, false, ◌&&◌, none, some,
}
use blocks.Blocks.Store.{Ptr, null, Store}
use blocks.Blocks.Mailbox.{new_message, is_answered}
use blocks.Blocks.Mailbox.Lifecycle.{
  Event, Phase, run_event, phase_after, Allowed, Life, run_event-Life,
}

-- A history of one message: its events, and between them whatever leaves the message alone and
-- frees no content.
pub data History (p : Ptr) : Store → Phase → Store → Phase → Type 0 where
  done : {s : Store} {ph : Phase} → History p s ph s ph
  event :
      {s t u : Store} {ph ph' : Phase} (e : Event)
      → Allowed s p ph e
      → run_event p e s ≡ some (tt, t)
      → History p t (phase_after e ph) u ph'
      → History p s ph u ph'
  elsewhere :
      {s t u : Store} {ph ph' : Phase}
      → t.messages p ≡ s.messages p
      → ((c : Ptr) → s.contents c ≡ true → t.contents c ≡ true)
      → History p t ph u ph'
      → History p s ph u ph'

elsewhere-Life :
    (s t : Store) (p : Ptr) (ph : Phase)
    → t.messages p ≡ s.messages p
    → ((c : Ptr) → s.contents c ≡ true → t.contents c ≡ true)
    → Life s p ph
    → Life t p ph
elsewhere-Life s t p ph m c (inl l) = inl (record {
  message = l.message;
  at = m ∙ l.at;
  counted = l.counted;
  state = l.state;
  content = elim l.content [ inl e ↦ inl e | inr e ↦ inr (c l.message.content e) ];
  order = l.order;
  held = l.held;
})
elsewhere-Life s t p ph m c (inr f) = inr (record { gone = m ∙ f.gone; both = f.both })

History-Life :
    {p : Ptr} {s u : Store} {ph ph' : Phase}
    → p ≢ null
    → History p s ph u ph'
    → Life s p ph
    → Life u p ph'
History-Life ne done l = l
History-Life {p} ne (event {s} {t} {u} {ph} e a r h) l =
    let (t', r', l') = run_event-Life s p ne e ph a l in
    History-Life ne h (same_result (λ _ x. Life x p (phase_after e ph)) (run_event p e s) r' r l')
History-Life {p} ne (elsewhere {s} {t} {ph} m c h) l =
    History-Life ne h (elsewhere-Life s t p ph m c l)

abbrev pub sent : Phase
sent = record { answered = false; receiver_done = false; sender_done = false }

freed_iff :
    (u : Store) (p : Ptr) (ph : Phase)
    → Life u p ph
    → (u.messages p ≡ none) ↔ ((ph.receiver_done && ph.sender_done) ≡ true)
freed_iff u p ph (inl l) = (λ e. cc (sym l.at ∙ e), λ e. cc (sym l.held ∙ e))
freed_iff u p ph (inr f) = (λ _. f.both, λ _. f.gone)

sent-Life :
    (s : Store) (p sender box content : Ptr)
    → s.messages p ≡ some (new_message sender box content)
    → (content ≡ null) ⊎ (s.contents content ≡ true)
    → Life s p sent
unfolding new_message
sent-Life s p sender box content at owned = inl (record {
  message = new_message sender box content;
  at = at;
  counted = refl;
  state = unfold is_answered in refl;
  content = owned;
  order = λ e. cc;
  held = refl;
})

-- A message that `mailbox_send` has just made, over every history of the events that the two sides may
-- do to it: it is freed exactly when both sides have dropped their reference.
pub History-freed :
    (p sender box content : Ptr) {s u : Store} {ph : Phase}
    → p ≢ null
    → s.messages p ≡ some (new_message sender box content)
    → (content ≡ null) ⊎ (s.contents content ≡ true)
    → History p s sent u ph
    → (u.messages p ≡ none) ↔ ((ph.receiver_done && ph.sender_done) ≡ true)
History-freed p sender box content {s} {u} {ph} ne at owned h =
    freed_iff u p ph (History-Life ne h (sent-Life s p sender box content at owned))

-- Behind every such history, the next event that is allowed runs: it makes no access to freed memory,
-- and no second `free` of a content.
pub History-progress :
    (p sender box content : Ptr) {s u : Store} {ph : Phase} (e : Event)
    → p ≢ null
    → s.messages p ≡ some (new_message sender box content)
    → (content ≡ null) ⊎ (s.contents content ≡ true)
    → History p s sent u ph
    → Allowed u p ph e
    → (v : Store) × (run_event p e u ≡ some (tt, v))
History-progress p sender box content {s} {u} {ph} e ne at owned h a =
    let l = History-Life ne h (sent-Life s p sender box content at owned) in
    let (v, r, _) = run_event-Life u p ne e ph a l in (v, r)
