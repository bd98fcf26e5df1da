-- ===== src/Blocks/Bindings/Awaiting.antt =====
-- mailbox.c and blocks.c: the messages of which the senders await the answers, when another one is sent.
use blocks.Prelude.{
  ◌≡◌, refl, sym, ap, ◌∙◌, ◌≢◌, subst, true, false, List, [], ◌∷◌, ◌++◌, Option, none, some, arith,
  ◌==◌, inl, inr, Bool-cases,
}
use blocks.Prelude.Int.{ℤ, pos}
use blocks.Blocks.Store.{Ptr, null, Message, Store, Task}
use blocks.Blocks.Mailbox.Chain.{has, has-append}
use blocks.Blocks.Mailbox.Posted.{Relinked}
use blocks.Blocks.Process.Reply.{Awaited}
use blocks.Blocks.Bindings.Service.{Apart, Sent}

abbrev content_in : Option Message → Ptr
content_in none = null
content_in (some m) = m.content

abbrev count_in : Option Message → ℤ
count_in none = pos 0
count_in (some m) = m.ref_count

-- A message that is awaited stays so, with its content, when another one is sent.
Awaited-Relinked :
    (s t : Store) (fresh p : Ptr) (m : Message)
    → Relinked (s.messages p) (t.messages p) fresh
    → t.contents ≡ s.contents
    → Awaited s p m
    → (m' : Message) × Awaited t p m' × (m'.content ≡ m.content)
Awaited-Relinked s t fresh p m relinked contents a = elim relinked [
  | inl same ↦ (
    m,
    record {
      ne_null = a.ne_null;
      at = same ∙ a.at;
      counted = a.counted;
      content_ne = a.content_ne;
      owned = ap (λ g. g m.content) contents ∙ a.owned;
    },
    refl,
  )
  | inr (m0, old, new) ↦
      let content : m0.content ≡ m.content = ap content_in (sym old ∙ a.at) in
      (
        record m0 { next = fresh },
        record {
          ne_null = a.ne_null;
          at = new;
          counted = ap count_in (sym old ∙ a.at) ∙ a.counted;
          content_ne = λ e. a.content_ne (sym content ∙ e);
          owned = ap (λ g. g m0.content) contents ∙ ap s.contents content ∙ a.owned;
        },
        content,
      )
]

module _ (s t : Store) (fresh : Ptr) (new : Message)
    (relinked : (a : Ptr) → a ≢ fresh → Relinked (s.messages a) (t.messages a) fresh)
    (at : t.messages fresh ≡ some new) where
  -- A content that no message of the list has, and the new one neither.
  pub Apart-snoc :
      (c : Ptr) (ps : List Ptr) → new.content ≢ c → Apart s c ps → Apart t c (ps ++ fresh ∷ [])
  Apart-snoc c ps ne apart q n i e = elim (Bool-cases (q == fresh)) [
    | inl k ↦
        let same : q ≡ fresh = ground (arith, k) in
        let content : n.content ≡ new.content = ap content_in (sym e ∙ ap t.messages same ∙ at) in
        λ bad. ne (sym content ∙ bad)
    | inr k ↦
        let i' : has q ps ≡ true = ground (arith, k, i, has-append q ps (fresh ∷ [])) in
        elim (relinked q (ground (arith, k))) [
          | inl same ↦ apart q n i' (sym same ∙ e)
          | inr (m, old, is_new) ↦
              let content : n.content ≡ m.content = ap content_in (sym e ∙ is_new) in
              λ bad. apart q m i' old (sym content ∙ bad)
        ]
  ]

  pub Sent-snoc :
      (ps : List Ptr)
      → has fresh ps ≡ false
      → t.contents ≡ s.contents
      → Awaited t fresh new
      → Apart s new.content ps
      → Sent s ps
      → Sent t (ps ++ fresh ∷ [])
  Sent-snoc [] out contents a apart sent = (new, a, λ q m i e. cc, tt)
  Sent-snoc (p ∷ ps) out contents a apart (m, b, own, rest) =
      let (m', b', content) =
        Awaited-Relinked s t fresh p m (relinked p (ground (arith, out))) contents b in
      let ne : m.content ≢ new.content = apart p m (ground arith) b.at in
      (
        m',
        b',
        subst (λ c. Apart t c (ps ++ fresh ∷ [])) (sym content)
            (Apart-snoc m.content ps (λ e. ne (sym e)) own),
        Sent-snoc ps (ground (arith, out)) contents a (λ q n i e. apart q n (ground (arith, i)) e)
            rest,
      )

-- What tasks and queue are does not matter to messages that are awaited.
pub Sent-tasks :
    (s : Store) (tasks : Ptr → Option Task) (q ps : List Ptr)
    → Sent s ps
    → Sent (record s { tasks = tasks; task_queue = q }) ps
Sent-tasks s tasks q [] sent = sent
Sent-tasks s tasks q (p ∷ ps) (m, a, own, rest) = (
  m,
  record {
    ne_null = a.ne_null;
    at = a.at;
    counted = a.counted;
    content_ne = a.content_ne;
    owned = a.owned;
  },
  own,
  Sent-tasks s tasks q ps rest,
)
