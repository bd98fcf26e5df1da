-- ===== src/Http/Parsers/Owned.antt =====
-- Which parser owns which string.
use blocks.Prelude.{
  ◌≡◌, refl, sym, ap, ◌∙◌, ◌≢◌, subst, Bool, true, false, Option, none, some, arith, ◌==◌, ◌⊎◌, inl,
  inr, Bool-cases,
}
use blocks.Blocks.Store.{Ptr, null, update}
use blocks.Blocks.Mailbox.Chain.{update_self, update_other}
use blocks.Http.Parsers.{Strings, Heap}

abbrev pub Refers : Strings → Ptr → Type 0
Refers c a = (c.path ≡ a) ⊎ (c.query ≡ a)

-- Each string is allocated and has one owner, and no other string is allocated.
pub record Owned (h : Heap) : Type 0 where
  pub held :
      (p : Ptr) (c : Strings) (a : Ptr)
      → h.parsers p ≡ some c
      → Refers c a
      → a ≢ null
      → h.allocated a ≡ true
  pub apart : (p : Ptr) (c : Strings) → h.parsers p ≡ some c → c.path ≢ null → c.path ≢ c.query
  pub unique :
      (p q : Ptr) (c d : Strings) (a : Ptr)
      → h.parsers p ≡ some c
      → h.parsers q ≡ some d
      → Refers c a
      → Refers d a
      → a ≢ null
      → p ≡ q
  pub owner :
      (a : Ptr)
      → h.allocated a ≡ true
      → (p : Ptr) × (c : Strings) × (h.parsers p ≡ some c) × Refers c a × (a ≢ null)

abbrev RefersIn : Option Strings → Ptr → Type 0
RefersIn none a = ⊥
RefersIn (some c) a = Refers c a

same-Refers : (c d : Strings) (a : Ptr) → some c ≡ some d → Refers c a → Refers d a
same-Refers c d a e r = subst (λ o. RefersIn o a) e r

abbrev ApartIn : Option Strings → Type 0
ApartIn none = ⊥
ApartIn (some c) = c.path ≢ null → c.path ≢ c.query

apart_of :
    (c d : Strings)
    → some c ≡ some d
    → (c.path ≢ null → c.path ≢ c.query)
    → d.path ≢ null
    → d.path ≢ d.query
apart_of c d e h = subst ApartIn e h

-- What stands at `q` after a write at `p`.
written :
    (f : Ptr → Option Strings) (p q : Ptr) (v : Option Strings) (e : Strings)
    → update f p v q ≡ some e
    → ((q ≡ p) × (v ≡ some e)) ⊎ ((q ≢ p) × (f q ≡ some e))
written f p q v e eq = elim (Bool-cases (q == p)) [
  | inl k ↦
      let same : q ≡ p = ground (arith, k) in
      inl (same, sym (update_self f p v) ∙ ap (update f p v) (sym same) ∙ eq)
  | inr k ↦ let ne : q ≢ p = ground (arith, k) in inr (ne, sym (update_other f p q v ne) ∙ eq)
]

module _ (h : Heap) (o : Owned h) (p : Ptr) (c : Strings) (at : h.parsers p ≡ some c)
    (allocated : Ptr → Bool)
    (keep : (a : Ptr) → h.allocated a ≡ true → ((Refers c a) → ⊥) → allocated a ≡ true) where
  -- What another parser has is kept.
  others-held :
      (q : Ptr) (e : Strings) (a : Ptr)
      → q ≢ p
      → h.parsers q ≡ some e
      → Refers e a
      → a ≢ null
      → allocated a ≡ true
  others-held q e a ne eq r n =
      keep a (o.held q e a eq r n) (λ rc. ne (o.unique q p e c a eq at r rc n))

  -- A string that is not among those of `p` has another owner.
  other : (a q : Ptr) (f : Strings) → h.parsers q ≡ some f → Refers f a → ((Refers c a) → ⊥) → q ≢ p
  other a q f eq rf out same =
      let is : some f ≡ some c = sym eq ∙ ap h.parsers same ∙ at in out (same-Refers f c a is rf)

  -- The parser has other strings.
  pub Owned-replace :
      (d : Strings)
      → ((a : Ptr) → Refers d a → a ≢ null → allocated a ≡ true)
      → (d.path ≢ null → d.path ≢ d.query)
      → ((a : Ptr) → Refers d a → a ≢ null → (Refers c a) ⊎ (h.allocated a ≡ false))
      → ((a : Ptr)
          → allocated a ≡ true
          → (Refers d a × (a ≢ null)) ⊎ ((h.allocated a ≡ true) × ((Refers c a) → ⊥)))
      → Owned (record { parsers = update h.parsers p (some d); allocated = allocated })
  Owned-replace d held apart new owner =
      let h' : Heap = record { parsers = update h.parsers p (some d); allocated = allocated } in
      -- The strings of another parser are not among the new ones.
      let clash : (q : Ptr) (e : Strings) (a : Ptr)
          → q ≢ p
          → h.parsers q ≡ some e
          → Refers e a
          → Refers d a
          → a ≢ null
          → ⊥ =
        λ q e a ne eq re rd n. elim (new a rd n) [
          | inl rc ↦ ne (o.unique q p e c a eq at re rc n)
          | inr free ↦ cc (o.held q e a eq re n)
        ] in
      record {
        held = λ q e a eq r n. elim (written h.parsers p q (some d) e eq) [
          | inl (same, is) ↦ held a (same-Refers e d a (sym is) r) n
          | inr (ne, old) ↦ others-held q e a ne old r n
        ];
        apart = λ q e eq. elim (written h.parsers p q (some d) e eq) [
          | inl (same, is) ↦ apart_of d e is apart
          | inr (ne, old) ↦ o.apart q e old
        ];
        unique = λ q r e f a eq er re rf n. elim (written h.parsers p q (some d) e eq) [
          | inl (same, is) ↦ elim (written h.parsers p r (some d) f er) [
            | inl (same', is') ↦ same ∙ sym same'
            | inr (ne', old') ↦ absurd (clash r f a ne' old' rf (same-Refers e d a (sym is) re) n)
          ]
          | inr (ne, old) ↦ elim (written h.parsers p r (some d) f er) [
            | inl (same', is') ↦ absurd (clash q e a ne old re (same-Refers f d a (sym is') rf) n)
            | inr (ne', old') ↦ o.unique q r e f a old old' re rf n
          ]
        ];
        owner = λ a e. elim (owner a e) [
          | inl (rd, n) ↦ (p, d, update_self h.parsers p (some d), rd, n)
          | inr (old, out) ↦
              let (q, f, eq, rf, n) = o.owner a old in
              (q, f, update_other h.parsers p q (some d) (other a q f eq rf out) ∙ eq, rf, n)
        ];
      }

  -- The parser is gone.
  pub Owned-remove :
      ((a : Ptr) → allocated a ≡ true → (h.allocated a ≡ true) × ((Refers c a) → ⊥))
      → Owned (record { parsers = update h.parsers p none; allocated = allocated })
  Owned-remove owner = record {
    held = λ q e a eq r n. elim (written h.parsers p q none e eq) [
      | inl (same, is) ↦ cc
      | inr (ne, old) ↦ others-held q e a ne old r n
    ];
    apart = λ q e eq. elim (written h.parsers p q none e eq) [
      | inl (same, is) ↦ cc
      | inr (ne, old) ↦ o.apart q e old
    ];
    unique = λ q r e f a eq er re rf n. elim (written h.parsers p q none e eq) [
      | inl (same, is) ↦ cc
      | inr (ne, old) ↦ elim (written h.parsers p r none f er) [
        | inl (same', is') ↦ cc
        | inr (ne', old') ↦ o.unique q r e f a old old' re rf n
      ]
    ];
    owner = λ a e.
        let (old, out) = owner a e in
        let (q, f, eq, rf, n) = o.owner a old in
        (q, f, update_other h.parsers p q none (other a q f eq rf out) ∙ eq, rf, n);
  }

-- A new parser has no strings.
pub Owned-insert :
    (h : Heap) (p : Ptr)
    → Owned h
    → h.parsers p ≡ none
    → Owned
        (record h { parsers = update h.parsers p (some (record { path = null; query = null })) })
Owned-insert h p o free =
    let d : Strings = record { path = null; query = null } in
    let no_string : (e : Strings) (a : Ptr) → some d ≡ some e → Refers e a → a ≢ null → ⊥ =
      λ e a is r n. elim (same-Refers e d a (sym is) r) [ inl x ↦ n (sym x) | inr x ↦ n (sym x) ] in
    record {
      held = λ q e a eq r n. elim (written h.parsers p q (some d) e eq) [
        | inl (same, is) ↦ absurd (no_string e a is r n)
        | inr (ne, old) ↦ o.held q e a old r n
      ];
      apart = λ q e eq. elim (written h.parsers p q (some d) e eq) [
        | inl (same, is) ↦ apart_of d e is (λ n. absurd (n refl))
        | inr (ne, old) ↦ o.apart q e old
      ];
      unique = λ q r e f a eq er re rf n. elim (written h.parsers p q (some d) e eq) [
        | inl (same, is) ↦ absurd (no_string e a is re n)
        | inr (ne, old) ↦ elim (written h.parsers p r (some d) f er) [
          | inl (same', is') ↦ absurd (no_string f a is' rf n)
          | inr (ne', old') ↦ o.unique q r e f a old old' re rf n
        ]
      ];
      owner = λ a e.
          let (q, f, eq, rf, n) = o.owner a e in
          let ne : q ≢ p = λ same. cc (sym eq ∙ ap h.parsers same ∙ free) in
          (q, f, update_other h.parsers p q (some d) ne ∙ eq, rf, n);
    }
