-- ===== src/Http/Parsers/Freed.antt =====
-- What `free` and `realloc` do to the strings of a parser.
use blocks.Prelude.{
  ◌≡◌, refl, sym, ap, ◌∙◌, ◌≢◌, subst, Bool, true, false, some, arith, ◌==◌, ◌⊎◌, inl, inr,
  Bool-cases, if◌then◌else◌,
}
use blocks.Blocks.Store.{Ptr, null, update}
use blocks.Blocks.Mailbox.Chain.{update_self, update_other}
use blocks.Http.Parsers.{Strings, Heap, free, realloc}
use blocks.Http.Parsers.Owned.{Refers, Owned, Owned-replace}

abbrev pub freed : Ptr → (Ptr → Bool) → Ptr → Bool
freed p allocated = if p == null then allocated else update allocated p false

pub free_lem :
    (p : Ptr) (allocated : Ptr → Bool)
    → (p ≢ null → allocated p ≡ true)
    → free p allocated ≡ some (freed p allocated)
unfolding free
free_lem p allocated held = elim (Bool-cases (p == null)) [
  | inl k ↦ rw k refl
  | inr k ↦ rw (k, held (ground (arith, k))) refl
]

pub freed_keep : (p a : Ptr) (f : Ptr → Bool) → f a ≡ true → a ≢ p → freed p f a ≡ true
freed_keep p a f e ne = elim (Bool-cases (p == null)) [
  | inl k ↦ rw k e
  | inr k ↦ rw k (update_other f p a false ne ∙ e)
]

cleared : (p a : Ptr) (f : Ptr → Bool) → update f p false a ≡ true → (f a ≡ true) × (a ≢ p)
cleared p a f e = elim (Bool-cases (a == p)) [
  | inl k ↦
      let same : a ≡ p = ground (arith, k) in
      absurd (cc (sym e ∙ ap (update f p false) same ∙ update_self f p false))
  | inr k ↦ let ne : a ≢ p = ground (arith, k) in (sym (update_other f p a false ne) ∙ e, ne)
]

freed_by :
    (b : Bool) (p a : Ptr) (f : Ptr → Bool)
    → (p == null) ≡ b
    → (if b then f else update f p false) a ≡ true
    → (f a ≡ true) × (p ≢ null → a ≢ p)
freed_by true p a f k e = (e, λ n. absurd (n (ground (arith, k))))
freed_by false p a f k e = let (kept, ne) = cleared p a f e in (kept, λ n. ne)

pub freed-true :
    (p a : Ptr) (f : Ptr → Bool) → freed p f a ≡ true → (f a ≡ true) × (p ≢ null → a ≢ p)
freed-true p a f e = freed_by (p == null) p a f refl e

put_keep : (p a : Ptr) (f : Ptr → Bool) → f a ≡ true → update f p true a ≡ true
put_keep p a f e = elim (Bool-cases (a == p)) [
  | inl k ↦ let same : a ≡ p = ground (arith, k) in ap (update f p true) same ∙ update_self f p true
  | inr k ↦ update_other f p a true (ground (arith, k)) ∙ e
]

put_true : (p a : Ptr) (f : Ptr → Bool) → update f p true a ≡ true → (a ≡ p) ⊎ (f a ≡ true)
put_true p a f e = elim (Bool-cases (a == p)) [
  | inl k ↦ inl (ground (arith, k))
  | inr k ↦ inr (sym (update_other f p a true (ground (arith, k))) ∙ e)
]

-- A string `old` of the parser is reallocated, and the string `rest` is its other one.
module _ (h : Heap) (o : Owned h) (p : Ptr) (c d : Strings) (at : h.parsers p ≡ some c)
    (old rest fresh : Ptr) (own_old : Refers c old) (own_rest : Refers c rest)
    (of_c : (a : Ptr) → Refers c a → (old ≡ a) ⊎ (rest ≡ a))
    (of_d : (a : Ptr) → Refers d a → (fresh ≡ a) ⊎ (rest ≡ a)) (d_fresh : Refers d fresh)
    (d_rest : Refers d rest) (distinct : old ≢ null → old ≢ rest) (ne : fresh ≢ null)
    (new : (h.allocated fresh ≡ false) ⊎ (fresh ≡ old)) where
  abbrev pub moved : Ptr → Bool
  moved = update (freed old h.allocated) fresh true

  realloc_lem : realloc old fresh h.allocated ≡ some moved
  unfolding realloc
  realloc_lem = rw (free_lem old h.allocated (λ n. o.held p c old at own_old n)) refl

  fresh_rest : fresh ≢ rest
  fresh_rest e = elim new [
    | inl free ↦ cc (o.held p c fresh at (subst (Refers c) (sym e) own_rest) ne)
    | inr same ↦ distinct (λ z. ne (same ∙ z)) (sym same ∙ e)
  ]

  rest_old : (a : Ptr) → rest ≡ a → a ≢ null → a ≢ old
  rest_old a e n same = distinct (λ z. n (same ∙ z)) (sym same ∙ sym e)

  moved-Owned :
      (d.path ≢ null → d.path ≢ d.query)
      → Owned (record { parsers = update h.parsers p (some d); allocated = moved })
  moved-Owned apart =
      Owned-replace h o p c at moved
        (λ a e out.
          put_keep fresh a (freed old h.allocated)
            (freed_keep old a h.allocated e (λ same. out (subst (Refers c) (sym same) own_old))))
        d
        (λ a r n. elim (of_d a r) [
          | inl e ↦ ap moved (sym e) ∙ update_self (freed old h.allocated) fresh true
          | inr e ↦ put_keep fresh a (freed old h.allocated) (
              freed_keep old a h.allocated (o.held p c a at (subst (Refers c) e own_rest) n)
                (rest_old a e n))
        ])
        apart
        (λ a r n. elim (of_d a r) [
          | inl e ↦ elim new [
            | inl free ↦ inr (ap h.allocated (sym e) ∙ free)
            | inr same ↦ inl (subst (Refers c) (sym same ∙ e) own_old)
          ]
          | inr e ↦ inl (subst (Refers c) e own_rest)
        ])
        (λ a e. elim (put_true fresh a (freed old h.allocated) e) [
          | inl same ↦ inl (subst (Refers d) (sym same) d_fresh, λ z. ne (sym same ∙ z))
          | inr was ↦
              let (kept, gone) = freed-true old a h.allocated was in
              let (q, f, eq, rf, n) = o.owner a kept in
              elim (Bool-cases (a == rest)) [
                | inl k ↦
                    let same : a ≡ rest = ground (arith, k) in
                    inl (subst (Refers d) (sym same) d_rest, n)
                | inr k ↦ inr (
                  kept,
                  λ rc. elim (of_c a rc) [
                    | inl e' ↦ gone (λ z. n (sym e' ∙ z)) (sym e')
                    | inr e' ↦ ground (arith, k, e')
                  ],
                )
              ]
        ])

  -- The call of `realloc`, and the strings behind it.
  pub realloc-Owned :
      (fresh ≢ rest → d.path ≢ null → d.path ≢ d.query)
      → (realloc old fresh h.allocated ≡ some moved)
        × Owned (record { parsers = update h.parsers p (some d); allocated = moved })
  realloc-Owned apart = (realloc_lem, moved-Owned (apart fresh_rest))
