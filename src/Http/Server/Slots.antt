-- ===== src/Http/Server/Slots.antt =====
-- main.c: the descriptors of the connections, and the parsers of those that are open.
use blocks.Prelude.{
  ℕ, suc, ◌≤◌, ◌≡◌, ◌≢◌, refl, sym, ap, ◌∙◌, subst, fun_ext, List, [], ◌∷◌, ◌++◌, Option, none,
  some, inl, inr, arith, ◌==◌, Bool-cases, ==_refl, ne→==, length, length-append,
}
use blocks.Comm.Channel.Lawful.{Open, assign}

abbrev pub NotIn : ℕ → List ℕ → Type 0
NotIn sd [] = Unit {0}
NotIn sd (other ∷ sds) = (other ≢ sd) × NotIn sd sds

-- A descriptor that stands in the list once.
abbrev pub Once : List ℕ → ℕ → Type 0
Once sds sd = (us : List ℕ) × (vs : List ℕ) × (sds ≡ us ++ sd ∷ vs) × NotIn sd us × NotIn sd vs

abbrev pub front : Option ℕ → List ℕ → List ℕ
front none xs = xs
front (some x) xs = x ∷ xs

-- The parsers of the connections that are open on the descriptors of a list.
abbrev pub parsers_of : List ℕ → Open → List ℕ
parsers_of [] m = []
parsers_of (sd ∷ sds) m = front (m sd) (parsers_of sds m)

front-append : (v : Option ℕ) (xs ys : List ℕ) → front v (xs ++ ys) ≡ front v xs ++ ys
front-append none xs ys = refl
front-append (some x) xs ys = refl

parsers_of-append :
    (us vs : List ℕ) (m : Open) → parsers_of (us ++ vs) m ≡ parsers_of us m ++ parsers_of vs m
parsers_of-append [] vs m = refl
parsers_of-append (sd ∷ us) vs m =
    ap (front (m sd)) (parsers_of-append us vs m)
    ∙ front-append (m sd) (parsers_of us m) (parsers_of vs m)

parsers_of-assign :
    (sds : List ℕ) (sd : ℕ) (v : Option ℕ) (m : Open)
    → NotIn sd sds
    → parsers_of sds (assign sd v m) ≡ parsers_of sds m
parsers_of-assign [] sd v m h = refl
parsers_of-assign (other ∷ sds) sd v m (ne, h) =
    rw (ne→== other sd ne) (ap (front (m other)) (parsers_of-assign sds sd v m h))

length-front : (v : Option ℕ) (xs : List ℕ) → length (front v xs) ≤ suc (length xs)
length-front none xs = omega arith
length-front (some x) xs = omega arith

pub length-parsers_of : (sds : List ℕ) (m : Open) → length (parsers_of sds m) ≤ length sds
length-parsers_of [] m = omega arith
length-parsers_of (sd ∷ sds) m =
    omega (arith, length-front (m sd) (parsers_of sds m), length-parsers_of sds m)

module _ (us vs : List ℕ) (sd : ℕ) (m : Open) (not_us : NotIn sd us) (not_vs : NotIn sd vs) where
  pub parsers_of-at :
      parsers_of (us ++ sd ∷ vs) m ≡ parsers_of us m ++ front (m sd) (parsers_of vs m)
  parsers_of-at = parsers_of-append us (sd ∷ vs) m

  pub parsers_of-assigned :
      (v : Option ℕ)
      → parsers_of (us ++ sd ∷ vs) (assign sd v m) ≡ parsers_of us m ++ front v (parsers_of vs m)
  parsers_of-assigned v =
      parsers_of-append us (sd ∷ vs) (assign sd v m)
      ∙ rw (==_refl sd, parsers_of-assign us sd v m not_us, parsers_of-assign vs sd v m not_vs)

pub assign-Once :
    (sds : List ℕ) (m : Open) (sd : ℕ) (v : Option ℕ)
    → Once sds sd
    → ((n a : ℕ) → m n ≡ some a → Once sds n)
    → (n a : ℕ) → assign sd v m n ≡ some a
    → Once sds n
assign-Once sds m sd v once allowed n a h = elim (Bool-cases (n == sd)) [
  | inl same ↦ let q : sd ≡ n = ground arith in subst (Once sds) q once
  | inr other ↦ let p : assign sd v m n ≡ m n = rw other in allowed n a (sym p ∙ h)
]

pub parsers_of-none : (l : List ℕ) → parsers_of l (λ _. none) ≡ []
parsers_of-none [] = refl
parsers_of-none (sd ∷ l) = parsers_of-none l

-- The same `aux_data` again.
pub assign_again : (m : Open) (sd a : ℕ) → m sd ≡ some a → m ≡ assign sd (some a) m
assign_again m sd a h = fun_ext (λ n. elim (Bool-cases (n == sd)) [
  | inl same ↦ let q : n ≡ sd = ground arith in rw same (ap m q ∙ h)
  | inr other ↦ rw other
])

module _ (sds : List ℕ) (m : Open) (sd x : ℕ) (once : Once sds sd) where
  pub length-begun :
      m sd ≡ none
      → (length (parsers_of sds (assign sd (some x) m)) ≡ suc (length (parsers_of sds m)))
        × (suc (length (parsers_of sds m)) ≤ length sds)
  length-begun h =
      let (us, vs, e, not_us, not_vs) = once in
      let before : parsers_of sds m ≡ parsers_of us m ++ parsers_of vs m =
        ap (λ (l : List ℕ). parsers_of l m) e ∙ parsers_of-at us vs sd m not_us not_vs ∙ rw h in
      let after : parsers_of sds (assign sd (some x) m) ≡ parsers_of us m ++ x ∷ parsers_of vs m =
        ap (λ (l : List ℕ). parsers_of l (assign sd (some x) m)) e
        ∙ parsers_of-assigned us vs sd m not_us not_vs (some x) in
      (
        omega (
          arith,
          ap length before,
          ap length after,
          length-append (parsers_of us m) (parsers_of vs m),
          length-append (parsers_of us m) (x ∷ parsers_of vs m),
        ),
        omega (
          arith,
          ap length before,
          length-append (parsers_of us m) (parsers_of vs m),
          length-parsers_of us m,
          length-parsers_of vs m,
          ap length e,
          length-append us (sd ∷ vs),
        ),
      )

  pub length-ended :
      m sd ≡ some x → suc (length (parsers_of sds (assign sd none m))) ≡ length (parsers_of sds m)
  length-ended h =
      let (us, vs, e, not_us, not_vs) = once in
      let before : parsers_of sds m ≡ parsers_of us m ++ x ∷ parsers_of vs m =
        ap (λ (l : List ℕ). parsers_of l m) e ∙ parsers_of-at us vs sd m not_us not_vs ∙ rw h in
      let after : parsers_of sds (assign sd none m) ≡ parsers_of us m ++ parsers_of vs m =
        ap (λ (l : List ℕ). parsers_of l (assign sd none m)) e
        ∙ parsers_of-assigned us vs sd m not_us not_vs none in
      omega (
        arith,
        ap length before,
        ap length after,
        length-append (parsers_of us m) (x ∷ parsers_of vs m),
        length-append (parsers_of us m) (parsers_of vs m),
      )
