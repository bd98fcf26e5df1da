-- ===== src/Comm/Channel/Clients.antt =====
-- channel.c: the array `clients`, and the connections of which something has been read.
use blocks.Prelude.{
  ℕ, zero, suc, ◌+◌, ◌<◌, ◌≤◌, ◌≡◌, refl, sym, ap, ◌∙◌, List, [], ◌∷◌, ◌++◌, Option, none, some,
  inl, inr, arith, ◌==◌, if◌then◌else◌, Bool-cases, le→leb, length, get_elem?, set, take, drop,
  replicate, append-nil,
}
use blocks.Comm.Channel.{ClientInfo, blank, fit, zero_clients}

-- The `aux_data` of a connection of which something has been read.
unfoldable pub aux_of : Option ClientInfo → Option ℕ
aux_of none = none
aux_of (some c) = if c.position == 0 then none else some c.aux_data

unfoldable pub begun : List ClientInfo → ℕ → Option ℕ
unfolding aux_of
begun cs n = aux_of (get_elem? cs n)

-- Lists.
pub get_elem?-none {ℓ} : {A : Type ℓ} (xs : List A) (n : ℕ) → length xs ≤ n → get_elem? xs n ≡ none
get_elem?-none [] n h = refl
get_elem?-none (x ∷ xs) zero h = absurd (omega arith)
get_elem?-none (x ∷ xs) (suc n) h = get_elem?-none xs n (omega arith)

pub get_elem?-some {ℓ} :
    {A : Type ℓ} (xs : List A) (n : ℕ) → n < length xs → (x : A) × (get_elem? xs n ≡ some x)
get_elem?-some [] n h = absurd (omega arith)
get_elem?-some (x ∷ xs) zero h = (x, refl)
get_elem?-some (x ∷ xs) (suc n) h = get_elem?-some xs n (omega arith)

pub get_elem?-set {ℓ} :
    {A : Type ℓ} (xs : List A) (i n : ℕ) (v : A)
    → i < length xs
    → get_elem? (set xs i v) n ≡ (if n == i then some v else get_elem? xs n)
get_elem?-set [] i n v h = absurd (omega arith)
get_elem?-set (x ∷ xs) zero zero v h = ground arith
get_elem?-set (x ∷ xs) zero (suc n) v h = ground arith
get_elem?-set (x ∷ xs) (suc i) zero v h = ground arith
get_elem?-set (x ∷ xs) (suc i) (suc n) v h = ground (arith, get_elem?-set xs i n v)

pub begun-set :
    (cs : List ClientInfo) (i n : ℕ) (c : ClientInfo)
    → i < length cs
    → begun (set cs i c) n ≡ (if n == i then aux_of (some c) else begun cs n)
unfolding begun
begun-set cs i n c h = elim (Bool-cases (n == i)) [
  | inl e ↦ ap aux_of (get_elem?-set cs i n c h) ∙ rw e
  | inr e ↦ ap aux_of (get_elem?-set cs i n c h) ∙ rw e
]

pub begun-none : (cs : List ClientInfo) (n : ℕ) → length cs ≤ n → begun cs n ≡ none
unfolding begun
begun-none cs n h = rw (get_elem?-none cs n h) (unfold aux_of in refl)

-- The array behind `realloc`: with a blank record in the place of each that is cut off or new.
pub begun-fit :
    (junk : ClientInfo) (cs : List ClientInfo) (k n : ℕ)
    → n < k
    → n < length cs
    → begun (fit junk cs k) n ≡ begun cs n
unfolding begun fit
begun-fit junk cs zero n h l = absurd (omega arith)
begun-fit junk [] (suc k) n h l = absurd (omega arith)
begun-fit junk (c ∷ cs) (suc k) zero h l = refl
begun-fit junk (c ∷ cs) (suc k) (suc n) h l = begun-fit junk cs k n (omega arith) (omega arith)

pub length-fit : (junk : ClientInfo) (cs : List ClientInfo) (k : ℕ) → length (fit junk cs k) ≡ k
unfolding fit
length-fit junk cs zero = refl
length-fit junk [] (suc k) = ap suc (length-fit junk [] k)
length-fit junk (c ∷ cs) (suc k) = ap suc (length-fit junk cs k)

take-fit :
    (junk : ClientInfo) (cs : List ClientInfo) (m : ℕ)
    → length cs ≤ m
    → take (length cs) (fit junk cs m) ≡ cs
unfolding fit
take-fit junk [] m h = refl
take-fit junk (c ∷ cs) zero h = absurd (omega arith)
take-fit junk (c ∷ cs) (suc m) h = ap (◌∷◌ c) (take-fit junk cs m (omega arith))

drop_all : (cs : List ClientInfo) (m : ℕ) → length cs ≤ m → drop m cs ≡ []
drop_all [] zero h = refl
drop_all [] (suc m) h = refl
drop_all (c ∷ cs) zero h = absurd (omega arith)
drop_all (c ∷ cs) (suc m) h = drop_all cs m (omega arith)

-- The array behind `realloc` and `memset`: the old records, then blank ones.
pub zero_clients-fit :
    (junk : ClientInfo) (cs : List ClientInfo) (n k : ℕ)
    → length cs ≡ n
    → zero_clients n k (fit junk cs (n + k)) ≡ some (cs ++ replicate k blank)
unfolding zero_clients
zero_clients-fit junk cs n k e =
    let l : length (fit junk cs (n + k)) ≡ n + k = length-fit junk cs (n + k) in
    let front : take n (fit junk cs (n + k)) ≡ cs =
      ap (λ (m : ℕ). take m (fit junk cs (n + k))) (sym e)
      ∙ take-fit junk cs (n + k) (omega arith) in
    rw (
      l,
      le→leb (n + k) (n + k) (omega arith),
      front,
      drop_all (fit junk cs (n + k)) (n + k) (omega (arith, l)),
      append-nil (replicate k blank),
    )

pub begun-replicate : (k n : ℕ) → begun (replicate k blank) n ≡ none
unfolding begun aux_of
begun-replicate zero n = refl
begun-replicate (suc k) zero = refl
begun-replicate (suc k) (suc n) = begun-replicate k n

pub begun-append : (cs : List ClientInfo) (k n : ℕ) → begun (cs ++ replicate k blank) n ≡ begun cs n
unfolding begun
begun-append [] k n = begun-replicate k n ∙ unfold aux_of in refl
begun-append (c ∷ cs) k zero = refl
begun-append (c ∷ cs) k (suc n) = begun-append cs k n
