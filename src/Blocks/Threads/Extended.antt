-- ===== src/Blocks/Threads/Extended.antt =====
-- process.c and blocks.c: the thread list after any calls of Lua code.
use blocks.Prelude.{
  ℕ, zero, suc, ◌+◌, ◌<◌, ◌≡◌, refl, ap, ◌∙◌, true, List, [], ◌∷◌, ◌++◌, Option, none, some, arith,
  ltb, lt→ltb, length, length-append, get_elem?, set,
}
use blocks.Prelude.Int.{ℤ, pos}
use blocks.Blocks.Threads.{
  ThreadPool, link, attach, extend_rounds, rounds_of, threadpool_extend, threadpool_init,
  l_blocks_init, l_pool_extend, PoolCall, opens, extends, pool_call, pool_calls,
}

-- The numbers from `i` on.
abbrev pub upto : ℕ → ℕ → List ℕ
upto i zero = []
upto i (suc n) = i ∷ upto (suc i) n

-- The `next` of `n` elements from `i` on, of which the last one is the end of the list.
abbrev pub chain : ℕ → ℕ → List (Option ℕ)
chain i zero = []
chain i (suc zero) = none ∷ []
chain i (suc (suc n)) = some (suc i) ∷ chain (suc i) (suc n)

-- The elements that a walk along `next` meets, at most as many as the fuel.
abbrev next_of : Option (Option ℕ) → Option ℕ
next_of none = none
next_of (some next) = next

unfoldable pub walk : ℕ → Option ℕ → List (Option ℕ) → List ℕ
walk fuel none nexts = []
walk zero (some item) nexts = []
walk (suc fuel) (some item) nexts = item ∷ walk fuel (next_of (get_elem? nexts item)) nexts

abbrev head_of : ℕ → Option ℕ
head_of zero = none
head_of (suc n) = some 0

abbrev end_of : ℕ → Option ℕ
end_of zero = none
end_of (suc n) = some n

-- The pool of `n` threads.
abbrev pub full : ℕ → ThreadPool
full n = record { head = head_of n; end = end_of n; nexts = chain 0 n; created = upto 0 n }

length-chain : (i n : ℕ) → length (chain i n) ≡ n
length-chain i zero = refl
length-chain i (suc zero) = refl
length-chain i (suc (suc n)) = ap suc (length-chain (suc i) (suc n))

upto-append : (i n k : ℕ) → k ≡ i + n → upto i n ++ k ∷ [] ≡ upto i (suc n)
upto-append i zero k e = ap (λ (m : ℕ). m ∷ []) (omega (arith, e))
upto-append i (suc n) k e = ap (◌∷◌ i) (upto-append (suc i) n k (omega (arith, e)))

chain-set :
    (i m k : ℕ)
    → k ≡ i + suc m
    → set (chain i (suc m) ++ none ∷ []) m (some k) ≡ chain i (suc (suc m))
chain-set i zero k e = ap (λ (n : ℕ). some n ∷ none ∷ []) (omega (arith, e))
chain-set i (suc m) k e = ap (◌∷◌ (some (suc i))) (chain-set (suc i) m k (omega (arith, e)))

chain-middle : (b n i : ℕ) → suc i < n → get_elem? (chain b n) i ≡ some (some (suc (b + i)))
chain-middle b zero i h = absurd (omega arith)
chain-middle b (suc zero) i h = absurd (omega arith)
chain-middle b (suc (suc n)) zero h = ap (λ (m : ℕ). some (some (suc m))) (omega arith)
chain-middle b (suc (suc n)) (suc i) h =
    chain-middle (suc b) (suc n) i (omega arith) ∙ ap (λ (m : ℕ). some (some (suc m))) (omega arith)

chain-last : (b n i : ℕ) → suc i ≡ n → get_elem? (chain b n) i ≡ some none
chain-last b zero i h = absurd (omega arith)
chain-last b (suc zero) zero h = refl
chain-last b (suc zero) (suc i) h = absurd (omega arith)
chain-last b (suc (suc n)) zero h = absurd (omega arith)
chain-last b (suc (suc n)) (suc i) h = chain-last (suc b) (suc n) i (omega (arith, h))

walk-chain :
    (more k i n : ℕ) → i + suc k ≡ n → walk (suc (k + more)) (some i) (chain 0 n) ≡ upto i (suc k)
unfolding walk
walk-chain more zero i n e = rw (chain-last 0 n i (omega (arith, e)))
walk-chain more (suc k) i n e =
    let step : next_of (get_elem? (chain 0 n) i) ≡ some (suc i) =
      ap next_of (chain-middle 0 n i (omega (arith, e))) ∙ ap some (omega arith) in
    let fuel : suc k + more ≡ suc (k + more) = omega arith in
    rw fuel (
      ap (◌∷◌ i) (
        ap (λ (x : Option ℕ). walk (suc (k + more)) x (chain 0 n)) step
        ∙ walk-chain more k (suc i) n (omega (arith, e))))

walk-full : (n more : ℕ) → walk (n + more) (full n).head (full n).nexts ≡ upto 0 n
unfolding walk
walk-full zero more = refl
walk-full (suc n) more =
    let fuel : suc n + more ≡ suc (n + more) = omega arith in
    rw fuel (walk-chain more n 0 (suc n) (omega arith))

-- One round of the loop.
attach-full :
    (n : ℕ) (e : Option ℕ)
    → attach (head_of n) (end_of n) n (record (full n) { end = e; nexts = chain 0 n ++ none ∷ [] })
      ≡ some (record (full (suc n)) { end = e; created = upto 0 n })
unfolding attach link
attach-full zero e = refl
attach-full (suc n) e =
    let inside : ltb n (length (chain 0 (suc n) ++ none ∷ [])) ≡ true =
      lt→ltb n (length (chain 0 (suc n) ++ none ∷ []))
        (omega (arith, length-append (chain 0 (suc n)) (none ∷ []), length-chain 0 (suc n))) in
    rw (inside, chain-set 0 n (suc n) (omega arith))

rounds-full :
    (k n : ℕ) (e : Option ℕ)
    → extend_rounds k (end_of n) (record (full n) { end = e })
      ≡ some (end_of (k + n), record (full (k + n)) { end = e })
unfolding extend_rounds
rounds-full zero n e = ap (λ (m : ℕ). some (end_of m, record (full m) { end = e })) (omega arith)
rounds-full (suc k) n e =
    rw (length-chain 0 n, attach-full n e, upto-append 0 n n (omega arith))
      (rounds-full k (suc n) e
        ∙ ap (λ (m : ℕ). some (end_of m, record (full m) { end = e })) (omega arith))

extend-full :
    (n : ℕ) (size : ℤ) → threadpool_extend (full n) size ≡ some (full (rounds_of size + n))
unfolding threadpool_extend
extend-full n size = rw (rounds-full (rounds_of size) n (end_of n))

-- How many threads there are after some calls; `none` is that there is no pool.
abbrev pub expected : List PoolCall → Option ℕ → Option ℕ
expected [] n = n
expected (opens ∷ calls) none = expected calls (some 5)
expected (opens ∷ calls) (some n) = expected calls (some n)
expected (extends size ∷ calls) none = expected calls none
expected (extends size ∷ calls) (some n) = expected calls (some (rounds_of size + n))

abbrev pub pool_of : Option ℕ → Option ThreadPool
pool_of none = none
pool_of (some n) = some (full n)

calls-full :
    (calls : List PoolCall) (n : Option ℕ)
    → pool_calls calls (pool_of n) ≡ some (pool_of (expected calls n))
unfolding pool_calls pool_call l_blocks_init l_pool_extend threadpool_init rounds_of
calls-full [] n = refl
calls-full (opens ∷ calls) none = rw (extend-full 0 (pos 5)) (calls-full calls (some 5))
calls-full (opens ∷ calls) (some n) = calls-full calls (some n)
calls-full (extends size ∷ calls) none = calls-full calls none
calls-full (extends size ∷ calls) (some n) =
    rw (extend-full n size) (calls-full calls (some (rounds_of size + n)))

-- What a pool of so many threads is: the list from `head` on, which ends behind them, however far the walk may
-- go; the threads that were created; and `end`.
abbrev pub Holds : Option ℕ → Option ThreadPool → Type 0
Holds none none = Unit {0}
Holds none (some pool) = ⊥
Holds (some n) none = ⊥
Holds (some n) (some pool) =
    ((more : ℕ) → walk (n + more) pool.head pool.nexts ≡ upto 0 n)
    × (pool.created ≡ upto 0 n)
    × (pool.end ≡ end_of n)

pool_of-Holds : (n : Option ℕ) → Holds n (pool_of n)
pool_of-Holds none = tt
pool_of-Holds (some n) = (walk-full n, refl, refl)

-- After any calls of `luaopen_blocks` and of `extend_pool`, with whatever sizes, no access through NULL was
-- made; there is a pool once `luaopen_blocks` was called, of five threads and those of the later extensions,
-- where a negative size adds none; the list from `head` on meets each thread once, in the order in which they
-- were created, and ends there; and `end` is the last of them.
pub pool_calls-Holds :
    (calls : List PoolCall)
    → (pool : Option ThreadPool) × (pool_calls calls none ≡ some pool)
      × Holds (expected calls none) pool
pool_calls-Holds calls =
    (pool_of (expected calls none), calls-full calls none, pool_of-Holds (expected calls none))
