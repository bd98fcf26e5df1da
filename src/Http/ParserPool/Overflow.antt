-- ===== src/Http/ParserPool/Overflow.antt =====
-- main.c: more open connections than the pool has slots.
use Prim.Native.Nat.{min}
use blocks.Prelude.{
  ℕ, zero, suc, ◌+◌, ◌≤◌, ◌<◌, ◌≡◌, refl, ap, subst, Bool, List, [], ◌∷◌, Option, none, some, inl,
  inr, arith, ltb, Bool-cases, Option-cases, ◌>>=◌, length, get_elem?, false, set, length-set,
  lt→ltb, ◌∙◌,
}
use blocks.Prelude.Int.{pos}
use blocks.Http.ParserPool.{ParserPool, init_http_parser_pool, get_http_parser, release_http_parser}
use blocks.Http.ParserPool.Sharing.{length-init_parsers}

-- `msg_start` for one connection after another; the list holds what `malloc` returns for each.
unfoldable pub open_all : List ℕ → ParserPool → Option (List ℕ × ParserPool)
open_all [] p = some ([], p)
open_all (fresh ∷ rest) p = do
  (x, q) ← get_http_parser p fresh
  (xs, r) ← open_all rest q
  some (x ∷ xs, r)

-- `msg_end` for one connection after another.
unfoldable pub close_all : List ℕ → ParserPool → Option ParserPool
close_all [] p = some p
close_all (x ∷ xs) p = do (_, q) ← release_http_parser p x; close_all xs q

pub record Counted (t : ℕ) (p : ParserPool) : Type 0 where
  pub top : p.parser_stack_top ≡ pos t
  pub slots : length p.parser_pool ≡ p.parser_pool_size
  pub within : t ≤ p.parser_pool_size

get_elem?-some : (xs : List ℕ) (i : ℕ) → i < length xs → (x : ℕ) × (get_elem? xs i ≡ some x)
get_elem?-some [] i h = absurd (omega arith)
get_elem?-some (x ∷ xs) zero h = (x, refl)
get_elem?-some (x ∷ xs) (suc i) h = get_elem?-some xs i (omega arith)

-- Opening never faults, and counts up to the number of slots only.
pub get_http_parser-Counted :
    (t fresh : ℕ) (p : ParserPool)
    → Counted t p
    → (x : ℕ) × (q : ParserPool) × (get_http_parser p fresh ≡ some (x, q))
      × Counted (min p.parser_pool_size (t + 1)) q
      × (q.parser_pool_size ≡ p.parser_pool_size)
unfolding get_http_parser
get_http_parser-Counted t fresh p c = elim (Bool-cases (ltb t p.parser_pool_size)) [
  | inl free ↦
      let h : t < p.parser_pool_size = ground arith in
      let (x, e) = get_elem?-some p.parser_pool t (omega (arith, c.slots)) in
      (
        x,
        record p { parser_stack_top = pos (suc t) },
        rw (c.top, free, e),
        record { top = ap pos (omega arith); slots = c.slots; within = omega arith },
        refl,
      )
  | inr full ↦
      let h : p.parser_pool_size ≤ t = ground arith in
      (
        fresh,
        p,
        rw (c.top, full),
        record {
          top = rw c.top (ap pos (omega (arith, c.within)));
          slots = c.slots;
          within = omega arith;
        },
        refl,
      )
]

-- Closing counts down, and destroys no parser.
pub release_http_parser-Counted :
    (t x : ℕ) (p : ParserPool)
    → Counted (suc t) p
    → (q : ParserPool) × (release_http_parser p x ≡ some (false, q))
      × Counted t q
      × (q.parser_pool_size ≡ p.parser_pool_size)
unfolding release_http_parser
release_http_parser-Counted t x p c =
    let inside : t < p.parser_pool_size = c.within in
    let room : t < length p.parser_pool = omega (arith, c.slots, c.within) in
    (
      record {
        parser_pool = set p.parser_pool t x;
        parser_stack_top = pos t;
        parser_pool_size = p.parser_pool_size;
      },
      rw (c.top, lt→ltb t p.parser_pool_size inside, lt→ltb t (length p.parser_pool) room),
      record {
        top = refl;
        slots = length-set p.parser_pool t x ∙ c.slots;
        within = omega (arith, c.within);
      },
      refl,
    )

open_all-Counted :
    (fs : List ℕ) (t : ℕ) (p : ParserPool)
    → Counted t p
    → (xs : List ℕ) × (q : ParserPool) × (open_all fs p ≡ some (xs, q))
      × (length xs ≡ length fs)
      × Counted (min p.parser_pool_size (t + length fs)) q
unfolding open_all
open_all-Counted [] t p c =
    ([], p, refl, refl, subst (λ (u : ℕ). Counted u p) (omega (arith, c.within)) c)
open_all-Counted (f ∷ fs) t p c =
    let (x, q, e, c', s) = get_http_parser-Counted t f p c in
    let (xs, r, e', l, d) = open_all-Counted fs (min p.parser_pool_size (t + 1)) q c' in
    (x ∷ xs, r, rw (e, e'), ap suc l, subst (λ (u : ℕ). Counted u r) (omega (arith, s)) d)

release_http_parser-top :
    (x t : ℕ) (p q : ParserPool) (b : Bool)
    → p.parser_stack_top ≡ pos (suc t)
    → release_http_parser p x ≡ some (b, q)
    → q.parser_stack_top ≡ pos t
unfolding release_http_parser
release_http_parser-top x t p q b top e = ground arith

release_http_parser_underflow :
    (x : ℕ) (p : ParserPool) → p.parser_stack_top ≡ pos 0 → release_http_parser p x ≡ none
unfolding release_http_parser
release_http_parser_underflow x p top = rw top

-- Each close counts down, so one close too many writes in front of the array.
close_all-none :
    (xs : List ℕ) (t : ℕ) (p : ParserPool)
    → p.parser_stack_top ≡ pos t
    → t < length xs
    → close_all xs p ≡ none
unfolding close_all
close_all-none [] t p top h = absurd (omega arith)
close_all-none (x ∷ xs) zero p top h = rw (release_http_parser_underflow x p top)
close_all-none (x ∷ xs) (suc t) p top h = elim (Option-cases (release_http_parser p x)) [
  | inl fault ↦ rw fault
  | inr ((b, q), e) ↦
      rw e (close_all-none xs t q (release_http_parser-top x t p q b top e) (omega arith))
]

-- Once more connections than the pool has slots are open at one time, closing them all, in any order,
-- faults: a parser is written below the start of `parser_pool`. Opening them never faults.
pub close_all-open_all :
    (size : ℕ) (init : ℕ → ℕ) (fs ys : List ℕ)
    → size < length fs
    → length ys ≡ length fs
    → (xs : List ℕ) × (q : ParserPool) × (open_all fs (init_http_parser_pool size init)
        ≡ some (xs, q))
      × (length xs ≡ length fs)
      × (close_all ys q ≡ none)
unfolding init_http_parser_pool
close_all-open_all size init fs ys h m =
    let (xs, q, e, l, c) =
      open_all-Counted fs 0 (init_http_parser_pool size init)
        (record { top = refl; slots = length-init_parsers 0 size init; within = omega arith }) in
    (xs, q, e, l, close_all-none ys (min size (0 + length fs)) q c.top (omega arith))
