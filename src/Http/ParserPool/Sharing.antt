-- ===== src/Http/ParserPool/Sharing.antt =====
-- main.c: who has which parser, over histories with no more connections than slots.
use mathlib.Core.HLevel.{⊥_prop}
use mathlib.Core.List.{Mem, Perm, Nodup, perm_middle, mem-cons, not-mem-nil, Nodup-cons, Nodup-nil}
use mathlib.Core.Logic.{∥∥₁_elim, ∥∥₁_map}
use mathlib.Core.Logic.Or
use mathlib.Core.List.Perm
use blocks.Prelude.{
  ℕ, zero, suc, ◌+◌, ◌≤◌, ◌<◌, ◌≡◌, refl, ap, ◌∙◌, Bool, false, List, [], ◌∷◌, ◌++◌, some, arith,
  lt→ltb, length, get_elem?, set, drop, append_assoc, same_result, length-append, length-set,
}
use blocks.Prelude.Int.{pos}
use blocks.Http.ParserPool.{
  ParserPool, init_parsers, init_http_parser_pool, get_http_parser, release_http_parser,
}

-- The stack top counts the parsers that are in use, and the slots from it on are free.
pub record Inv (size : ℕ) (in_use : List ℕ) (p : ParserPool) : Type 0 where
  pub top : p.parser_stack_top ≡ pos (length in_use)
  pub slots : length p.parser_pool ≡ p.parser_pool_size
  pub within : length in_use ≤ p.parser_pool_size
  pub sized : p.parser_pool_size ≡ size

-- All parsers that the program holds: those in use and those in free slots.
abbrev pub owned : List ℕ → ParserPool → List ℕ
owned in_use p = in_use ++ drop (length in_use) p.parser_pool

drop-get :
    (n : ℕ) (xs : List ℕ)
    → n < length xs
    → (x : ℕ) × (get_elem? xs n ≡ some x) × (drop n xs ≡ x ∷ drop (suc n) xs)
drop-get n [] h = absurd (omega arith)
drop-get zero (x ∷ xs) h = (x, refl, refl)
drop-get (suc n) (x ∷ xs) h = drop-get n xs (omega arith)

drop-set : (n : ℕ) (xs : List ℕ) (x : ℕ) → n < length xs → drop n (set xs n x) ≡ x ∷ drop (suc n) xs
drop-set n [] x h = absurd (omega arith)
drop-set zero (y ∷ xs) x h = refl
drop-set (suc n) (y ∷ xs) x h = drop-set n xs x (omega arith)

module _ (size : ℕ) (in_use : List ℕ) (p : ParserPool) (inv : Inv size in_use p) where
  -- While a slot is free, a connection gets the parser of a free slot: it does not fault or allocate,
  -- and the parsers that the program holds are the same as before.
  pub get_http_parser-Inv :
      (fresh : ℕ)
      → length in_use < p.parser_pool_size
      → (x : ℕ) × (q : ParserPool) × (get_http_parser p fresh ≡ some (x, q))
        × Inv size (x ∷ in_use) q
        × Perm (owned (x ∷ in_use) q) (owned in_use p)
  unfolding get_http_parser
  get_http_parser-Inv fresh free =
      let (x, e, d) = drop-get (length in_use) p.parser_pool (omega (arith, inv.slots)) in
      (
        x,
        record p { parser_stack_top = pos (suc (length in_use)) },
        rw (inv.top, lt→ltb (length in_use) p.parser_pool_size free, e),
        record { top = refl; slots = inv.slots; within = free; sized = inv.sized },
        rw d (Perm.symm (perm_middle in_use (drop (suc (length in_use)) p.parser_pool))),
      )

swapped :
    (xs ys : List ℕ) (x : ℕ) (free : List ℕ)
    → Perm ((xs ++ ys) ++ x ∷ free) ((xs ++ x ∷ ys) ++ free)
swapped xs ys x free = Perm.trans (perm_middle (xs ++ ys) free) (
    Perm.symm
      (rw (append_assoc xs (x ∷ ys) free, append_assoc xs ys free) (perm_middle xs (ys ++ free))))

-- Closing any connection puts its parser back in a slot.
pub release_http_parser-Inv :
    (size : ℕ) (us vs xs ys : List ℕ) (x : ℕ) (p : ParserPool)
    → Inv size us p
    → us ≡ xs ++ x ∷ ys
    → vs ≡ xs ++ ys
    → (q : ParserPool) × (release_http_parser p x ≡ some (false, q))
      × Inv size vs q
      × Perm (owned vs q) (owned us p)
unfolding release_http_parser
release_http_parser-Inv size us vs xs ys x p inv e e' =
    let size : length us ≡ suc (length vs) =
      omega (arith, ap length e, ap length e', length-append xs (x ∷ ys), length-append xs ys) in
    let top : p.parser_stack_top ≡ pos (suc (length vs)) = inv.top ∙ ap pos size in
    let room : length vs < length p.parser_pool = omega (arith, inv.slots, inv.within) in
    (
      record {
        parser_pool = set p.parser_pool (length vs) x;
        parser_stack_top = pos (length vs);
        parser_pool_size = p.parser_pool_size;
      },
      rw (
        top,
        lt→ltb (length vs) p.parser_pool_size (omega (arith, inv.slots)),
        lt→ltb (length vs) (length p.parser_pool) room,
      ),
      record {
        top = refl;
        slots = length-set p.parser_pool (length vs) x ∙ inv.slots;
        within = omega (arith, inv.within);
        sized = inv.sized;
      },
      rw (drop-set (length vs) p.parser_pool x room, size, e, e')
          (swapped xs ys x (drop (suc (length (xs ++ ys))) p.parser_pool)),
    )

-- The histories of the pool: connections open, while there are fewer than slots, and close.
pub data Reach (size : ℕ) (init : ℕ → ℕ) : List ℕ → ParserPool → Type 0 where
  start : Reach size init [] (init_http_parser_pool size init)
  opened :
      {us : List ℕ} {p q : ParserPool} {x : ℕ} (fresh : ℕ)
      → Reach size init us p
      → length us < p.parser_pool_size
      → get_http_parser p fresh ≡ some (x, q)
      → Reach size init (x ∷ us) q
  closed :
      {us vs : List ℕ} {p q : ParserPool} {destroyed : Bool} (xs ys : List ℕ) (x : ℕ)
      → Reach size init us p
      → us ≡ xs ++ x ∷ ys
      → vs ≡ xs ++ ys
      → release_http_parser p x ≡ some (destroyed, q)
      → Reach size init vs q

abbrev pub Held : ℕ → (ℕ → ℕ) → List ℕ → ParserPool → Type 0
Held size init us p = Inv size us p × Perm (owned us p) (init_parsers 0 size init)

pub length-init_parsers : (i size : ℕ) (init : ℕ → ℕ) → length (init_parsers i size init) ≡ size
unfolding init_parsers
length-init_parsers i zero init = refl
length-init_parsers i (suc size) init = ap suc (length-init_parsers (i + 1) size init)

pub start-Held : (size : ℕ) (init : ℕ → ℕ) → Held size init [] (init_http_parser_pool size init)
unfolding init_http_parser_pool
start-Held size init = (
  record {
    top = refl;
    slots = length-init_parsers 0 size init;
    within = omega arith;
    sized = refl;
  },
  Perm.rfl,
)

opened-Held :
    (size fresh : ℕ) (init : ℕ → ℕ) (us : List ℕ) (p q : ParserPool) (x : ℕ)
    → Held size init us p
    → length us < p.parser_pool_size
    → get_http_parser p fresh ≡ some (x, q)
    → Held size init (x ∷ us) q
opened-Held size fresh init us p q x h free e =
    let (x', q', e', inv, perm) = get_http_parser-Inv size us p h.0 fresh free in
    same_result (λ y r. Held size init (y ∷ us) r) (get_http_parser p fresh) e' e
      (inv, Perm.trans perm h.1)

closed-Held :
    (size : ℕ) (init : ℕ → ℕ) (us vs xs ys : List ℕ) (p q : ParserPool) (x : ℕ) (b : Bool)
    → Held size init us p
    → us ≡ xs ++ x ∷ ys
    → vs ≡ xs ++ ys
    → release_http_parser p x ≡ some (b, q)
    → Held size init vs q
closed-Held size init us vs xs ys p q x b h e e' r =
    let (q', r', inv, perm) = release_http_parser-Inv size us vs xs ys x p h.0 e e' in
    same_result (λ _ s. Held size init vs s) (release_http_parser p x) r' r
      (inv, Perm.trans perm h.1)

Reach-Held :
    {size : ℕ} {init : ℕ → ℕ} {us : List ℕ} {p : ParserPool}
    → Reach size init us p
    → Held size init us p
Reach-Held {size} {init} start = start-Held size init
Reach-Held {size} {init} (opened {us} {p} {q} {x} fresh r free e) =
    opened-Held size fresh init us p q x (Reach-Held r) free e
Reach-Held {size} {init} (closed {us} {vs} {p} {q} {destroyed} xs ys x r e e' f) =
    closed-Held size init us vs xs ys p q x destroyed (Reach-Held r) e e' f

Mem-init_parsers :
    (i size : ℕ) (init : ℕ → ℕ) (a : ℕ)
    → Mem a (init_parsers i size init)
    → ∥ ((j : ℕ) × (i ≤ j) × (a ≡ init j)) ∥₁
unfolding init_parsers
Mem-init_parsers i zero init a m = absurd (not-mem-nil m)
Mem-init_parsers i (suc size) init a m =
    Or.elim squash₁ (mem-cons.0 m) (λ e. ∣ (i, omega arith, e) ∣₁)
      (λ m'. ∥∥₁_map (Mem-init_parsers (i + 1) size init a m') λ (j, h, e). (j, omega arith, e))

pub Nodup-init_parsers :
    (i size : ℕ) (init : ℕ → ℕ)
    → ((j k : ℕ) → init j ≡ init k → j ≡ k)
    → Nodup (init_parsers i size init)
unfolding init_parsers
Nodup-init_parsers i zero init inj = Nodup-nil
Nodup-init_parsers i (suc size) init inj = Nodup-cons.1 (
  λ m.
      ∥∥₁_elim (Mem-init_parsers (i + 1) size init (init i) m) ⊥_prop
        λ (j, h, e). let same : i ≡ j = inj i j e in omega arith,
  Nodup-init_parsers (i + 1) size init inj,
)

-- With no more open connections than slots, over every history: no two of them use one parser, none
-- uses a parser that is free, and every connection's parser is one of those allocated at the start.
pub Reach-Nodup :
    {size : ℕ} {init : ℕ → ℕ} {us : List ℕ} {p : ParserPool}
    → Reach size init us p
    → ((j k : ℕ) → init j ≡ init k → j ≡ k)
    → Nodup (owned us p) × Perm (owned us p) (init_parsers 0 size init)
Reach-Nodup {size} {init} r inj =
    let (inv, perm) = Reach-Held r in
    (Perm.nodup (Perm.symm perm) (Nodup-init_parsers 0 size init inj), perm)

-- After every such history, one more connection can open while a slot is free: `get_http_parser` makes
-- no access outside the pool.
Reach_get :
    {size : ℕ} {init : ℕ → ℕ} {us : List ℕ} {p : ParserPool} (fresh : ℕ)
    → Reach size init us p
    → length us < size
    → (x : ℕ) × (q : ParserPool) × (get_http_parser p fresh ≡ some (x, q))
Reach_get {size} {init} {us} {p} fresh r free =
    let inv = (Reach-Held r).0 in
    let (x, q, e, _, _) = get_http_parser-Inv size us p inv fresh (omega (arith, inv.sized)) in
    (x, q, e)

-- After every such history, each open connection can close: `release_http_parser` makes no access
-- outside the pool, and frees no parser.
Reach_release :
    {size : ℕ} {init : ℕ → ℕ} {us : List ℕ} {p : ParserPool} (xs ys : List ℕ) (x : ℕ)
    → Reach size init us p
    → us ≡ xs ++ x ∷ ys
    → (q : ParserPool) × (release_http_parser p x ≡ some (false, q))
Reach_release {size} {init} {us} {p} xs ys x r e =
    let inv = (Reach-Held r).0 in
    let (q, e', _, _) = release_http_parser-Inv size us (xs ++ ys) xs ys x p inv e refl in (q, e')
