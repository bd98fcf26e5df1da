-- ===== src/Http/Buffer.antt =====
-- Byte buffers of C, as lists: reads and writes that fault out of bounds, and `strncpy`.
use Prim.Native.Char.{code}
use Prim.Native.String.{String}
use blocks.Prelude.{
  ℕ, zero, suc, ◌+◌, ◌≡◌, refl, ◌≢◌, List, [], ◌∷◌, ◌++◌, Option, none, some, arith, ltb, leb,
  lt→ltb, le→leb, ◌==◌, if◌then◌else◌, length, get_elem?, set, take, drop, replicate, length-append,
  take-append, drop-append, set-append, get_elem?-append, append_assoc,
}

-- The bytes of an ASCII string literal.
abbrev pub codes : String → List ℕ
codes String.[] = []
codes (String.◌∷◌ c s) = code c ∷ codes s

-- `buf[i] = c`
unfoldable pub write : List ℕ → ℕ → ℕ → Option (List ℕ)
write buf i c = if ltb i (length buf) then some (set buf i c) else none

-- The bytes that `strncpy` stores: those of the string `src`, then zeros, `n` in all.
unfoldable pub padded : List ℕ → ℕ → List ℕ
padded src zero = []
padded [] (suc n) = replicate (suc n) 0
padded (c ∷ src) (suc n) = if c == 0 then replicate (suc n) 0 else c ∷ padded src n

-- `memcpy(buf + at, bs, length bs)`
unfoldable pub copy_in : List ℕ → ℕ → List ℕ → Option (List ℕ)
copy_in buf at bs =
    if leb (at + length bs) (length buf)
    then some (take at buf ++ (bs ++ drop (at + length bs) buf))
    else none

-- `strncpy(buf + at, src, n)`
unfoldable pub strncpy : List ℕ → ℕ → List ℕ → ℕ → Option (List ℕ)
unfolding copy_in padded
strncpy buf at src n = copy_in buf at (padded src n)

-- A C string has no zero byte before its end.
abbrev pub NoNul : List ℕ → Type 0
NoNul [] = Unit {0}
NoNul (c ∷ cs) = (c ≢ 0) × NoNul cs

pub padded-length : (src : List ℕ) → NoNul src → padded src (length src) ≡ src
unfolding padded
padded-length [] h = refl
padded-length (c ∷ src) h = ground (arith, padded-length src h.1)

pub write-append :
    (xs ys : List ℕ) (y c n : ℕ) → n ≡ length xs → write (xs ++ y ∷ ys) n c ≡ some (xs ++ c ∷ ys)
unfolding write
write-append xs ys y c n e = rw (
  lt→ltb n (length (xs ++ y ∷ ys)) (omega (arith, length-append xs (y ∷ ys))),
  set-append xs ys y c n e,
)

pub get_elem?-append_second :
    (xs ys : List ℕ) (x y n : ℕ) → n ≡ length xs → get_elem? (xs ++ x ∷ y ∷ ys) (n + 1) ≡ some y
get_elem?-append_second xs ys x y n e =
    rw (← append_assoc xs (x ∷ []) (y ∷ ys))
      (get_elem?-append (xs ++ x ∷ []) ys y (n + 1) (omega (arith, length-append xs (x ∷ []))))

pub write-append_second :
    (xs ys : List ℕ) (x y c n : ℕ)
    → n ≡ length xs
    → write (xs ++ x ∷ y ∷ ys) (n + 1) c ≡ some (xs ++ x ∷ c ∷ ys)
write-append_second xs ys x y c n e =
    rw (← append_assoc xs (x ∷ []) (y ∷ ys), ← append_assoc xs (x ∷ []) (c ∷ ys))
      (write-append (xs ++ x ∷ []) ys y c (n + 1) (omega (arith, length-append xs (x ∷ []))))

pub copy_in-append :
    (xs ys zs bs : List ℕ) (n : ℕ)
    → n ≡ length xs
    → length ys ≡ length bs
    → copy_in (xs ++ (ys ++ zs)) n bs ≡ some (xs ++ (bs ++ zs))
unfolding copy_in
copy_in-append xs ys zs bs n e l = rw (
  le→leb (n + length bs) (length (xs ++ (ys ++ zs)))
      (omega (arith, length-append xs (ys ++ zs), length-append ys zs)),
  take-append xs (ys ++ zs) n e,
  drop-append xs (ys ++ zs) (n + length bs) (length bs) (omega arith),
  drop-append ys zs (length bs) 0 (omega arith),
)

-- `strncpy` of a whole string, over as many bytes.
pub strncpy-append :
    (xs ys zs src : List ℕ) (n m : ℕ)
    → n ≡ length xs
    → m ≡ length src
    → length ys ≡ length src
    → NoNul src
    → strncpy (xs ++ (ys ++ zs)) n src m ≡ some (xs ++ (src ++ zs))
unfolding strncpy
strncpy-append xs ys zs src n m e em l h =
    rw (em, padded-length src h) (copy_in-append xs ys zs src n e l)
