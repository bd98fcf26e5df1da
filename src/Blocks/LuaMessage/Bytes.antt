-- ===== src/Blocks/LuaMessage/Bytes.antt =====
-- Numbers as bytes, low byte first, and reads off the front of a list of bytes.
use blocks.Prelude.{
  ℕ, zero, suc, ◌+◌, ◌*◌, ◌/◌, ◌%◌, ◌^◌, ◌<◌, ◌≡◌, refl, ap, List, [], ◌∷◌, ◌++◌, Option, none,
  some, arith, ◌>>=◌, length,
}

unfoldable pub le_bytes : ℕ → ℕ → List ℕ
le_bytes zero n = []
le_bytes (suc w) n = (n % 256) ∷ le_bytes w (n / 256)

unfoldable pub number_of : List ℕ → ℕ
number_of [] = 0
number_of (b ∷ bs) = b + 256 * number_of bs

-- The first `n` bytes and the others.
unfoldable pub split_bytes : ℕ → List ℕ → Option (List ℕ × List ℕ)
split_bytes zero bs = some ([], bs)
split_bytes (suc n) [] = none
split_bytes (suc n) (b ∷ bs) = do (front, rest) ← split_bytes n bs; some (b ∷ front, rest)

pub length-le_bytes : (w n : ℕ) → length (le_bytes w n) ≡ w
unfolding le_bytes
length-le_bytes zero n = refl
length-le_bytes (suc w) n = ap suc (length-le_bytes w (n / 256))

pub split_bytes-append :
    (xs ys : List ℕ) (n : ℕ) → n ≡ length xs → split_bytes n (xs ++ ys) ≡ some (xs, ys)
unfolding split_bytes
split_bytes-append [] ys zero e = refl
split_bytes-append [] ys (suc n) e = absurd (omega arith)
split_bytes-append (x ∷ xs) ys zero e = absurd (omega arith)
split_bytes-append (x ∷ xs) ys (suc n) e = rw (split_bytes-append xs ys n (omega arith))

pub number_of-le_bytes_4 : (n : ℕ) → n < 2 ^ 32 → number_of (le_bytes 4 n) ≡ n
unfolding number_of le_bytes
number_of-le_bytes_4 n h = omega arith

pub number_of-le_bytes_8 : (n : ℕ) → n < 2 ^ 64 → number_of (le_bytes 8 n) ≡ n
unfolding number_of le_bytes
number_of-le_bytes_8 n h = omega arith
