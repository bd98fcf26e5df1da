-- ===== src/Http/FullPath/LastDot.antt =====
-- file_util.c: a path that ends in a single dot, which the loop compares with the byte behind the string.
use blocks.Prelude.{
  ℕ, ◌+◌, ◌≡◌, refl, ap, ◌≢◌, List, [], ◌∷◌, ◌++◌, some, inl, inr, arith, ◌<◌, ◌∙◌, ◌==◌,
  if◌then◌else◌, Bool-cases, length, length-append, take-append, append_assoc, get_elem?,
}
use blocks.Http.Buffer.{NoNul}
use blocks.Http.FullPath.{get_full_path}
use blocks.Http.FullPath.Sanitized.{cleaned, last_slash, sanitized, target, get_full_path-target}

-- The string has no dot.
abbrev pub NoDot : List ℕ → Type 0
NoDot [] = Unit {0}
NoDot (c ∷ cs) = (c ≢ b'.') × NoDot cs

abbrev tail_of : ℕ → List ℕ
tail_of next = if next == b'.' then b'/' ∷ b'/' ∷ [] else b'.' ∷ next ∷ []

cleaned-last_dot :
    (depth : ℕ) (w : List ℕ) (next : ℕ)
    → NoDot w
    → 0 < depth
    → cleaned depth (w ++ b'.' ∷ next ∷ []) ≡ w ++ tail_of next
unfolding cleaned
cleaned-last_dot depth [] next h k = ground arith
cleaned-last_dot depth (c ∷ []) next h k =
    ground (arith, cleaned-last_dot depth [] next tt k, cleaned-last_dot (depth + 1) [] next tt)
cleaned-last_dot depth (c ∷ d ∷ w) next h k = ground (
  arith,
  cleaned-last_dot depth (d ∷ w) next h.1 k,
  cleaned-last_dot (depth + 1) (d ∷ w) next h.1,
)

cleaned-slash :
    (w : List ℕ) (next : ℕ)
    → NoDot w
    → cleaned 0 (b'/' ∷ (w ++ b'.' ∷ next ∷ [])) ≡ b'/' ∷ (w ++ tail_of next)
unfolding cleaned
cleaned-slash [] next h = ap (◌∷◌ b'/') (cleaned-last_dot 1 [] next tt (omega arith))
cleaned-slash (c ∷ w) next h = ap (◌∷◌ b'/') (cleaned-last_dot 1 (c ∷ w) next h (omega arith))

last_slash-snoc : (s : List ℕ) (c : ℕ) → last_slash (s ++ c ∷ []) ≡ (c == b'/')
unfolding last_slash
last_slash-snoc [] c = refl
last_slash-snoc (x ∷ []) c = refl
last_slash-snoc (x ∷ y ∷ s) c = last_slash-snoc (y ∷ s) c

-- The cleaned string without the byte behind it.
sanitized-last_dot :
    (w : List ℕ) (next c d : ℕ)
    → NoDot w
    → tail_of next ≡ c ∷ d ∷ []
    → sanitized (b'/' ∷ (w ++ b'.' ∷ [])) next ≡ b'/' ∷ (w ++ c ∷ [])
sanitized-last_dot w next c d h e =
    rw
      (
        append_assoc w (b'.' ∷ []) (next ∷ []),
        cleaned-slash w next h,
        e,
        ← append_assoc w (c ∷ []) (d ∷ []),
      )
      (ap (◌∷◌ b'/') (
        take-append (w ++ c ∷ []) (d ∷ []) (length (w ++ b'.' ∷ []))
          (omega (arith, length-append w (c ∷ []), length-append w (b'.' ∷ [])))))

target-snoc :
    (default_file file s : List ℕ) (next c : ℕ)
    → sanitized file next ≡ s ++ c ∷ []
    → target default_file file next
      ≡ (if c == b'/' then (s ++ c ∷ []) ++ default_file else s ++ c ∷ [])
unfolding target
target-snoc default_file file s next c e = rw (e, last_slash-snoc s c)

target-last_dot :
    (default_file w : List ℕ) (next : ℕ)
    → NoDot w
    → target default_file (b'/' ∷ (w ++ b'.' ∷ [])) next
      ≡ b'/' ∷ (w ++ (if next == b'.' then b'/' ∷ default_file else b'.' ∷ []))
target-last_dot default_file w next h = elim (Bool-cases (next == b'.')) [
  | inl dot ↦
      let e : next ≡ b'.' = ground (arith, dot) in
      rw (dot, e)
        (target-snoc default_file (b'/' ∷ (w ++ b'.' ∷ [])) (b'/' ∷ w) b'.' b'/'
            (sanitized-last_dot w b'.' b'/' b'/' h refl)
          ∙ ap (◌∷◌ b'/') (append_assoc w (b'/' ∷ []) default_file))
  | inr other ↦ rw other (
      target-snoc default_file (b'/' ∷ (w ++ b'.' ∷ [])) (b'/' ∷ w) next b'.'
        (sanitized-last_dot w next b'.' next h (rw (tail_of, other) refl)))
]

-- For a path `/w.` whose `w` has no dot, in a buffer with room, `get_full_path` leaves behind the root `/w/`
-- and the default file if the byte that stood behind the path's place in the buffer before the call
-- happens to be a dot, and the path itself if that byte is any other. The strings hold no zero byte.
pub get_full_path-last_dot :
    (root default_file w path_buffer : List ℕ) (next : ℕ)
    → NoNul root
    → NoNul default_file
    → NoNul (b'/' ∷ (w ++ b'.' ∷ []))
    → NoDot w
    → length root + length (b'/' ∷ (w ++ b'.' ∷ [])) + length default_file < length path_buffer
    → get_elem? path_buffer (length root + length (b'/' ∷ (w ++ b'.' ∷ []))) ≡ some next
    → (tail : List ℕ) × (get_full_path path_buffer root
          (length root)
          default_file
          (length default_file)
          (b'/' ∷ (w ++ b'.' ∷ []))
          (length (b'/' ∷ (w ++ b'.' ∷ [])))
        ≡ some (
            root
            ++ (b'/' ∷ (w ++ (if next == b'.' then b'/' ∷ default_file else b'.' ∷ []))
                ++ 0 ∷ tail)))
get_full_path-last_dot root default_file w path_buffer next hr hd hf h room byte =
    let (found, tail, is_found, done) =
      get_full_path-target root default_file (b'/' ∷ (w ++ b'.' ∷ [])) hr hd hf path_buffer room in
    let e : found ≡ next = cc in
    (
      tail,
      done
          ∙ ap (λ xs. some (root ++ (xs ++ 0 ∷ tail)))
              (ap (target default_file (b'/' ∷ (w ++ b'.' ∷ []))) e
                ∙ target-last_dot default_file w next h),
    )
