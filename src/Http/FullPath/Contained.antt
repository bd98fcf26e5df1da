-- ===== src/Http/FullPath/Contained.antt =====
-- Whether the served string stays below the root.
use blocks.Prelude.{
  ℕ, zero, suc, ◌+◌, ◌<◌, ◌≡◌, refl, Bool, true, false, ◌&&◌, ◌||◌, List, [], ◌∷◌, ◌++◌, some,
  arith, ◌==◌, Bool-cases, inl, inr, length, take,
}
use blocks.Http.Buffer.{NoNul}
use blocks.Http.FullPath.{get_full_path}
use blocks.Http.FullPath.Sanitized.{cleaned, last_slash, sanitized, target, get_full_path-target}

-- Two adjacent dots.
unfoldable pub has_dots : List ℕ → Bool
has_dots [] = false
has_dots (c ∷ []) = false
has_dots (c ∷ d ∷ rest) = (c == b'.' && d == b'.') || has_dots (d ∷ rest)

abbrev starts_with_dot : List ℕ → Bool
starts_with_dot [] = false
starts_with_dot (c ∷ _) = c == b'.'

starts-cleaned :
    (depth : ℕ) (d : ℕ) (rest : List ℕ)
    → (d == b'.') ≡ false
    → starts_with_dot (cleaned depth (d ∷ rest)) ≡ false
unfolding cleaned
starts-cleaned depth d [] h = h
starts-cleaned depth d (e ∷ rest) h = ground arith

has_dots-cons :
    (c : ℕ) (xs : List ℕ)
    → (c == b'.' && starts_with_dot xs) ≡ false
    → has_dots xs ≡ false
    → has_dots (c ∷ xs) ≡ false
unfolding has_dots
has_dots-cons c [] h k = refl
has_dots-cons c (d ∷ xs) h k = ground arith

-- Below the first slash no pair of dots is left, also none with the byte behind the string.
has_dots-cleaned : (depth : ℕ) (xs : List ℕ) → 0 < depth → has_dots (cleaned depth xs) ≡ false
unfolding cleaned
has_dots-cleaned depth [] h = unfold has_dots in refl
has_dots-cleaned depth (c ∷ []) h = unfold has_dots in refl
has_dots-cleaned depth (c ∷ d ∷ rest) h = ground (
  arith,
  has_dots-cons b'/' (b'/' ∷ cleaned depth rest),
  has_dots-cons b'/' (cleaned depth rest),
  has_dots-cleaned depth rest h,
  has_dots-cons c (cleaned depth (d ∷ rest)),
  has_dots-cons c (cleaned (depth + 1) (d ∷ rest)),
  has_dots-cleaned depth (d ∷ rest) h,
  has_dots-cleaned (depth + 1) (d ∷ rest),
  starts-cleaned depth d rest,
  starts-cleaned (depth + 1) d rest,
)

has_dots-take : (n : ℕ) (xs : List ℕ) → has_dots xs ≡ false → has_dots (take n xs) ≡ false
unfolding has_dots
has_dots-take zero xs h = refl
has_dots-take (suc n) [] h = refl
has_dots-take (suc zero) (c ∷ xs) h = refl
has_dots-take (suc (suc n)) (c ∷ []) h = refl
has_dots-take (suc (suc n)) (c ∷ d ∷ xs) h = ground (arith, has_dots-take (suc n) (d ∷ xs))

-- A slash keeps the dots of two strings apart.
has_dots-append :
    (s t : List ℕ)
    → last_slash s ≡ true
    → has_dots s ≡ false
    → has_dots t ≡ false
    → has_dots (s ++ t) ≡ false
unfolding has_dots last_slash
has_dots-append [] t slash h k = k
has_dots-append (c ∷ []) [] slash h k = refl
has_dots-append (c ∷ []) (d ∷ t) slash h k = ground arith
has_dots-append (c ∷ d ∷ s) t slash h k = ground (arith, has_dots-append (d ∷ s) t slash)

has_dots-sanitized : (file : List ℕ) (next : ℕ) → has_dots (sanitized (b'/' ∷ file) next) ≡ false
unfolding cleaned
has_dots-sanitized [] next = unfold has_dots in refl
has_dots-sanitized (c ∷ file) next =
    has_dots-take (suc (suc (length file))) (b'/' ∷ cleaned 1 (c ∷ file ++ next ∷ [])) (
      has_dots-cons b'/' (cleaned 1 (c ∷ file ++ next ∷ [])) refl
        (has_dots-cleaned 1 (c ∷ file ++ next ∷ []) (omega arith)))

has_dots-target :
    (default_file file : List ℕ) (next : ℕ)
    → has_dots default_file ≡ false
    → has_dots (target default_file (b'/' ∷ file) next) ≡ false
unfolding target
has_dots-target default_file file next h =
    elim (Bool-cases (last_slash (sanitized (b'/' ∷ file) next))) [
      | inl slash ↦ rw slash (
          has_dots-append (sanitized (b'/' ∷ file) next) default_file slash
            (has_dots-sanitized file next) h)
      | inr plain ↦ rw plain (has_dots-sanitized file next)
    ]

module _ (path_buffer root default_file file : List ℕ) (root_text : NoNul root)
    (default_text : NoNul default_file) (file_text : NoNul file) where
  -- For a request's path that begins with a slash, and a default file without two adjacent dots, the
  -- string that `get_full_path` puts behind the root has no two adjacent dots: no component of it is
  -- `..`. The buffer has room for the three strings and a zero, and holds anything before the call.
  pub get_full_path-has_dots :
      length root + suc (length file) + length default_file < length path_buffer
      → has_dots default_file ≡ false
      → (served : List ℕ) × (tail : List ℕ) × (get_full_path path_buffer root
            (length root)
            default_file
            (length default_file)
            (b'/' ∷ file)
            (suc (length file))
          ≡ some (root ++ (served ++ 0 ∷ tail)))
        × (has_dots served ≡ false)
  get_full_path-has_dots room h =
      let (next, tail, _, done) =
        get_full_path-target root default_file (b'/' ∷ file) root_text default_text
          (λ e. omega arith, file_text) path_buffer room in
      (target default_file (b'/' ∷ file) next, tail, done, has_dots-target default_file file next h)
