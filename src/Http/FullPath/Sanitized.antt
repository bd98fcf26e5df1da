-- ===== src/Http/FullPath/Sanitized.antt =====
-- What `get_full_path` puts in its buffer, as a function on strings.
use blocks.Prelude.{
  ℕ, zero, suc, ◌+◌, ◌≤◌, ◌<◌, ◌≡◌, refl, ap, ◌∙◌, Bool, true, false, ◌&&◌, List, [], ◌∷◌, ◌++◌,
  some, inl, inr, arith, ltb, lt→ltb, ◌==◌, if◌then◌else◌, Bool-cases, length, get_elem?, take,
  length-append, get_elem?-append, append_assoc, split_at, split_front, take-snoc,
}
use blocks.Http.Buffer.{
  NoNul, write-append, write-append_second, get_elem?-append_second, strncpy-append,
}
use blocks.Http.FullPath.{both_dots, round, neutralise, ends_in_slash, terminate, get_full_path}

-- `..` below the first slash becomes `//`. The last element is the byte behind the string, which the
-- loop reads, and overwrites if it completes a pair.
unfoldable pub cleaned : ℕ → List ℕ → List ℕ
cleaned depth [] = []
cleaned depth (c ∷ []) = c ∷ []
cleaned depth (c ∷ d ∷ rest) =
    if (c == b'.' && d == b'.') && ltb 0 depth
    then b'/' ∷ b'/' ∷ cleaned depth rest
    else c ∷ cleaned (if c == b'/' then depth + 1 else depth) (d ∷ rest)

pub length-cleaned : (depth : ℕ) (xs : List ℕ) → length (cleaned depth xs) ≡ length xs
unfolding cleaned
length-cleaned depth [] = refl
length-cleaned depth (c ∷ []) = refl
length-cleaned depth (c ∷ d ∷ rest) = ground (
  arith,
  length-cleaned depth rest,
  length-cleaned depth (d ∷ rest),
  length-cleaned (depth + 1) (d ∷ rest),
)

both_dots-append :
    (pre rest : List ℕ) (c d p : ℕ)
    → p ≡ length pre
    → both_dots (pre ++ c ∷ d ∷ rest) p ≡ some (c == b'.' && d == b'.')
unfolding both_dots
both_dots-append pre rest c d p e =
    rw (get_elem?-append pre (d ∷ rest) c p e, get_elem?-append_second pre rest c d p e)
      (ground arith)

module _ (pre rest : List ℕ) (c d base i depth : ℕ) (e : base + i ≡ length pre) where
  round_pair :
      ((c == b'.' && d == b'.') && ltb 0 depth) ≡ true
      → round (pre ++ c ∷ d ∷ rest) base i depth ≡ some (pre ++ b'/' ∷ b'/' ∷ rest, i + 2, depth)
  unfolding round
  round_pair hit = rw (
    both_dots-append pre rest c d (base + i) e,
    hit,
    write-append pre (d ∷ rest) c b'/' (base + i) e,
    write-append_second pre rest b'/' d b'/' (base + i) e,
  )

  round_single :
      ((c == b'.' && d == b'.') && ltb 0 depth) ≡ false
      → round (pre ++ c ∷ d ∷ rest) base i depth
        ≡ some (pre ++ c ∷ d ∷ rest, i + 1, if c == b'/' then depth + 1 else depth)
  unfolding round
  round_single miss = rw (
    both_dots-append pre rest c d (base + i) e,
    miss,
    get_elem?-append pre (d ∷ rest) c (base + i) e,
  )

-- The loop does the same in place, with a round for each byte as fuel.
pub neutralise-cleaned :
    (fuel : ℕ) (pre rest tail : List ℕ) (base n i depth : ℕ)
    → base + i ≡ length pre
    → i + length rest ≡ n + 1
    → length rest ≤ fuel
    → 0 < fuel
    → neutralise fuel (pre ++ (rest ++ tail)) base n i depth
      ≡ some (pre ++ (cleaned depth rest ++ tail))
unfolding neutralise cleaned
neutralise-cleaned zero pre rest tail base n i depth e m f g = absurd (omega arith)
neutralise-cleaned (suc fuel) pre [] tail base n i depth e m f g = ground arith
neutralise-cleaned (suc fuel) pre (c ∷ []) tail base n i depth e m f g = ground arith
neutralise-cleaned (suc fuel) pre (c ∷ d ∷ rest) tail base n i depth e m f g =
    elim (Bool-cases ((c == b'.' && d == b'.') && ltb 0 depth)) [
      | inl hit ↦
          let ih =
            neutralise-cleaned fuel (pre ++ b'/' ∷ b'/' ∷ []) rest tail base n (i + 2) depth
              (omega (arith, length-append pre (b'/' ∷ b'/' ∷ []))) (omega arith) (omega arith)
              (omega arith) in
          rw
            (
              lt→ltb i n (omega arith),
              neutralise,
              hit,
              round_pair pre (rest ++ tail) c d base i depth e hit,
            )
            (simp append_assoc at ih)
      | inr miss ↦
          let ih =
            neutralise-cleaned fuel (pre ++ c ∷ []) (d ∷ rest) tail base n (i + 1)
              (if c == b'/' then depth + 1 else depth) (omega (arith, length-append pre (c ∷ [])))
              (omega arith) (omega arith) (omega arith) in
          rw
            (
              lt→ltb i n (omega arith),
              neutralise,
              miss,
              round_single pre (rest ++ tail) c d base i depth e miss,
            )
            (simp append_assoc at ih)
    ]

-- The last byte of a string is a slash.
unfoldable pub last_slash : List ℕ → Bool
last_slash [] = false
last_slash (c ∷ []) = c == b'/'
last_slash (c ∷ d ∷ rest) = last_slash (d ∷ rest)

ends_in_slash-last_slash :
    (pre s tail : List ℕ) (base : ℕ)
    → base ≡ length pre
    → ends_in_slash (pre ++ (s ++ tail)) base (length s) ≡ some (last_slash s)
unfolding ends_in_slash last_slash
ends_in_slash-last_slash pre [] tail base e = refl
ends_in_slash-last_slash pre (c ∷ []) tail base e =
    rw (get_elem?-append pre tail c (base + 0) (omega arith))
ends_in_slash-last_slash pre (c ∷ d ∷ s) tail base e =
    let ih =
      ends_in_slash-last_slash (pre ++ c ∷ []) (d ∷ s) tail (base + 1)
        (omega (arith, length-append pre (c ∷ []))) in
    let shift : base + suc (length s) ≡ base + 1 + length s = omega arith in
    rw (shift, ← append_assoc pre (c ∷ []) (d ∷ (s ++ tail))) ih

module _ (pre s : List ℕ) (n : ℕ) (en : n ≡ length pre + length s) where
  -- The part behind the loop, over a buffer that still has room for the default file and a zero.
  terminate_lem :
      (rest default_file : List ℕ) (slash : Bool)
      → NoNul default_file
      → length default_file < length rest
      → (tail : List ℕ) × (terminate slash (pre ++ (s ++ rest)) n default_file (length default_file)
          ≡ some (pre ++ ((if slash then s ++ default_file else s) ++ 0 ∷ tail)))
  unfolding terminate
  terminate_lem rest default_file true h room =
      let (old, w, tail, e, l) = split_at (length default_file) rest room in
      let copied =
        strncpy-append (pre ++ s) old (w ∷ tail) default_file n (length default_file)
          (omega (arith, length-append pre s)) refl l h in
      let closed =
        write-append ((pre ++ s) ++ default_file) tail w 0 (n + length default_file)
          (omega (arith, length-append pre s, length-append (pre ++ s) default_file)) in
      (tail, rw (e, simp append_assoc at copied) (simp append_assoc (simp append_assoc at closed)))
  terminate_lem [] default_file false h room = absurd (omega arith)
  terminate_lem (y ∷ rest) default_file false h room = (
    rest,
    rw (← append_assoc pre s (y ∷ rest), ← append_assoc pre s (0 ∷ rest))
        (write-append (pre ++ s) rest y 0 n (omega (arith, length-append pre s))),
  )

-- The string that is served for `file`, where `next` is the byte behind it in the buffer.
abbrev pub sanitized : List ℕ → ℕ → List ℕ
sanitized file next = take (length file) (cleaned 0 (file ++ next ∷ []))

unfoldable pub target : List ℕ → List ℕ → ℕ → List ℕ
unfolding cleaned last_slash
target default_file file next =
    let s = sanitized file next in if last_slash s then s ++ default_file else s

module _ (root default_file file : List ℕ) (root_text : NoNul root)
    (default_text : NoNul default_file) (file_text : NoNul file) where
  -- Over a buffer that is cut at the ends of the two strings.
  get_full_path-split :
      (old_root old_file rest : List ℕ) (next : ℕ)
      → length old_root ≡ length root
      → length old_file ≡ length file
      → length default_file ≤ length rest
      → (tail : List ℕ) × (get_full_path
            (old_root ++ (old_file ++ next ∷ rest))
            root
            (length root)
            default_file
            (length default_file)
            file
            (length file)
          ≡ some (root ++ (target default_file file next ++ 0 ∷ tail)))
  unfolding get_full_path target
  get_full_path-split old_root old_file rest next er ef room =
      let whole = length-cleaned 0 (file ++ next ∷ []) ∙ length-append file (next ∷ []) in
      let (y, split, l) = take-snoc (length file) (cleaned 0 (file ++ next ∷ [])) whole in
      let loop =
        neutralise-cleaned (length file + 1) root (file ++ next ∷ []) rest (length root)
          (length file) 0 0 (omega arith) (omega (arith, length-append file (next ∷ [])))
          (omega (arith, length-append file (next ∷ []))) (omega arith) in
      let looped = rw split at loop in
      let slash =
        ends_in_slash-last_slash root (sanitized file next) (y ∷ rest) (length root) refl in
      let (tail, done) =
        terminate_lem root (sanitized file next) (length root + length file) (omega arith)
          (y ∷ rest) default_file (last_slash (sanitized file next)) default_text (omega arith) in
      (
        tail,
        rw
            (
              strncpy-append [] old_root (old_file ++ next ∷ rest) root 0 (length root) refl refl er
                  root_text,
              strncpy-append root old_file (next ∷ rest) file (length root) (length file) refl refl
                  ef file_text,
              simp append_assoc at looped,
              rw l at slash,
            )
            done,
      )

  get_full_path-cut :
      (path_buffer front rest : List ℕ) (next : ℕ)
      → path_buffer ≡ front ++ next ∷ rest
      → length front ≡ length root + length file
      → length default_file ≤ length rest
      → (tail : List ℕ) × (get_elem? path_buffer (length root + length file) ≡ some next)
        × (get_full_path path_buffer root
              (length root)
              default_file
              (length default_file)
              file
              (length file)
            ≡ some (root ++ (target default_file file next ++ 0 ∷ tail)))
  get_full_path-cut path_buffer front rest next e l room =
      let (old_root, old_file, cut, lr, lf) = split_front (length root) (length file) front l in
      let (tail, done) = get_full_path-split old_root old_file rest next lr lf room in
      let whole : path_buffer ≡ old_root ++ (old_file ++ next ∷ rest) =
        e ∙ ap (λ xs. xs ++ next ∷ rest) cut ∙ append_assoc old_root old_file (next ∷ rest) in
      (
        tail,
        rw e (get_elem?-append front rest next (length root + length file) (omega arith)),
        rw whole done,
      )

  -- In any buffer with room for the three strings and the closing zero, `get_full_path` makes no
  -- access out of bounds, and it leaves there the root, the served string of the request's path
  -- (which depends on the byte that stood behind it in the buffer) and a zero byte.
  pub get_full_path-target :
      (path_buffer : List ℕ)
      → length root + length file + length default_file < length path_buffer
      → (next : ℕ) × (tail : List ℕ) × (get_elem? path_buffer (length root + length file)
          ≡ some next)
        × (get_full_path path_buffer root
              (length root)
              default_file
              (length default_file)
              file
              (length file)
            ≡ some (root ++ (target default_file file next ++ 0 ∷ tail)))
  get_full_path-target path_buffer room =
      let (front, next, rest, e, l) =
        split_at (length root + length file) path_buffer (omega arith) in
      let size = length-append front (next ∷ rest) in
      let (tail, byte, done) =
        get_full_path-cut path_buffer front rest next e l (omega (arith, ap length e, size)) in
      (next, tail, byte, done)
