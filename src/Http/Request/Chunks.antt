-- ===== src/Http/Request/Chunks.antt =====
-- request_processor.c: `save_data`, for a path and a query that come in chunks.
use blocks.Prelude.{
  ℕ, zero, suc, ◌+◌, ◌≡◌, refl, sym, ap, ◌∙◌, ◌⊎◌, inl, inr, List, [], ◌∷◌, ◌++◌, some, arith,
  length, length-append, append_assoc, append-nil, split_at,
}
use blocks.Http.Buffer.{NoNul, write-append, strncpy-append}
use blocks.Http.Request.{
  realloc, save_data, c_string, ConnInfo, on_path, on_paths, on_query, on_queries,
}

-- The buffer `old` and its size hold the string `text`; NULL holds the empty string.
abbrev pub HoldsText : List ℕ → ℕ → List ℕ → Type 0
HoldsText old size text =
    (size ≡ length text) × ((old ≡ text ++ 0 ∷ []) ⊎ ((old ≡ []) × (text ≡ [])))

pub length-realloc : (junk : ℕ → ℕ) (old : List ℕ) (n : ℕ) → length (realloc junk old n) ≡ n
unfolding realloc
length-realloc junk old zero = refl
length-realloc junk [] (suc n) = ap suc (length-realloc junk [] n)
length-realloc junk (b ∷ old) (suc n) = ap suc (length-realloc junk old n)

realloc-append :
    (junk : ℕ → ℕ) (text rest : List ℕ) (n : ℕ)
    → realloc junk (text ++ rest) (length text + n) ≡ text ++ realloc junk rest n
unfolding realloc
realloc-append junk [] rest n = ap (realloc junk rest) (omega arith)
realloc-append junk (b ∷ text) rest n =
    let e : suc (length text) + n ≡ suc (length text + n) = omega arith in
    rw e (ap (◌∷◌ b) (realloc-append junk text rest n))

-- The string that was there, and new bytes behind it.
grown :
    (junk : ℕ → ℕ) (old text : List ℕ) (size n : ℕ)
    → HoldsText old size text
    → (rest : List ℕ) × (realloc junk old (size + n) ≡ text ++ rest) × (length rest ≡ n)
grown junk old text size n (e, inl b) = (
  realloc junk (0 ∷ []) n,
  rw (e, b) (realloc-append junk text (0 ∷ []) n),
  length-realloc junk (0 ∷ []) n,
)
grown junk old text size n (e, inr (b, t)) =
    (realloc junk [] n, rw (e, b, t) (ap (realloc junk []) (omega arith)), length-realloc junk [] n)

empty : (xs : List ℕ) → length xs ≡ 0 → xs ≡ []
empty [] e = refl
empty (x ∷ xs) e = absurd (omega arith)

-- One chunk that holds no zero byte.
pub save_data-HoldsText :
    (junk : ℕ → ℕ) (old text chunk : List ℕ) (size : ℕ)
    → HoldsText old size text
    → NoNul chunk
    → (b : List ℕ) × (n : ℕ) × (save_data junk old size chunk (length chunk) ≡ some (b, n))
      × HoldsText b n (text ++ chunk)
unfolding save_data
save_data-HoldsText junk old text chunk size h clean =
    let (rest, g, l) = grown junk old text size (length chunk + 1) h in
    let (front, last, tail, cut, lf) = split_at (length chunk) rest (omega (arith, l)) in
    let none_left : tail ≡ [] =
      empty tail (omega (arith, l, ap length cut, length-append front (last ∷ tail))) in
    let order : length chunk + size + 1 ≡ size + (length chunk + 1) = omega arith in
    let whole : realloc junk old (length chunk + size + 1) ≡ (text ++ front) ++ last ∷ [] =
      rw order (
        g
        ∙ ap (λ xs. text ++ xs) cut
        ∙ ap (λ t. text ++ (front ++ last ∷ t)) none_left
        ∙ sym (append_assoc text front (last ∷ []))) in
    (
      text ++ (chunk ++ 0 ∷ []),
      length chunk + size,
      rw (
        whole,
        write-append (text ++ front) [] last 0 (length chunk + size)
            (omega (arith, h.0, length-append text front, lf)),
        append_assoc text front (0 ∷ []),
        strncpy-append text front (0 ∷ []) chunk size (length chunk) h.0 refl lf clean,
      ),
      (omega (arith, h.0, length-append text chunk), inl (sym (append_assoc text chunk (0 ∷ [])))),
    )

abbrev pub AllNoNul : List (List ℕ) → Type 0
AllNoNul [] = Unit {0}
AllNoNul (chunk ∷ chunks) = NoNul chunk × AllNoNul chunks

abbrev pub concat : List (List ℕ) → List ℕ
concat [] = []
concat (chunk ∷ chunks) = chunk ++ concat chunks

-- However the path is cut into chunks, none of which holds a zero byte, the calls of `on_path` for them
-- make no access out of bounds, and leave the whole path in the buffer, behind what was there, and nothing
-- else of the connection is changed.
pub on_paths-HoldsText :
    (junk : ℕ → ℕ) (chunks : List (List ℕ)) (c : ConnInfo) (text : List ℕ)
    → HoldsText c.path c.path_size text
    → AllNoNul chunks
    → (b : List ℕ) × (n : ℕ) × (on_paths junk chunks c
        ≡ some (record c { path = b; path_size = n }))
      × HoldsText b n (text ++ concat chunks)
unfolding on_paths on_path
on_paths-HoldsText junk [] c text h clean = (c.path, c.path_size, refl, rw (append-nil text) h)
on_paths-HoldsText junk (chunk ∷ chunks) c text h clean =
    let (b, n, e, h') = save_data-HoldsText junk c.path text chunk c.path_size h clean.0 in
    let (b', n', e', h2) =
      on_paths-HoldsText junk chunks (record c { path = b; path_size = n }) (text ++ chunk) h'
        clean.1 in
    (b', n', rw (e, e'), rw (append_assoc text chunk (concat chunks)) at h2)

-- The same of `on_query`.
pub on_queries-HoldsText :
    (junk : ℕ → ℕ) (chunks : List (List ℕ)) (c : ConnInfo) (text : List ℕ)
    → HoldsText c.query c.query_size text
    → AllNoNul chunks
    → (b : List ℕ) × (n : ℕ) × (on_queries junk chunks c
        ≡ some (record c { query = b; query_size = n }))
      × HoldsText b n (text ++ concat chunks)
unfolding on_queries on_query
on_queries-HoldsText junk [] c text h clean = (c.query, c.query_size, refl, rw (append-nil text) h)
on_queries-HoldsText junk (chunk ∷ chunks) c text h clean =
    let (b, n, e, h') = save_data-HoldsText junk c.query text chunk c.query_size h clean.0 in
    let (b', n', e', h2) =
      on_queries-HoldsText junk chunks (record c { query = b; query_size = n }) (text ++ chunk) h'
        clean.1 in
    (b', n', rw (e, e'), rw (append_assoc text chunk (concat chunks)) at h2)

pub c_string-append : (text : List ℕ) → NoNul text → c_string (text ++ 0 ∷ []) ≡ some text
unfolding c_string
c_string-append [] h = refl
c_string-append (c ∷ text) h = ground (arith, c_string-append text h.1)
