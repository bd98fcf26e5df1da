-- ===== src/Http/SendFile/Whole.antt =====
-- file_util.c: what a client gets of a file.
use blocks.Prelude.{
  ℕ, zero, suc, ◌<◌, ◌≤◌, ◌≡◌, refl, sym, ap, ◌∙◌, List, [], ◌∷◌, ◌++◌, Option, some, inl, inr,
  arith, ltb, Bool-cases, if◌then◌else◌, length, take, drop, append-nil, append_assoc, subst,
  ltb→lt, ◌⊎◌,
}
use blocks.Http.SendFile.{buf_size, send_chunks, send_file}

take-drop : (n : ℕ) (xs : List ℕ) → take n xs ++ drop n xs ≡ xs
take-drop zero xs = refl
take-drop (suc n) [] = refl
take-drop (suc n) (x ∷ xs) = ap (◌∷◌ x) (take-drop n xs)

length-drop_le : (n : ℕ) (xs : List ℕ) → length (drop n xs) ≤ length xs
length-drop_le zero xs = omega arith
length-drop_le (suc n) [] = omega arith
length-drop_le (suc n) (x ∷ xs) = omega (arith, length-drop_le n xs)

take_all : (n : ℕ) (xs : List ℕ) → length xs ≤ n → take n xs ≡ xs
take_all zero [] h = refl
take_all zero (x ∷ xs) h = absurd (omega arith)
take_all (suc n) [] h = refl
take_all (suc n) (x ∷ xs) h = ap (◌∷◌ x) (take_all n xs (omega arith))

-- The last call of `fwrite`, for the bytes that `fread` gives behind the bytes `done`, took fewer of them than it
-- was given.
abbrev CutShort : (List ℕ → ℕ → ℕ) → List ℕ → List ℕ → List ℕ → Type 0
CutShort fwrite before src sent =
    (done chunk more : List ℕ) × (src ≡ done ++ (chunk ++ more))
    × (chunk ≡ take buf_size (chunk ++ more))
    × (fwrite (before ++ done) (length chunk) < length chunk)
    × (sent ≡ done ++ take (fwrite (before ++ done) (length chunk)) chunk)

-- What has been sent of the source, which is all of it unless the last call of `fwrite` took too little.
abbrev pub Sent : (List ℕ → ℕ → ℕ) → List ℕ → List ℕ → Option (List ℕ × ℕ) → Type 0
Sent fwrite before src r =
    (sent : List ℕ) × (w : ℕ) × (rest : List ℕ) × (r ≡ some (before ++ sent, w))
    × (src ≡ sent ++ rest)
    × ((rest ≡ []) ⊎ CutShort fwrite before src sent)

-- A call behind a chunk that was taken whole.
CutShort-append :
    (fwrite : List ℕ → ℕ → ℕ) (before chunk more sent : List ℕ)
    → CutShort fwrite (before ++ chunk) more sent
    → CutShort fwrite before (chunk ++ more) (chunk ++ sent)
CutShort-append fwrite before chunk more sent (done, c, m, split, read, less, end) =
    let at : (before ++ chunk) ++ done ≡ before ++ (chunk ++ done) =
      append_assoc before chunk done in
    let n = λ (xs : List ℕ). fwrite xs (length c) in
    (
      chunk ++ done,
      c,
      m,
      ap (λ xs. chunk ++ xs) split ∙ sym (append_assoc chunk done (c ++ m)),
      read,
      subst (λ xs. n xs < length c) at less,
      ap (λ xs. chunk ++ xs) end
          ∙ sym (append_assoc chunk done (take (n ((before ++ chunk) ++ done)) c))
          ∙ ap (λ xs. (chunk ++ done) ++ take (n xs) c) at,
    )

-- The two ways out of a round, over any chunk and what stands behind it.
module _ (fuel : ℕ) (fwrite : List ℕ → ℕ → ℕ) (before chunk more : List ℕ)
    (read : chunk ≡ take buf_size (chunk ++ more)) where
  abbrev w : ℕ
  w = fwrite before (length chunk)

  abbrev chunk_round : Option (List ℕ × ℕ)
  chunk_round =
      if ltb w (length chunk)
      then some (before ++ take w chunk, w)
      else send_chunks fuel fwrite more (before ++ take w chunk) w

  chunk_round-Sent :
      Sent fwrite
        (before ++ take w chunk)
        more
        (send_chunks fuel fwrite more (before ++ take w chunk) w)
      → Sent fwrite before (chunk ++ more) chunk_round
  chunk_round-Sent (sent, w', rest, e, cut, all) = elim (Bool-cases (ltb w (length chunk))) [
    | inl short ↦ (
      take w chunk,
      w,
      drop w chunk ++ more,
      rw short,
      ap (λ xs. xs ++ more) (sym (take-drop w chunk))
          ∙ append_assoc (take w chunk) (drop w chunk) more,
      inr (
        [],
        chunk,
        more,
        refl,
        read,
        rw (append-nil before) (ltb→lt w (length chunk) short),
        rw (append-nil before) refl,
      ),
    )
    | inr enough ↦
        let whole : take w chunk ≡ chunk = take_all w chunk (ground (arith, enough)) in
        (
          take w chunk ++ sent,
          w',
          rest,
          rw enough (e ∙ ap (λ xs. some (xs, w')) (append_assoc before (take w chunk) sent)),
          ap (λ xs. chunk ++ xs) cut
              ∙ ap (λ xs. xs ++ (sent ++ rest)) (sym whole)
              ∙ sym (append_assoc (take w chunk) sent rest),
          elim all [
            | inl done ↦ inl done
            | inr by_call ↦ inr (
                subst (λ xs. CutShort fwrite before (chunk ++ more) (xs ++ sent)) (sym whole)
                  (CutShort-append fwrite before chunk more sent
                    (subst (λ xs. CutShort fwrite (before ++ xs) more sent) whole by_call)))
          ],
        )
  ]

send_chunks-Sent :
    (fuel : ℕ) (fwrite : List ℕ → ℕ → ℕ) (src before : List ℕ) (w : ℕ)
    → length src < fuel
    → Sent fwrite before src (send_chunks fuel fwrite src before w)
unfolding send_chunks
send_chunks-Sent zero fwrite src before w h = absurd (omega arith)
send_chunks-Sent (suc fuel) fwrite [] before w h =
    ([], w, [], rw (append-nil before), refl, inl refl)
send_chunks-Sent (suc fuel) fwrite (c ∷ src) before w h =
    let chunk = take buf_size (c ∷ src) in
    let more = drop buf_size (c ∷ src) in
    let n = fwrite before (length chunk) in
    let shorter = length-drop_le 1023 src in
    let rest =
      send_chunks-Sent fuel fwrite more (before ++ take n chunk) n (omega (arith, shorter)) in
    let whole = take-drop buf_size (c ∷ src) in
    let read = sym (ap (take buf_size) whole) in
    subst (λ xs. Sent fwrite before xs (chunk_round fuel fwrite before chunk more read)) whole
      (chunk_round-Sent fuel fwrite before chunk more read rest)

-- Whatever `fwrite` takes each time, `send_file` comes to its end, and what the client gets is the file's
-- bytes from the first on, in order; it is the whole file, unless the last call of `fwrite` for it took fewer
-- bytes than it was given.
pub send_file-Sent :
    (fwrite : List ℕ → ℕ → ℕ) (src : List ℕ) → Sent fwrite [] src (send_file fwrite src)
unfolding send_file
send_file-Sent fwrite src = send_chunks-Sent (suc (length src)) fwrite src [] 0 (omega arith)
