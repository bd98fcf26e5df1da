-- ===== src/Http/SendFile/Tests.antt =====
-- A file of three bytes, and a client that takes two at a time.
use blocks.Prelude.{ℕ, ◌≡◌, refl, List, [], ◌∷◌, some, ltb, if◌then◌else◌}
use blocks.Http.SendFile.{send_chunks, send_file}
use blocks.Http.SendFile.Whole.{Sent, send_file-Sent}

abbrev two_at_most : List ℕ → ℕ → ℕ
two_at_most sent n = if ltb 2 n then 2 else n

send_file-Sent_example :
    Sent two_at_most [] (1 ∷ 2 ∷ 3 ∷ []) (send_file two_at_most (1 ∷ 2 ∷ 3 ∷ []))
send_file-Sent_example = send_file-Sent two_at_most (1 ∷ 2 ∷ 3 ∷ [])

cut_off : send_file two_at_most (1 ∷ 2 ∷ 3 ∷ []) ≡ some (1 ∷ 2 ∷ [], 2)
unfolding send_file send_chunks
cut_off = refl
