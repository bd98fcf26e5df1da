-- ===== src/Http/SendFile.antt =====
-- src/http/file_util.c: `send_file`. The source is the list of the bytes that are left of it; `fread` returns
-- what is left up to the size of the buffer. `fwrite n` is how many of `n` bytes the client's FILE takes, at
-- a time when it has taken the bytes `sent`.
pub mod Whole
mod Tests
use blocks.Prelude.{
  ℕ, zero, suc, List, [], ◌∷◌, ◌++◌, Option, none, some, ltb, if◌then◌else◌, length, take, drop,
}

abbrev pub buf_size : ℕ
buf_size = 1024

-- The loop: what has been sent, and the result of the last `fwrite`; `none` if the fuel runs out.
unfoldable pub send_chunks : ℕ → (List ℕ → ℕ → ℕ) → List ℕ → List ℕ → ℕ → Option (List ℕ × ℕ)
send_chunks zero fwrite src sent w_bytes = none
send_chunks (suc fuel) fwrite [] sent w_bytes = some (sent, w_bytes)
send_chunks (suc fuel) fwrite (c ∷ src) sent w_bytes =
    let chunk = take buf_size (c ∷ src) in
    let w = fwrite sent (length chunk) in
    let rest = send_chunks fuel fwrite (drop buf_size (c ∷ src)) (sent ++ take w chunk) w in
    if ltb w (length chunk) then some (sent ++ take w chunk, w) else rest

unfoldable pub send_file : (List ℕ → ℕ → ℕ) → List ℕ → Option (List ℕ × ℕ)
send_file fwrite src = send_chunks (suc (length src)) fwrite src [] 0
