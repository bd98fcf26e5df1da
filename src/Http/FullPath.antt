-- ===== src/Http/FullPath.antt =====
-- src/http/file_util.c: the file name that a request's path names.
-- A `char *` is a list of bytes without the closing zero; the buffer is a list of bytes of the size
-- that the caller allocates, with any content. `none` is an access outside the buffer.
pub mod Sanitized
pub mod Contained
pub mod LastDot
mod Tests
use blocks.Prelude.{
  ℕ, zero, suc, ◌+◌, ◌-◌, Bool, true, false, ◌&&◌, List, Option, none, some, ltb, ◌==◌,
  if◌then◌else◌, ◌>>=◌, get_elem?,
}
use blocks.Http.Buffer.{write, strncpy}

-- `newfile[i] == '.' && newfile[i+1] == '.'`: the second byte is read only if the first is a dot.
unfoldable pub both_dots : List ℕ → ℕ → Option Bool
both_dots buf p = do
  c ← get_elem? buf p
  if c == b'.' then (get_elem? buf (p + 1) >>= λ d. some (d == b'.')) else some false

-- One round of the `for` loop over `newfile`, which is `path_buffer + base`, at index `i`: the buffer,
-- the next index and the depth after it.
unfoldable pub round : List ℕ → ℕ → ℕ → ℕ → Option (List ℕ × ℕ × ℕ)
round buf base i depth = do
  dots ← both_dots buf (base + i)
  if dots && ltb 0 depth
      then (do
        b ← write buf (base + i) b'/'
        b' ← write b (base + i + 1) b'/'
        some (b', i + 2, depth))
      else (do
        c ← get_elem? buf (base + i)
        some (buf, i + 1, if c == b'/' then depth + 1 else depth))

-- The loop, from index `i` on.
unfoldable pub neutralise : ℕ → List ℕ → ℕ → ℕ → ℕ → ℕ → Option (List ℕ)
neutralise zero buf base file_length i depth = none
neutralise (suc fuel) buf base file_length i depth = elim (ltb i file_length) [
  | false ↦ some buf
  | true ↦ do (b, i', depth') ← round buf base i depth; neutralise fuel b base file_length i' depth'
]

-- `file_length > 0 && newfile[file_length - 1] == '/'`
unfoldable pub ends_in_slash : List ℕ → ℕ → ℕ → Option Bool
ends_in_slash buf base zero = some false
ends_in_slash buf base (suc n) = do c ← get_elem? buf (base + n); some (c == b'/')

-- The `if` and `else` behind the loop: append the default file, or only the closing zero.
unfoldable pub terminate : Bool → List ℕ → ℕ → List ℕ → ℕ → Option (List ℕ)
terminate true b end default_file default_file_length = do
  b ← strncpy b end default_file default_file_length
  write b (end + default_file_length) 0
terminate false b end default_file default_file_length = write b end 0

unfoldable pub get_full_path : List ℕ → List ℕ → ℕ → List ℕ → ℕ → List ℕ → ℕ → Option (List ℕ)
get_full_path path_buffer path path_length default_file default_file_length file file_length = do
  b ← strncpy path_buffer 0 path path_length
  b ← strncpy b path_length file file_length
  b ← neutralise (file_length + 1) b path_length file_length 0 0
  slash ← ends_in_slash b path_length file_length
  terminate slash b (path_length + file_length) default_file default_file_length
