-- ===== src/Http/ParserPool.antt =====
-- src/http/main.c: the pool of parsers, one for each open connection.
-- A parser is the number of its address. `none` is an access outside `parser_pool`.
pub mod Sharing
pub mod Overflow
mod Tests
use blocks.Prelude.{
  ℕ, zero, suc, ◌+◌, Bool, true, false, List, [], ◌∷◌, Option, none, some, ltb, if◌then◌else◌,
  ◌>>=◌, length, get_elem?,
}
use blocks.Prelude.Int.{ℤ, pos, negsuc, succ, pred}
use blocks.Http.Buffer.{write}

-- The static variables `parser_pool`, `parser_stack_top` and `parser_pool_size`.
pub record ParserPool : Type 0 where
  pub parser_pool : List ℕ
  pub parser_stack_top : ℤ
  pub parser_pool_size : ℕ

-- The loop of `init_http_parser_pool`: `fresh i` is what `request_processor_init` allocates.
unfoldable pub init_parsers : ℕ → ℕ → (ℕ → ℕ) → List ℕ
init_parsers i zero fresh = []
init_parsers i (suc rounds) fresh = fresh i ∷ init_parsers (i + 1) rounds fresh

unfoldable pub init_http_parser_pool : ℕ → (ℕ → ℕ) → ParserPool
unfolding init_parsers
init_http_parser_pool size fresh = record {
  parser_pool = init_parsers 0 size fresh;
  parser_stack_top = pos 0;
  parser_pool_size = size;
}

unfoldable pub get_at : ℤ → ParserPool → ℕ → Option (ℕ × ParserPool)
get_at (pos top) p fresh =
    if ltb top p.parser_pool_size
    then (do
      parser ← get_elem? p.parser_pool top
      some (parser, record p { parser_stack_top = pos (suc top) }))
    else some (fresh, p)
get_at (negsuc top) p fresh = none

-- `fresh` is the parser that `request_processor_init` allocates, if it is called.
unfoldable pub get_http_parser : ParserPool → ℕ → Option (ℕ × ParserPool)
unfolding get_at
get_http_parser p fresh = get_at p.parser_stack_top p fresh

unfoldable pub release_at : ℤ → ParserPool → ℕ → Option (Bool × ParserPool)
unfolding write
release_at (pos top) p parser =
    if ltb top p.parser_pool_size
    then (do
      slots ← write p.parser_pool top parser
      some (false, record p { parser_pool = slots; parser_stack_top = pos top }))
    else some (true, record p { parser_stack_top = pos top })
release_at (negsuc top) p parser = none

-- The flag says that the parser went to `request_processor_destroy`.
unfoldable pub release_http_parser : ParserPool → ℕ → Option (Bool × ParserPool)
unfolding release_at
release_http_parser p parser = release_at (pred p.parser_stack_top) p parser
