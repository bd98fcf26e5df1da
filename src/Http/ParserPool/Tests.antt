-- ===== src/Http/ParserPool/Tests.antt =====
-- Histories of a pool of two parsers, and the theorems about them.
use mathlib.Core.List.{Perm, Nodup}
use blocks.Prelude.{ℕ, ◌+◌, ◌≡◌, refl, List, [], ◌∷◌, none, some, arith, length}
use blocks.Prelude.Int.{pos}
use blocks.Http.ParserPool.{ParserPool, init_parsers, init_http_parser_pool, get_http_parser}
use blocks.Http.ParserPool.Sharing.{Reach, start, opened, owned, Reach-Nodup}
use blocks.Http.ParserPool.Overflow.{open_all, close_all, close_all-open_all}

abbrev init : ℕ → ℕ
init i = i + 100

abbrev pool : ParserPool
pool = record { parser_pool = 100 ∷ 101 ∷ []; parser_stack_top = pos 1; parser_pool_size = 2 }

-- One connection is open.
pool-Reach : Reach 2 init (100 ∷ []) pool
unfolding get_http_parser init_http_parser_pool
pool-Reach = opened {x = 100} 7 start (omega arith) refl

init_injective : (j k : ℕ) → init j ≡ init k → j ≡ k
init_injective j k e = omega arith

Reach-Nodup_example :
    Nodup (owned (100 ∷ []) pool) × Perm (owned (100 ∷ []) pool) (init_parsers 0 2 init)
Reach-Nodup_example = Reach-Nodup pool-Reach init_injective

-- A pool of two, and three connections.
close_all-open_all_example :
    (xs : List ℕ) × (q : ParserPool) × (open_all (7 ∷ 8 ∷ 9 ∷ []) (init_http_parser_pool 2 init)
      ≡ some (xs, q))
    × (length xs ≡ 3)
    × (close_all (9 ∷ 101 ∷ 100 ∷ []) q ≡ none)
close_all-open_all_example =
    close_all-open_all 2 init (7 ∷ 8 ∷ 9 ∷ []) (9 ∷ 101 ∷ 100 ∷ []) (omega arith) refl
