-- ===== src/Blocks/Threads/Tests.antt =====
-- process.c: a pool that is extended twice.
use blocks.Prelude.{◌≡◌, List, [], ◌∷◌, Option, none, some}
use blocks.Prelude.Int.{pos, negsuc}
use blocks.Blocks.Threads.{ThreadPool, PoolCall, opens, extends, pool_calls, rounds_of}
use blocks.Blocks.Threads.Extended.{Holds, pool_calls-Holds}

-- The first extension comes before there is a pool, and the last one has a negative size.
abbrev calls : List PoolCall
calls = extends (pos 2) ∷ opens ∷ extends (pos 3) ∷ opens ∷ extends (negsuc 0) ∷ []

pool_calls-Holds_example :
    (pool : Option ThreadPool) × (pool_calls calls none ≡ some pool) × Holds (some 8) pool
unfolding rounds_of
pool_calls-Holds_example = pool_calls-Holds calls
