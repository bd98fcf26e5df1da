-- ===== src/Blocks/Threads.antt =====
-- src/blocks/process.c and src/blocks/blocks.c: the list of the pool's threads.
-- The elements of `thread_list` are numbered as they are allocated, and `none` is an access through NULL.
pub mod Extended
mod Tests
use blocks.Prelude.{
  ℕ, zero, suc, ◌+◌, ◌<◌, List, [], ◌∷◌, ◌++◌, Option, none, some, ltb, if◌then◌else◌, ◌>>=◌,
  length, get_elem?, set,
}
use blocks.Prelude.Int.{ℤ, pos, negsuc}

-- The fields `head` and `end` of struct thread_pool, and the `next` of each element that was allocated.
-- `created` has the elements for which `pthread_create` was called, in that order.
pub record ThreadPool : Type 0 where
  pub head : Option ℕ
  pub end : Option ℕ
  pub nexts : List (Option ℕ)
  pub created : List ℕ

abbrev pub new_pool : ThreadPool
new_pool = record { head = none; end = none; nexts = []; created = [] }

-- `prev_thread->next = thread_item`
unfoldable pub link : Option ℕ → ℕ → List (Option ℕ) → Option (List (Option ℕ))
link none item nexts = none
link (some prev) item nexts =
    if ltb prev (length nexts) then some (set nexts prev (some item)) else none

-- The two branches on `pool->head`.
unfoldable pub attach : Option ℕ → Option ℕ → ℕ → ThreadPool → Option ThreadPool
attach none prev_thread item pool = some (record pool { head = some item })
attach (some first) prev_thread item pool = do
  nexts ← link prev_thread item pool.nexts
  some (record pool { nexts = nexts })

-- The loop, with `prev_thread` as it is in the end.
unfoldable pub extend_rounds : ℕ → Option ℕ → ThreadPool → Option (Option ℕ × ThreadPool)
extend_rounds zero prev_thread pool = some (prev_thread, pool)
extend_rounds (suc rounds) prev_thread pool = do
  let item = length pool.nexts
  pool ← attach pool.head prev_thread item (record pool { nexts = pool.nexts ++ none ∷ [] })
  extend_rounds rounds (some item) (record pool { created = pool.created ++ item ∷ [] })

-- How often `for (i = 0; i < size; i++)` goes round.
unfoldable pub rounds_of : ℤ → ℕ
rounds_of (pos n) = n
rounds_of (negsuc n) = 0

unfoldable pub threadpool_extend : ThreadPool → ℤ → Option ThreadPool
threadpool_extend pool size = do
  (prev_thread, pool) ← extend_rounds (rounds_of size) pool.end pool
  some (record pool { end = prev_thread })

unfoldable pub threadpool_init : ℤ → Option ThreadPool
threadpool_init size = threadpool_extend new_pool size

-- The static variable `pool` of blocks.c is NULL before the first call of `l_blocks_init`.
unfoldable pub l_blocks_init : Option ThreadPool → Option (Option ThreadPool)
l_blocks_init none = do pool ← threadpool_init (pos 5); some (some pool)
l_blocks_init (some pool) = some (some pool)

unfoldable pub l_pool_extend : ℤ → Option ThreadPool → Option (Option ThreadPool)
l_pool_extend size none = some none
l_pool_extend size (some pool) = do pool ← threadpool_extend pool size; some (some pool)

-- Calls of Lua code: `luaopen_blocks`, in each new Lua state, and `extend_pool`.
pub data PoolCall : Type 0 where
  opens : PoolCall
  extends : ℤ → PoolCall

unfoldable pub pool_call : PoolCall → Option ThreadPool → Option (Option ThreadPool)
pool_call opens pool = l_blocks_init pool
pool_call (extends size) pool = l_pool_extend size pool

unfoldable pub pool_calls : List PoolCall → Option ThreadPool → Option (Option ThreadPool)
pool_calls [] pool = some pool
pool_calls (call ∷ calls) pool = do pool ← pool_call call pool; pool_calls calls pool
