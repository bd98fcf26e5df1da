-- ===== src/Http/Parsers.antt =====
-- src/http/request_processor.c: the parsers, and the strings that are allocated for them.
-- A parser and the `struct http_conn_info` of its `data` are one object, since they are allocated and freed together. What
-- `malloc` and `realloc` return is a parameter; `none` is an access to what is not allocated, or a second `free`.
pub mod Owned
pub mod Freed
pub mod History
mod Tests
use blocks.Prelude.{ℕ, Bool, true, false, Option, none, some, ◌==◌, if◌then◌else◌, ◌>>=◌}
use blocks.Blocks.Store.{Ptr, null, update}

-- The strings of a request, NULL at first.
pub record Strings : Type 0 where
  pub path : Ptr
  pub query : Ptr

pub record Heap : Type 0 where
  pub parsers : Ptr → Option Strings
  pub allocated : Ptr → Bool

unfoldable pub free : Ptr → (Ptr → Bool) → Option (Ptr → Bool)
free p allocated =
    if p == null
    then some allocated
    else if allocated p
    then some (update allocated p false)
    else none

-- The block that `realloc` returns is the old one or a new one; the old one is not there any longer.
unfoldable pub realloc : Ptr → Ptr → (Ptr → Bool) → Option (Ptr → Bool)
unfolding free
realloc p fresh allocated = do allocated ← free p allocated; some (update allocated fresh true)

unfoldable pub request_processor_init : Ptr → Heap → Option Heap
request_processor_init parser h =
    some
      (record h { parsers = update h.parsers parser (some (record { path = null; query = null })) })

unfoldable pub request_processor_reset : Ptr → Heap → Option Heap
unfolding free
request_processor_reset parser h = do
  strings ← h.parsers parser
  allocated ← free strings.path h.allocated
  allocated ← free strings.query allocated
  some (record {
    parsers = update h.parsers parser (some (record { path = null; query = null }));
    allocated = allocated;
  })

-- `on_path` and `on_query`: what `save_data` does to the pointer.
unfoldable pub save_path : Ptr → Ptr → Heap → Option Heap
unfolding realloc
save_path parser fresh h = do
  strings ← h.parsers parser
  allocated ← realloc strings.path fresh h.allocated
  some (record {
    parsers = update h.parsers parser (some (record strings { path = fresh }));
    allocated = allocated;
  })

unfoldable pub save_query : Ptr → Ptr → Heap → Option Heap
unfolding realloc
save_query parser fresh h = do
  strings ← h.parsers parser
  allocated ← realloc strings.query fresh h.allocated
  some (record {
    parsers = update h.parsers parser (some (record strings { query = fresh }));
    allocated = allocated;
  })

unfoldable pub request_processor_destroy : Ptr → Heap → Option Heap
unfolding free
request_processor_destroy parser h = do
  strings ← h.parsers parser
  allocated ← free strings.query h.allocated
  allocated ← free strings.path allocated
  some (record { parsers = update h.parsers parser none; allocated = allocated })

-- The calls that `main.c` and the HTTP parser make.
pub data Event : Type 0 where
  inits resets destroys : Ptr → Event
  paths queries : Ptr → Ptr → Event

unfoldable pub run_event : Event → Heap → Option Heap
unfolding request_processor_init request_processor_reset request_processor_destroy save_path
    save_query
run_event (inits parser) h = request_processor_init parser h
run_event (resets parser) h = request_processor_reset parser h
run_event (destroys parser) h = request_processor_destroy parser h
run_event (paths parser fresh) h = save_path parser fresh h
run_event (queries parser fresh) h = save_query parser fresh h
