-- ===== src/Http/Parsers/Tests.antt =====
-- A parser at address 1 that has read a path, and is destroyed.
use blocks.Prelude.{◌≡◌, refl, true, false, none, some, arith, inl}
use blocks.Blocks.Store.{Ptr, null, update}
use blocks.Http.Parsers.{Heap, request_processor_init, save_path, inits, paths, destroys, run_event}
use blocks.Http.Parsers.History.{
  nothing, no_strings, History, start, next, made, path_saved, destroyed, Allowed,
  History-run_event,
}

abbrev one_parser : Heap
one_parser = record nothing { parsers = update nothing.parsers 1 (some no_strings) }

abbrev with_path : Heap
with_path = record {
  parsers = update one_parser.parsers 1 (some (record { path = 50; query = null }));
  allocated = update nothing.allocated 50 true;
}

with_path-History : History with_path
unfolding run_event request_processor_init save_path update
with_path-History =
    next (paths 1 50) (next (inits 1) start (made 1 refl) refl)
      (path_saved 1 50 no_strings refl (omega arith, inl refl)) refl

with_path-Allowed : Allowed with_path (destroys 1)
unfolding update
with_path-Allowed = destroyed 1 (record { path = 50; query = null }) refl

History-run_event_example :
    (h : Heap) × (run_event (destroys 1) with_path ≡ some h)
    × (((p : Ptr) → h.parsers p ≡ none) → (a : Ptr) → h.allocated a ≡ false)
History-run_event_example = History-run_event (destroys 1) with_path-History with_path-Allowed
