-- ===== src/Http/Parsers/History.antt =====
-- The histories of what is called on parsers.
use blocks.Prelude.{
  ◌≡◌, refl, sym, ◌∙◌, ◌≢◌, subst, Bool, true, false, Option, none, some, ◌⊎◌, inl, inr, Bool-cases,
}
use blocks.Blocks.Store.{Ptr, null, update}
use blocks.Http.Parsers.{
  Strings, Heap, free, request_processor_init, request_processor_reset, request_processor_destroy,
  save_path, save_query, Event, inits, resets, destroys, paths, queries, run_event,
}
use blocks.Http.Parsers.Owned.{Refers, Owned, Owned-replace, Owned-remove, Owned-insert}
use blocks.Http.Parsers.Freed.{freed, free_lem, freed_keep, freed-true, realloc-Owned}

abbrev pub no_strings : Strings
no_strings = record { path = null; query = null }

-- The block that `realloc` returns for the block at `old`.
abbrev pub Reallocated : Heap → Ptr → Ptr → Type 0
Reallocated h old fresh = (fresh ≢ null) × ((h.allocated fresh ≡ false) ⊎ (fresh ≡ old))

-- The parser of a call is allocated, or is new where it is made.
pub data Allowed (h : Heap) : Event → Type 0 where
  made : (p : Ptr) → h.parsers p ≡ none → Allowed h (inits p)
  reset : (p : Ptr) (c : Strings) → h.parsers p ≡ some c → Allowed h (resets p)
  destroyed : (p : Ptr) (c : Strings) → h.parsers p ≡ some c → Allowed h (destroys p)
  path_saved :
      (p fresh : Ptr) (c : Strings)
      → h.parsers p ≡ some c
      → Reallocated h c.path fresh
      → Allowed h (paths p fresh)
  query_saved :
      (p fresh : Ptr) (c : Strings)
      → h.parsers p ≡ some c
      → Reallocated h c.query fresh
      → Allowed h (queries p fresh)

-- Both strings of a parser are freed, one after the other.
module _ (h : Heap) (o : Owned h) (p : Ptr) (c : Strings) (at : h.parsers p ≡ some c) (x y : Ptr)
    (own_x : Refers c x) (own_y : Refers c y) (of_c : (a : Ptr) → Refers c a → (x ≡ a) ⊎ (y ≡ a))
    (distinct : y ≢ null → y ≢ x) where
  abbrev both : Ptr → Bool
  both = freed y (freed x h.allocated)

  free_first : free x h.allocated ≡ some (freed x h.allocated)
  free_first = free_lem x h.allocated (λ n. o.held p c x at own_x n)

  free_second : free y (freed x h.allocated) ≡ some both
  free_second =
      free_lem y (freed x h.allocated)
        (λ n. freed_keep x y h.allocated (o.held p c y at own_y n) (distinct n))

  both_keep : (a : Ptr) → h.allocated a ≡ true → ((Refers c a) → ⊥) → both a ≡ true
  both_keep a e out =
      freed_keep y a (freed x h.allocated)
        (freed_keep x a h.allocated e (λ same. out (subst (Refers c) (sym same) own_x)))
        (λ same. out (subst (Refers c) (sym same) own_y))

  both_true : (a : Ptr) → both a ≡ true → (h.allocated a ≡ true) × ((Refers c a) → ⊥)
  both_true a e =
      let (e1, gone_y) = freed-true y a (freed x h.allocated) e in
      let (e2, gone_x) = freed-true x a h.allocated e1 in
      let (q, f, eq, rf, n) = o.owner a e2 in
      (
        e2,
        λ rc. elim (of_c a rc) [
          | inl same ↦ gone_x (λ z. n (sym same ∙ z)) (sym same)
          | inr same ↦ gone_y (λ z. n (sym same ∙ z)) (sym same)
        ],
      )

  reset-Owned : Owned (record { parsers = update h.parsers p (some no_strings); allocated = both })
  reset-Owned =
      let empty : (a : Ptr) → Refers no_strings a → a ≢ null → ⊥ =
        λ a r n. elim r [ inl e ↦ n (sym e) | inr e ↦ n (sym e) ] in
      Owned-replace h o p c at both both_keep no_strings (λ a r n. absurd (empty a r n))
        (λ n. absurd (n refl)) (λ a r n. absurd (empty a r n)) (λ a e. inr (both_true a e))

  destroy-Owned : Owned (record { parsers = update h.parsers p none; allocated = both })
  destroy-Owned = Owned-remove h o p c at both both_keep both_true

abbrev Runs : Event → Heap → Type 0
Runs e h = (h' : Heap) × (run_event e h ≡ some h') × Owned h'

swap-Refers : (c : Strings) (a : Ptr) → Refers c a → (c.query ≡ a) ⊎ (c.path ≡ a)
swap-Refers c a (inl e) = inr e
swap-Refers c a (inr e) = inl e

query_apart :
    (h : Heap) (o : Owned h) (p : Ptr) (c : Strings)
    → h.parsers p ≡ some c
    → c.query ≢ null
    → c.query ≢ c.path
query_apart h o p c at n e = o.apart p c at (λ z. n (e ∙ z)) (sym e)

run_event-Owned : (h : Heap) (e : Event) → Owned h → Allowed h e → Runs e h
unfolding run_event request_processor_init request_processor_reset request_processor_destroy
    save_path save_query
run_event-Owned h _ o (made p free) = (_, refl, Owned-insert h p o free)
run_event-Owned h _ o (reset p c at) =
    let refers : (a : Ptr) → Refers c a → (c.path ≡ a) ⊎ (c.query ≡ a) = λ a r. r in
    let distinct = query_apart h o p c at in
    let first = free_first h o p c at c.path c.query (inl refl) (inr refl) refers distinct in
    let second = free_second h o p c at c.path c.query (inl refl) (inr refl) refers distinct in
    (
      _,
      rw (at, first, second),
      reset-Owned h o p c at c.path c.query (inl refl) (inr refl) refers distinct,
    )
run_event-Owned h _ o (destroyed p c at) =
    let first =
      free_first h o p c at c.query c.path (inr refl) (inl refl) (swap-Refers c) (o.apart p c at) in
    let second =
      free_second h o p c at c.query c.path (inr refl) (inl refl) (swap-Refers c)
        (o.apart p c at) in
    (
      _,
      rw (at, first, second),
      destroy-Owned h o p c at c.query c.path (inr refl) (inl refl) (swap-Refers c)
          (o.apart p c at),
    )
run_event-Owned h _ o (path_saved p fresh c at (ne, new)) =
    let d : Strings = record { path = fresh; query = c.query } in
    let (e, owned) =
      realloc-Owned h o p c d at c.path c.query fresh (inl refl) (inr refl) (λ a r. r) (λ a r. r)
        (inl refl) (inr refl) (o.apart p c at) ne new (λ apart n. apart) in
    (_, rw (at, e), owned)
run_event-Owned h _ o (query_saved p fresh c at (ne, new)) =
    let d : Strings = record { path = c.path; query = fresh } in
    let (e, owned) =
      realloc-Owned h o p c d at c.query c.path fresh (inr refl) (inl refl) (swap-Refers c)
        (swap-Refers d) (inr refl) (inl refl) (query_apart h o p c at) ne new
        (λ apart n same. apart (sym same)) in
    (_, rw (at, e), owned)

-- What is allocated at the start.
abbrev pub nothing : Heap
nothing = record { parsers = λ _. none; allocated = λ _. false }

abbrev HeapOwned : Option Heap → Type 0
HeapOwned none = ⊥
HeapOwned (some h) = Owned h

-- The heaps that the calls lead to.
pub data History : Heap → Type 0 where
  start : History nothing
  next : {h h' : Heap} (e : Event) → History h → Allowed h e → run_event e h ≡ some h' → History h'

nothing-Owned : Owned nothing
nothing-Owned = record {
  held = λ p c a e r n. cc;
  apart = λ p c e n. cc;
  unique = λ p q c d a e f r r' n. cc;
  owner = λ a e. absurd cc;
}

History-Owned : {h : Heap} → History h → Owned h
History-Owned start = nothing-Owned
History-Owned (next {h} {h'} e history allowed runs) =
    let (u, runs', o) = run_event-Owned h e (History-Owned history) allowed in
    subst HeapOwned (sym runs' ∙ runs) o

-- Behind every history of calls that make, reset and destroy parsers and save the path or the query of a
-- request in them, where `realloc` returns the old block or one that is not allocated: the next call runs, without
-- a second `free` and without an access to a parser that is not allocated; and once there is no parser left, no
-- string is left either.
pub History-run_event :
    {h : Heap} (e : Event)
    → History h
    → Allowed h e
    → (h' : Heap) × (run_event e h ≡ some h')
      × (((p : Ptr) → h'.parsers p ≡ none) → (a : Ptr) → h'.allocated a ≡ false)
History-run_event {h} e history allowed =
    let (u, runs, o) = run_event-Owned h e (History-Owned history) allowed in
    (
      u,
      runs,
      λ gone a. elim (Bool-cases (u.allocated a)) [
        | inl k ↦ let (p, c, at, _, _) = o.owner a k in absurd (cc (sym at ∙ gone p))
        | inr k ↦ k
      ],
    )
