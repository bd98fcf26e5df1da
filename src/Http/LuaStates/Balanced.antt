-- ===== src/Http/LuaStates/Balanced.antt =====
-- request_processor.c: what a request does to the stack of idle Lua states of its script.
use blocks.Prelude.{
  ℕ, zero, suc, ◌+◌, ◌<◌, ◌≡◌, refl, sym, ap, ◌∙◌, Bool, true, false, List, ◌∷◌, ◌++◌, Option, none,
  some, arith, ltb, lt→ltb, ◌>>=◌, length, length-append, get_elem?-append, split_at,
}
use blocks.Prelude.Int.{ℤ, pos, negsuc, succ, pred}
use blocks.Http.Buffer.{write, write-append}
use blocks.Http.LuaStates.{
  LuaService, get_state_at, get_lua_state, has_room, push_at, return_lua_state,
}

-- The stack holds some states, all inside `idle_states`, or none.
abbrev pub Inside : ℤ → ℕ → Type 0
Inside (pos top) size = top < size
Inside (negsuc zero) size = Unit {0}
Inside (negsuc (suc n)) size = ⊥

pub record Sound (state : LuaService) : Type 0 where
  pub size : length state.idle_states ≡ state.idle_stack_size
  pub top : Inside state.idle_state_top state.idle_stack_size
  pub some_room : 0 < state.idle_stack_size

-- A request: a state is taken, runs, and is given back.
unfoldable pub borrow : LuaService → ℕ → Option (ℕ × Bool × LuaService)
borrow state fresh = do
  (l, taken) ← get_lua_state state fresh
  (closed, given) ← return_lua_state taken l
  some (l, closed, given)

-- The state is given back without being closed, the stack stays sound, and the next request gets it.
abbrev pub Again : LuaService → ℕ → ℕ → Type 0
Again state fresh next =
    (l : ℕ) × (given : LuaService) × (taken : LuaService) × (borrow state fresh
      ≡ some (l, false, given))
    × Sound given
    × (get_lua_state given next ≡ some (l, taken))

resized-Sound :
    (state : LuaService) (states : List ℕ) (top : ℕ)
    → length states ≡ state.idle_stack_size
    → top < state.idle_stack_size
    → Sound (record state { idle_states = states; idle_state_top = pos top })
resized-Sound state states top e h = record { size = e; top = h; some_room = omega arith }

get_at_top :
    (state : LuaService) (fresh top z : ℕ) (ys zs : List ℕ)
    → state.idle_states ≡ ys ++ z ∷ zs
    → length ys ≡ top
    → get_state_at (pos top) state fresh
      ≡ some (z, record state { idle_state_top = pred (pos top) })
unfolding get_state_at
get_at_top state fresh top z ys zs e l = rw (e, get_elem?-append ys zs z top (sym l))

push_at_top :
    (state : LuaService) (top y l : ℕ) (ys zs : List ℕ)
    → state.idle_states ≡ ys ++ y ∷ zs
    → length ys ≡ top
    → push_at (pos top) state l
      ≡ some (false, record state { idle_states = ys ++ l ∷ zs; idle_state_top = pos top })
unfolding push_at
push_at_top state top y l ys zs e n = rw (e, write-append ys zs y l top (sym n))

succ-pred : (top : ℕ) → succ (pred (pos top)) ≡ pos top
succ-pred zero = refl
succ-pred (suc top) = refl

has_room-pred : (top size : ℕ) → top < size → has_room (pred (pos top)) size ≡ true
unfolding has_room
has_room-pred zero size h = refl
has_room-pred (suc top) size h = lt→ltb top (size + 1) (omega arith)

return_at_top :
    (state : LuaService) (top y l : ℕ) (ys zs : List ℕ)
    → top < state.idle_stack_size
    → state.idle_states ≡ ys ++ y ∷ zs
    → length ys ≡ top
    → return_lua_state (record state { idle_state_top = pred (pos top) }) l
      ≡ some (false, record state { idle_states = ys ++ l ∷ zs; idle_state_top = pos top })
unfolding return_lua_state
return_at_top state top y l ys zs h e n = rw (
  has_room-pred top state.idle_stack_size h,
  succ-pred top,
  push_at_top (record state { idle_state_top = pred (pos top) }) top y l ys zs e n,
)

length-put : (y l : ℕ) (ys zs : List ℕ) → length (ys ++ l ∷ zs) ≡ length (ys ++ y ∷ zs)
length-put y l ys zs = length-append ys (l ∷ zs) ∙ sym (length-append ys (y ∷ zs))

-- What follows from the two calls.
again :
    (state : LuaService) (fresh next top y l : ℕ) (ys zs : List ℕ)
    → Sound state
    → top < state.idle_stack_size
    → state.idle_states ≡ ys ++ y ∷ zs
    → length ys ≡ top
    → get_lua_state state fresh ≡ some (l, record state { idle_state_top = pred (pos top) })
    → Again state fresh next
unfolding borrow get_lua_state
again state fresh next top y l ys zs s h e n took =
    let given = record state { idle_states = ys ++ l ∷ zs; idle_state_top = pos top } in
    (
      l,
      given,
      record given { idle_state_top = pred (pos top) },
      rw (took, return_at_top state top y l ys zs h e n),
      resized-Sound state (ys ++ l ∷ zs) top (length-put y l ys zs ∙ ap length (sym e) ∙ s.size) h,
      get_at_top given next top l ys zs refl n,
    )

-- The top of a sound stack, and the slot to which the next state is given back.
at_top :
    (state : LuaService) (fresh next : ℕ) (t : ℤ)
    → state.idle_state_top ≡ t
    → Inside t state.idle_stack_size
    → Sound state
    → Again state fresh next
unfolding get_lua_state get_state_at
at_top state fresh next (pos top) t h s =
    let (ys, z, zs, e, n) = split_at top state.idle_states (omega (arith, s.size)) in
    again state fresh next top z z ys zs s h e n (rw t (get_at_top state fresh top z ys zs e n))
at_top state fresh next (negsuc zero) t h s =
    let (ys, z, zs, e, n) = split_at 0 state.idle_states (omega (arith, s.size, s.some_room)) in
    again state fresh next 0 z fresh ys zs s s.some_room e n (
      ap (λ x. get_state_at x state fresh) t
      ∙ ap (λ x. some (fresh, record state { idle_state_top = x })) t)
at_top state fresh next (negsuc (suc k)) t h s = absurd h

-- A request that takes a Lua state and gives it back makes no access outside `idle_states` and closes no
-- state; the stack stays sound, and the next request gets the same state, whether that was idle or fresh.
pub borrow-Sound : (state : LuaService) (fresh next : ℕ) → Sound state → Again state fresh next
borrow-Sound state fresh next s = at_top state fresh next state.idle_state_top refl s.top s

-- A state that is given back to a stack that is full already is written behind the end of `idle_states`:
-- the guard lets it through.
return_lua_state-full :
    (state : LuaService) (top l : ℕ)
    → Sound state
    → state.idle_state_top ≡ pos top
    → suc top ≡ state.idle_stack_size
    → return_lua_state state l ≡ none
unfolding return_lua_state has_room push_at write
return_lua_state-full state top l s t full =
    let behind : ltb (suc top) (length state.idle_states) ≡ false = ground (arith, s.size) in
    rw (t, lt→ltb top (state.idle_stack_size + 1) (omega arith), behind)
