-- ===== src/Http/Request/Scripted.antt =====
-- request_processor.c: a request that a script serves.
use blocks.Prelude.{
  ℕ, ◌≡◌, refl, ap, true, false, inl, inr, List, [], ◌∷◌, ◌++◌, Option, none, some, Option-cases,
  get_elem?, set,
}
use blocks.Http.Buffer.{NoNul}
use blocks.Http.LuaStates.{LuaService, get_script, get_lua_state, return_lua_state}
use blocks.Http.LuaStates.Balanced.{Sound, borrow, borrow-Sound}
use blocks.Http.Request.{
  c_string, ConnInfo, Conf, Response, Method, method_name, dispatch, fclose, http_lua_eval,
  process_by, start_processing, message_complete, request_processor_reset, serve,
}
use blocks.Http.Request.Chunks.{AllNoNul, concat, on_paths-HoldsText, on_queries-HoldsText}
use blocks.Http.Request.Served.{text_path, respond-open}

-- The state of a script after a request that it serves.
abbrev ServedBy : LuaService → ℕ → LuaService → Type 0
ServedBy state fresh given = (l : ℕ) × (borrow state fresh ≡ some (l, false, given)) × Sound given

borrow-ServedBy :
    (state : LuaService) (fresh : ℕ)
    → Sound state
    → (given : LuaService) × ServedBy state fresh given
borrow-ServedBy state fresh s =
    let (l, given, _, e, sound, _) = borrow-Sound state fresh 0 s in (given, (l, e, sound))

abbrev pub script_response : LuaService → List ℕ → Option (List ℕ) → Method → Response
script_response state path query method = record {
  status = 200;
  mimetype = state.mimetype;
  body = dispatch state.filename path query (method_name method);
}

-- The two calls that `borrow` makes.
borrow-split :
    (state : LuaService) (fresh l : ℕ) (given : LuaService)
    → borrow state fresh ≡ some (l, false, given)
    → (taken : LuaService) × (get_lua_state state fresh ≡ some (l, taken))
      × (return_lua_state taken l ≡ some (false, given))
unfolding borrow
borrow-split state fresh l given e = elim (Option-cases (get_lua_state state fresh)) [
  | inl n ↦ let p : borrow state fresh ≡ none = rw n in absurd cc
  | inr ((l', taken), g) ↦ elim (Option-cases (return_lua_state taken l')) [
    | inl n ↦ let p : borrow state fresh ≡ none = rw (g, n) in absurd cc
    | inr ((closed, given'), r) ↦
        let p : borrow state fresh ≡ some (l', closed, given') = rw (g, r) in
        let same_l : l' ≡ l = cc in (taken, cc, cc)
  ]
]

http_lua_eval-ServedBy :
    (fresh : ℕ) (method : Method) (i : ℕ) (c : ConnInfo) (states : List LuaService)
    (state given : LuaService) (path : List ℕ)
    → get_elem? states i ≡ some state
    → c_string c.path ≡ some path
    → c.client_open ≡ true
    → ServedBy state fresh given
    → http_lua_eval fresh method i c states
      ≡ some (
        record c {
          client_open = false;
          responses = c.responses ++ script_response state path (c_string c.query) method ∷ [];
        },
        set states i given,
      )
unfolding http_lua_eval fclose borrow
http_lua_eval-ServedBy fresh method i c states state given path at p o (l, e, _) =
    let (taken, g, r) = borrow-split state fresh l given e in
    rw (at, p, respond-open (script_response state path (c_string c.query) method) c o, g, o, r)

-- A request for whose path there is a script with a sound stack of Lua states, path and query cut into any
-- chunks, runs without a fault; its client gets one response, that of the script's `dispatch` for the
-- whole path and query, the connection is closed, and the script's stack is sound again.
pub serve-script :
    (junk : ℕ → ℕ) (fresh : ℕ) (conf : Conf) (method : Method) (paths queries : List (List ℕ))
    (c : ConnInfo) (states : List LuaService) (text query : List ℕ) (i a q : ℕ) (state : LuaService)
    → AllNoNul paths
    → AllNoNul queries
    → concat paths ≡ a ∷ text
    → NoNul (a ∷ text)
    → concat queries ≡ q ∷ query
    → NoNul (q ∷ query)
    → get_script states (a ∷ text) ≡ some i
    → get_elem? states i ≡ some state
    → Sound state
    → (given : LuaService) × (d : ConnInfo) × (serve junk fresh conf method paths queries
          (request_processor_reset c)
          states
        ≡ some (d, set states i given))
      × (d.client_open ≡ false)
      × (d.responses ≡ script_response state (a ∷ text) (some (q ∷ query)) method ∷ [])
      × Sound given
unfolding serve request_processor_reset start_processing process_by message_complete
serve-script junk fresh conf method paths queries c states text query i a q state cp cq whole clean
      whole_q clean_q found_script at sound =
    let c0 = request_processor_reset c in
    let (b, n, e, h) = on_paths-HoldsText junk paths c0 [] (refl, inr (refl, refl)) cp in
    let c1 = record c0 { path = b; path_size = n } in
    let (b', n', e', h') = on_queries-HoldsText junk queries c1 [] (refl, inr (refl, refl)) cq in
    let c2 = record c1 { query = b'; query_size = n' } in
    let p = text_path b text n a (rw whole at h) clean in
    let p' = text_path b' query n' q (rw whole_q at h') clean_q in
    let (given, served) = borrow-ServedBy state fresh sound in
    let done =
      http_lua_eval-ServedBy fresh method i (record c2 { type = b'L' }) states state given
        (a ∷ text) at p refl served in
    (
      given,
      record c2 {
        type = b'L';
        client_open = false;
        responses = script_response state (a ∷ text) (c_string b') method ∷ [];
      },
      rw (e, e', p, found_script, done),
      refl,
      ap (λ x. script_response state (a ∷ text) x method ∷ []) p',
      served.2,
    )
