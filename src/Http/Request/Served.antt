-- ===== src/Http/Request/Served.antt =====
-- request_processor.c: a request that is served from a file.
use blocks.Prelude.{
  ℕ, suc, ◌+◌, ◌≡◌, refl, sym, ap, ◌∙◌, Bool, true, false, not, inl, inr, List, [], ◌∷◌, ◌++◌, none,
  some, arith, ◌==◌, ◌&&◌, length, Bool-cases,
}
use blocks.Http.Buffer.{NoNul, codes}
use blocks.Http.FullPath.Contained.{has_dots, get_full_path-has_dots}
use blocks.Http.LuaStates.{LuaService, get_script}
use blocks.Http.Request.{
  realloc, c_string, ConnInfo, Conf, Response, Method, respond, fclose, file_buffer, file_name,
  file_response, http_send_file, process_by, send_opened, start_processing, message_complete,
  request_processor_reset, serve,
}
use blocks.Http.Request.Chunks.{
  HoldsText, AllNoNul, concat, length-realloc, c_string-append, on_paths-HoldsText,
  on_queries-HoldsText,
}

c_string-cut :
    (xs tail : List ℕ)
    → (ys : List ℕ) × (zs : List ℕ) × (xs ≡ ys ++ zs) × (c_string (xs ++ 0 ∷ tail) ≡ some ys)
unfolding c_string
c_string-cut [] tail = ([], [], refl, refl)
c_string-cut (x ∷ xs) tail = elim (Bool-cases (x == 0)) [
  | inl e ↦ ([], x ∷ xs, refl, rw e)
  | inr e ↦ let (ys, zs, cut, c) = c_string-cut xs tail in (x ∷ ys, zs, ap (◌∷◌ x) cut, rw (e, c))
]

c_string-front :
    (xs rest ys : List ℕ)
    → NoNul xs
    → c_string rest ≡ some ys
    → c_string (xs ++ rest) ≡ some (xs ++ ys)
unfolding c_string
c_string-front [] rest ys h e = e
c_string-front (x ∷ xs) rest ys h e = ground (arith, c_string-front xs rest ys h.1 e)

abbrev no_nul : List ℕ → Bool
no_nul [] = true
no_nul (c ∷ cs) = not (c == 0) && no_nul cs

no_nul-NoNul : (cs : List ℕ) → no_nul cs ≡ true → NoNul cs
no_nul-NoNul [] e = tt
no_nul-NoNul (c ∷ cs) e = (λ z. ground arith, no_nul-NoNul cs (ground arith))

has_dots-prefix : (ys zs : List ℕ) → has_dots (ys ++ zs) ≡ false → has_dots ys ≡ false
unfolding has_dots
has_dots-prefix [] zs h = refl
has_dots-prefix (y ∷ []) zs h = refl
has_dots-prefix (y ∷ y' ∷ ys) zs h =
    let rest : has_dots ((y' ∷ ys) ++ zs) ≡ false = ground arith in
    ground (arith, has_dots-prefix (y' ∷ ys) zs rest)

-- A name below the root.
abbrev pub Below : List ℕ → Type 0
Below name = (served : List ℕ) × (name ≡ codes "./html/" ++ served) × (has_dots served ≡ false)

pub file_name-Below :
    (junk : ℕ → ℕ) (file : List ℕ)
    → NoNul file
    → (name : List ℕ) × (file_name junk (b'/' ∷ file) (suc (length file)) ≡ some name) × Below name
unfolding file_name file_buffer has_dots
file_name-Below junk file clean =
    let buffer = realloc junk [] (suc (length file) + 8 + 11 + 1) in
    let size = length-realloc junk [] (suc (length file) + 8 + 11 + 1) in
    let (served, tail, done, h) =
      get_full_path-has_dots buffer (codes "./html/") (codes "index.html") file
        (no_nul-NoNul (codes "./html/") refl) (no_nul-NoNul (codes "index.html") refl) clean
        (omega (arith, size)) refl in
    let (ys, zs, cut, c) = c_string-cut served tail in
    (
      codes "./html/" ++ ys,
      rw done (
          c_string-front (codes "./html/") (served ++ 0 ∷ tail) ys
            (no_nul-NoNul (codes "./html/") refl) c),
      (ys, refl, has_dots-prefix ys zs (ap has_dots (sym cut) ∙ h)),
    )

-- Every regular file can be opened.
abbrev pub Readable : Conf → Type 0
Readable conf = (name : List ℕ) → conf.is_regular name ≡ true → conf.is_readable name ≡ true

cons-nil : (c : ℕ) (text : List ℕ) → ¬ (c ∷ text ≡ [])
cons-nil c text e = cc

pub text_path :
    (b text : List ℕ) (n c : ℕ)
    → HoldsText b n (c ∷ text)
    → NoNul (c ∷ text)
    → c_string b ≡ some (c ∷ text)
text_path b text n c (e, inl at) clean = rw at (c_string-append (c ∷ text) clean)
text_path b text n c (e, inr (_, none_e)) clean = absurd (cons-nil c text none_e)

pub respond-open :
    (r : Response) (c : ConnInfo)
    → c.client_open ≡ true
    → respond r c ≡ some (record c { responses = c.responses ++ r ∷ [] })
unfolding respond
respond-open r c o = rw o

send_opened-Readable :
    (conf : Conf) (name : List ℕ) (c : ConnInfo) → Readable conf → send_opened conf name c ≡ some c
unfolding send_opened
send_opened-Readable conf name c readable = elim (Bool-cases (conf.is_regular name)) [
  | inl regular ↦ rw (regular, readable name regular)
  | inr other ↦ rw other
]

pub http_send_file-Below :
    (junk : ℕ → ℕ) (conf : Conf) (c : ConnInfo) (text : List ℕ)
    → HoldsText c.path c.path_size (b'/' ∷ text)
    → NoNul text
    → c.client_open ≡ true
    → Readable conf
    → (name : List ℕ) × (http_send_file junk conf c
        ≡ some (record c { responses = c.responses ++ file_response conf name ∷ [] }))
      × Below name
unfolding http_send_file
http_send_file-Below junk conf c text h clean o readable =
    let (name, e, below) = file_name-Below junk text clean in
    (
      name,
      rw (
        text_path c.path text c.path_size b'/' h (λ z. omega arith, clean),
        ap (file_name junk (b'/' ∷ text)) h.0 ∙ e,
        respond-open (file_response conf name) c o,
        send_opened-Readable conf name
            (record c { responses = c.responses ++ file_response conf name ∷ [] }) readable,
      ),
      below,
    )

-- A request with a path that begins with a slash, cut into any chunks, and for which there is no script,
-- runs without a fault in whatever memory, where every regular file can be opened; its client gets one response, which is a file whose name is
-- `./html/` and a string without two adjacent dots, or the error 404, and the connection is closed.
pub serve-file :
    (junk : ℕ → ℕ) (fresh : ℕ) (conf : Conf) (method : Method) (paths queries : List (List ℕ))
    (c : ConnInfo) (states : List LuaService) (text : List ℕ)
    → AllNoNul paths
    → AllNoNul queries
    → concat paths ≡ b'/' ∷ text
    → NoNul text
    → get_script states (b'/' ∷ text) ≡ none
    → Readable conf
    → (name : List ℕ) × (d : ConnInfo) × (serve junk fresh conf method paths queries
          (request_processor_reset c)
          states
        ≡ some (d, states))
      × (d.client_open ≡ false)
      × (d.responses ≡ file_response conf name ∷ [])
      × Below name
unfolding serve request_processor_reset start_processing process_by message_complete
serve-file junk fresh conf method paths queries c states text cp cq whole clean no_script readable =
    let c0 = request_processor_reset c in
    let (b, n, e, h) = on_paths-HoldsText junk paths c0 [] (refl, inr (refl, refl)) cp in
    let c1 = record c0 { path = b; path_size = n } in
    let (b', n', e', h') = on_queries-HoldsText junk queries c1 [] (refl, inr (refl, refl)) cq in
    let c2 = record c1 { query = b'; query_size = n' } in
    let h : HoldsText b n (b'/' ∷ text) = rw whole at h in
    let (name, sent, below) =
      http_send_file-Below junk conf (record c2 { type = b'S' }) text h clean refl readable in
    (
      name,
      record c2 { type = b'S'; client_open = false; responses = file_response conf name ∷ [] },
      rw (e, e', text_path b text n b'/' h (λ z. omega arith, clean), no_script, sent)
          (unfold fclose in refl),
      refl,
      refl,
      below,
    )
