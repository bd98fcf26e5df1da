-- ===== src/Http/Request/Again.antt =====
-- request_processor.c: a second request on a connection, whose FILE the first one has closed.
use blocks.Prelude.{ℕ, ◌≡◌, refl, ap, ◌∙◌, true, false, inr, List, [], ◌∷◌, ◌++◌, none, some, arith}
use blocks.Http.Buffer.{NoNul}
use blocks.Http.LuaStates.{LuaService, get_script}
use blocks.Http.Request.{
  ConnInfo, Conf, Method, respond, fclose, file_name, file_response, http_send_file, process_by,
  start_processing, message_complete, request_processor_reset, serve,
}
use blocks.Http.Request.Chunks.{
  HoldsText, AllNoNul, concat, on_paths-HoldsText, on_queries-HoldsText,
}
use blocks.Http.Request.Served.{Readable, text_path, file_name-Below, http_send_file-Below}

module _ (junk : ℕ → ℕ) (conf : Conf) where
  -- A response to a client whose FILE is closed.
  http_send_file-closed :
      (c : ConnInfo) (text : List ℕ)
      → HoldsText c.path c.path_size (b'/' ∷ text)
      → NoNul text
      → http_send_file junk conf (record c { client_open = false }) ≡ none
  unfolding http_send_file respond
  http_send_file-closed c text h clean =
      let (name, e, _) = file_name-Below junk text clean in
      rw (
        text_path c.path text c.path_size b'/' h (λ z. omega arith, clean),
        ap (file_name junk (b'/' ∷ text)) h.0 ∙ e,
      )

module _ (junk : ℕ → ℕ) (fresh : ℕ) (conf : Conf) (method : Method) (states : List LuaService)
    (readable : Readable conf) where
  -- A request for a file, behind what the buffers of the connection hold, with the FILE open and closed.
  file_request :
      (paths queries : List (List ℕ)) (c : ConnInfo) (path0 query0 text : List ℕ)
      → HoldsText c.path c.path_size path0
      → HoldsText c.query c.query_size query0
      → AllNoNul paths
      → AllNoNul queries
      → path0 ++ concat paths ≡ b'/' ∷ text
      → NoNul text
      → get_script states (b'/' ∷ text) ≡ none
      → (d : ConnInfo) × (serve junk fresh conf method paths queries
            (record c { client_open = true })
            states
          ≡ some (record d { client_open = false }, states))
        × HoldsText d.path d.path_size (b'/' ∷ text)
        × HoldsText d.query d.query_size (query0 ++ concat queries)
        × (serve junk fresh conf method paths queries (record c { client_open = false }) states
            ≡ none)
  unfolding serve start_processing process_by message_complete
  file_request paths queries c path0 query0 text hp hq cp cq whole clean no_script =
      let c0 : ConnInfo = record c { client_open = true } in
      let (b, n, e, h) = on_paths-HoldsText junk paths c0 path0 hp cp in
      let c1 = record c0 { path = b; path_size = n } in
      let (b', n', e', h') = on_queries-HoldsText junk queries c1 query0 hq cq in
      let c2 = record c1 { query = b'; query_size = n' } in
      let h : HoldsText b n (b'/' ∷ text) = rw whole at h in
      let (name, sent, below) =
        http_send_file-Below junk conf (record c2 { type = b'S' }) text h clean refl readable in
      let k0 : ConnInfo = record c { client_open = false } in
      let (kb, kn, ke, kh) = on_paths-HoldsText junk paths k0 path0 hp cp in
      let k1 = record k0 { path = kb; path_size = kn } in
      let (kb', kn', ke', kh') = on_queries-HoldsText junk queries k1 query0 hq cq in
      let k2 = record k1 { query = kb'; query_size = kn' } in
      let kh : HoldsText kb kn (b'/' ∷ text) = rw whole at kh in
      let failed = http_send_file-closed junk conf (record k2 { type = b'S' }) text kh clean in
      (
        record c2 { type = b'S'; responses = c.responses ++ file_response conf name ∷ [] },
        rw (e, e', text_path b text n b'/' h (λ z. omega arith, clean), no_script, sent)
            (unfold fclose in refl),
        h,
        h',
        rw (ke, ke', text_path kb text kn b'/' kh (λ z. omega arith, clean), no_script, failed),
      )

  -- After a request with a path that begins with a slash and for which there is no script, a second one on the same
  -- connection, with nothing in between, faults, where there is no script for the two paths one behind the other
  -- either: its response is written to the FILE that the first has closed. Were that FILE open, it would be served.
  -- The chunks of paths and queries hold no zero byte, and every regular file can be opened.
  pub serve-again :
      (paths queries paths2 queries2 : List (List ℕ)) (c : ConnInfo) (text text2 : List ℕ)
      → AllNoNul paths
      → AllNoNul queries
      → AllNoNul paths2
      → AllNoNul queries2
      → concat paths ≡ b'/' ∷ text
      → (b'/' ∷ text) ++ concat paths2 ≡ b'/' ∷ text2
      → NoNul text
      → NoNul text2
      → get_script states (b'/' ∷ text) ≡ none
      → get_script states (b'/' ∷ text2) ≡ none
      → (d e : ConnInfo) × (serve junk fresh conf method paths queries
            (request_processor_reset c)
            states
          ≡ some (d, states))
        × (serve junk fresh conf method paths2 queries2 d states ≡ none)
        × (serve junk fresh conf method paths2 queries2 (record d { client_open = true }) states
            ≡ some (e, states))
  unfolding request_processor_reset
  serve-again paths queries paths2 queries2 c text text2 cp cq cp2 cq2 whole whole2 clean clean2
        no_script no_script2 =
      let (d, first, hp, hq, _) =
        file_request paths queries (request_processor_reset c) [] [] text (refl, inr (refl, refl))
          (refl, inr (refl, refl)) cp cq whole clean no_script in
      let (e, second, _, _, closed) =
        file_request paths2 queries2 d (b'/' ∷ text) (concat queries) text2 hp hq cp2 cq2 whole2
          clean2 no_script2 in
      (record d { client_open = false }, record e { client_open = false }, first, closed, second)
