-- ===== src/Http/Request/Tests.antt =====
-- Requests to a server with one script, and the theorems about them.
use blocks.Prelude.{ℕ, ◌≡◌, refl, true, false, inr, List, [], ◌∷◌, none, some, arith}
use blocks.Prelude.Int.{pos}
use blocks.Http.Buffer.{codes}
use blocks.Http.LuaStates.{LuaService, get_script, strncmp}
use blocks.Http.LuaStates.Balanced.{Sound}
use blocks.Http.Request.{
  Mimetype, ConnInfo, Conf, http_get, dispatch, file_response, request_processor_reset, on_paths,
  serve,
}
use blocks.Http.Request.Chunks.{HoldsText, on_paths-HoldsText}
use blocks.Http.Request.Served.{Below, serve-file}
use blocks.Http.Request.Scripted.{serve-script}
use blocks.Http.Request.Again.{serve-again}

abbrev junk : ℕ → ℕ
junk n = b'.'

abbrev html : Mimetype
html = record { postfix = codes "html"; postfix_size = 4; mimetype = codes "text/html" }

abbrev js : Mimetype
js = record { postfix = codes "js"; postfix_size = 2; mimetype = codes "text/javascript" }

abbrev conf : Conf
conf = record {
  mimetypes = html ∷ js ∷ [];
  default_mimetype = codes "application/octet-stream";
  is_regular = λ _. true;
  is_readable = λ _. true;
}

abbrev service : LuaService
service = record {
  pattern = codes "/l/";
  pattern_size = 3;
  idle_state_top = pos 0;
  idle_stack_size = 3;
  idle_states = 70 ∷ 0 ∷ 0 ∷ [];
  filename = codes "scripts/init.lua";
  mimetype = codes "text/html";
}

abbrev conn : ConnInfo
conn = record {
  path = [];
  path_size = 0;
  query = [];
  query_size = 0;
  client_open = true;
  type = 0;
  responses = [];
}

on_paths-HoldsText_example :
    (b : List ℕ) × (n : ℕ) × (on_paths junk (codes "/a" ∷ codes "/b" ∷ []) conn
      ≡ some (record conn { path = b; path_size = n }))
    × HoldsText b n (codes "/a/b")
on_paths-HoldsText_example =
    on_paths-HoldsText junk (codes "/a" ∷ codes "/b" ∷ []) conn [] (refl, inr (refl, refl))
      ((λ e. omega arith, (λ e. omega arith, tt)), ((λ e. omega arith, (λ e. omega arith, tt)), tt))

serve-file_example :
    (name : List ℕ) × (d : ConnInfo) × (serve junk 71 conf http_get
        (codes "/a" ∷ codes "/b.js" ∷ [])
        []
        (request_processor_reset conn)
        (service ∷ [])
      ≡ some (d, service ∷ []))
    × (d.client_open ≡ false)
    × (d.responses ≡ file_response conf name ∷ [])
    × Below name
unfolding get_script strncmp
serve-file_example =
    serve-file junk 71 conf http_get (codes "/a" ∷ codes "/b.js" ∷ []) [] conn (service ∷ [])
      (codes "a/b.js")
      (
        (λ e. omega arith, (λ e. omega arith, tt)),
        (
          (
            λ e. omega arith,
            (λ e. omega arith, (λ e. omega arith, (λ e. omega arith, (λ e. omega arith, tt)))),
          ),
          tt,
        ),
      )
      tt refl
      (
        λ e. omega arith,
        (
          λ e. omega arith,
          (λ e. omega arith, (λ e. omega arith, (λ e. omega arith, (λ e. omega arith, tt)))),
        ),
      )
      refl (λ name e. refl)

serve-script_example :
    (given : LuaService) × (d : ConnInfo) × (serve junk 71 conf http_get
        (codes "/l/" ∷ codes "x" ∷ [])
        (codes "n=1" ∷ [])
        (request_processor_reset conn)
        (service ∷ [])
      ≡ some (d, given ∷ []))
    × (d.client_open ≡ false)
    × (d.responses
        ≡ record {
          status = 200;
          mimetype = codes "text/html";
          body =
              dispatch (codes "scripts/init.lua") (codes "/l/x") (some (codes "n=1")) (codes "GET");
        }
          ∷ [])
    × Sound given
unfolding get_script strncmp
serve-script_example =
    serve-script junk 71 conf http_get (codes "/l/" ∷ codes "x" ∷ []) (codes "n=1" ∷ []) conn
      (service ∷ []) (codes "l/x") (codes "=1") 0 b'/' b'n' service
      ((λ e. omega arith, (λ e. omega arith, (λ e. omega arith, tt))), ((λ e. omega arith, tt), tt))
      ((λ e. omega arith, (λ e. omega arith, (λ e. omega arith, tt))), tt) refl
      (λ e. omega arith, (λ e. omega arith, (λ e. omega arith, (λ e. omega arith, tt)))) refl
      (λ e. omega arith, (λ e. omega arith, (λ e. omega arith, tt))) refl refl
      (record { size = refl; top = omega arith; some_room = omega arith })

serve-again_example :
    (d e : ConnInfo) × (serve junk 71 conf http_get
        (codes "/a" ∷ [])
        []
        (request_processor_reset conn)
        (service ∷ [])
      ≡ some (d, service ∷ []))
    × (serve junk 71 conf http_get (codes "/b" ∷ []) [] d (service ∷ []) ≡ none)
    × (serve junk 71 conf http_get
          (codes "/b" ∷ [])
          []
          (record d { client_open = true })
          (service ∷ [])
        ≡ some (e, service ∷ []))
unfolding get_script strncmp
serve-again_example =
    serve-again junk 71 conf http_get (service ∷ []) (λ name e. refl) (codes "/a" ∷ []) []
      (codes "/b" ∷ []) [] conn (codes "a") (codes "a/b")
      ((λ e. omega arith, (λ e. omega arith, tt)), tt) tt
      ((λ e. omega arith, (λ e. omega arith, tt)), tt) tt refl refl (λ e. omega arith, tt)
      (λ e. omega arith, (λ e. omega arith, (λ e. omega arith, tt))) refl refl
