-- ===== src/Http/Server.antt =====
-- src/http/main.c: the server, which gives its connections on `channel.c` to the parsers of its pool.
-- What `request_processor.c` and the HTTP parser do with a parser is an argument, and may fault.
pub mod Slots
pub mod Sharing
pub mod Runs
mod Tests
use blocks.Prelude.{
  ℕ, zero, suc, ◌%◌, ◌^◌, ◌≡◌, Bool, true, false, List, [], ◌∷◌, Option, none, some, leb,
  if◌then◌else◌, ◌>>=◌,
}
use blocks.Comm.Channel.{Handler, ClientInfo, Bus, Select, mb_channel_receive}
use blocks.Comm.Socket.{Answers, Channel, Os, mb_channel_bind_port, mb_channel_destroy}
use blocks.Http.Config.{HttpdConf, Globals, httpd_conf_load}
use blocks.Http.ParserPool.{ParserPool, init_http_parser_pool, get_http_parser, release_http_parser}

-- `App` has all that is not in `main.c`. `request_processor_init` allocates a parser, of which the address is
-- given before; `http_parser_execute` returns a `size_t`, in 64 bits.
pub record Requests (App : Type 0) : Type 0 where
  pub fresh : App → ℕ
  pub request_processor_reset : ℕ → ℕ → App → Option App
  pub http_parser_execute : ℕ → List ℕ → App → Option (ℕ × App)
  pub request_processor_destroy : ℕ → App → Option App

-- In whatever state that is `Good`, a reset and an execution of a parser return, and leave such a state.
pub record Answering {App : Type 0} (requests : Requests App) (Good : App → Type 0) : Type 0 where
  pub resets :
      (parser client_sd : ℕ) (app : App)
      → Good app
      → (app' : App) × (requests.request_processor_reset parser client_sd app ≡ some app')
        × Good app'
  pub executes :
      (parser : ℕ) (bytes : List ℕ) (app : App)
      → Good app
      → (parsed : ℕ) × (app' : App) × (requests.http_parser_execute parser bytes app
          ≡ some (parsed, app'))
        × Good app'

pub record Server (App : Type 0) : Type 0 where
  pub pool : ParserPool
  pub app : App

-- Whether a `size_t` that is returned as an `int` is negative.
unfoldable pub is_negative_int : ℕ → Bool
is_negative_int n = leb (2 ^ 31) (n % 2 ^ 32)

abbrev pub pool_size : ℕ
pool_size = 3

module _ {App : Type 0} (requests : Requests App) where
  unfoldable pub msg_start : ℕ → ℕ → Server App → Option (ℕ × Server App)
  msg_start client_sd aux_data s = do
    (parser, pool) ← get_http_parser s.pool (requests.fresh s.app)
    app ← requests.request_processor_reset parser client_sd s.app
    some (parser, record { pool = pool; app = app })

  unfoldable pub dispatch : ℕ → ℕ → List ℕ → ℕ → Server App → Option (Bool × ℕ × Server App)
  dispatch client_sd position bytes aux_data s = do
    (parsed, app) ← requests.http_parser_execute aux_data bytes s.app
    some (is_negative_int parsed, aux_data, record s { app = app })

  -- `*aux_data` is NULL behind it.
  unfoldable pub msg_end : ℕ → ℕ → Server App → Option (ℕ × Server App)
  msg_end client_sd aux_data s = do
    (destroyed, pool) ← release_http_parser s.pool aux_data
    app ← if destroyed then requests.request_processor_destroy aux_data s.app else some s.app
    some (0, record { pool = pool; app = app })

  unfoldable pub handler : Handler (Server App)
  handler = record { part_cb = dispatch; begin_cb = msg_start; end_cb = msg_end }

  unfoldable pub start : (ℕ → ℕ) → App → Server App
  start init app = record { pool = init_http_parser_pool pool_size init; app = app }

  -- The loop of `main`: a call of `mb_channel_receive` for each list of events, while `is_alive`. The `Bus` that
  -- each call leaves tells which descriptors are open behind it; its memory is that call's own.
  unfoldable pub serve_all :
      ClientInfo → Option ℕ → List (List Select) → Server App → Option (List Bus × Server App)
  serve_all junk none calls s = none
  serve_all junk (some channel_sd) [] s = some ([], s)
  serve_all junk (some channel_sd) (events ∷ calls) s = do
    (_, bus, s) ← mb_channel_receive handler junk channel_sd events s
    (buses, s) ← serve_all junk (some channel_sd) calls s
    some (bus ∷ buses, s)

  -- Behind `mb_channel_bind_port`.
  unfoldable pub run :
      ClientInfo
      → List (List Select)
      → Option Channel
      → Os
      → Server App
      → Option (ℕ × Os × List Bus × Server App)
  run junk calls none os s = some (1, os, [], s)
  run junk calls (some channel) os s = do
    (buses, s) ← serve_all junk channel.sd calls s
    (_, os) ← mb_channel_destroy (some channel) os
    some (0, os, buses, s)

  -- From `mb_channel_bind_port` on. The result is the exit code.
  unfoldable pub serve_port :
      Answers
      → ClientInfo
      → (ℕ → ℕ)
      → List (List Select)
      → Os
      → App
      → Option (ℕ × Os × List Bus × Server App)
  serve_port answers junk init calls os app =
      let (channel, os) = mb_channel_bind_port answers os in
      run junk calls channel os (start init app)

-- `request_processor_reset` is called with the configuration. `evaluate`, `slot` and `globals` are those of
-- `httpd_conf_load`.
unfoldable pub main :
    {App : Type 0}
    → (HttpdConf → Requests App)
    → (List ℕ → Option ℕ)
    → ℕ
    → Globals
    → Answers
    → ClientInfo
    → (ℕ → ℕ)
    → List (List Select)
    → Os
    → App
    → Option (ℕ × Os × List Bus × Server App)
main requests evaluate slot globals answers junk init calls os app = do
  conf ← httpd_conf_load evaluate slot globals
  serve_port (requests conf) answers junk init calls os app
