-- ===== src/Http/Server/Tests.antt =====
-- main.c: a server with two connections, and one whose port is taken.
use blocks.Prelude.{ℕ, ◌+◌, ◌≡◌, ◌<◌, refl, true, false, List, [], ◌∷◌, Option, none, some}
use blocks.Comm.Channel.{Select, timed_out, blank, would_block, Ready, ready}
use blocks.Comm.Socket.{
  Channel, Answers, Os, mb_channel_bind_port, set_non_blocking, bind_listen, close, without,
}
use blocks.Http.Config.{Globals, HttpdConf, default_mimetypes, bin_mimetype}
use blocks.Http.Server.{Requests, Server, start, run, serve_port}

-- The application counts its calls.
abbrev requests : Requests ℕ
requests = record {
  fresh = λ calls. calls + 200;
  request_processor_reset = λ parser sd calls. some (calls + 1);
  http_parser_execute = λ parser bytes calls. some (0, calls + 1);
  request_processor_destroy = λ parser calls. some (calls + 1);
}

-- Each call is counted.
abbrev Good : ℕ → Type 0
Good calls = 0 < calls

abbrev init : ℕ → ℕ
init i = i + 100

abbrev round : Ready
round = record {
  is_ready = λ _. true;
  ready_count = 2;
  accepted = 5 ∷ [];
  readable = λ _. record { chunks = (71 ∷ []) ∷ []; ending = would_block };
  has_memory = λ _. true;
}

abbrev sds : List ℕ
sds = 4 ∷ 5 ∷ []

abbrev refused : Answers
refused = record {
  socket = some 3;
  setsockopt = true;
  ioctl = true;
  connect = false;
  bind = false;
  listen = true;
}

abbrev os : Os
os = record { open_sds = 0 ∷ []; unlinked = none }

-- Without its port the server ends with the exit code 1.
no_port : serve_port requests refused blank init [] os 0 ≡ some (1, os, [], start requests init 0)
unfolding serve_port mb_channel_bind_port set_non_blocking bind_listen close without run
no_port = refl

abbrev answers : Answers
answers = record {
  socket = some 3;
  setsockopt = true;
  ioctl = true;
  connect = false;
  bind = true;
  listen = true;
}

abbrev sd_of : Option ℕ → Option Channel → Option ℕ
sd_of default none = default
sd_of default (some channel) = channel.sd

abbrev globals : Globals
globals = record { port = some 8889; mimetypes = none; scripts = none }

abbrev conf : HttpdConf
conf = record {
  port = 8889;
  mimetypes = default_mimetypes;
  default_mimetype = bin_mimetype;
  lua_states = none;
}

abbrev calls : List (List Select)
calls = (ready round ∷ []) ∷ (ready round ∷ timed_out ∷ []) ∷ []
