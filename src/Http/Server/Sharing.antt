-- ===== src/Http/Server/Sharing.antt =====
-- main.c and channel.c: which connection has which parser, while the server runs.
use mathlib.Core.List.{Perm}
use mathlib.Core.List.Perm
use blocks.Prelude.{ℕ, ◌≡◌, List, some}
use blocks.Comm.Channel.Lawful.{Open}
use blocks.Http.ParserPool.{ParserPool}
use blocks.Http.ParserPool.Sharing.{Held}
use blocks.Http.Server.Slots.{Once, parsers_of}
use blocks.Http.Server.{Requests, Answering, Server}

module _ {App : Type 0} (requests : Requests App) (Good : App → Type 0)
    (answering : Answering requests Good) (init : ℕ → ℕ) (size : ℕ) (sds : List ℕ) where
  -- The parsers in use are those of the open connections, which are on the descriptors of the list.
  abbrev pub Shared : Open → Server App → Type 0
  Shared m s =
      (Held size init (parsers_of sds m) s.pool × ((sd a : ℕ) → m sd ≡ some a → Once sds sd))
      × Good s.app
