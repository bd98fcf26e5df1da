-- ===== src/Http/Server/Runs.antt =====
-- main.c: the whole program, over any number of calls of `mb_channel_receive`.
use blocks.Prelude.{ℕ, ◌≤◌, ◌≡◌, List, [], ◌∷◌, Option, none, some, length, ◌==◌}
use blocks.Comm.Channel.{Bus, Select}
use blocks.Comm.Channel.Lawful.{Open}
use blocks.Comm.Channel.Rounds.{AllFair}
use blocks.Comm.Socket.{Channel}
use blocks.Http.ParserPool.Overflow.{Counted}
use blocks.Http.Server.{Requests, Answering, Server, pool_size}
use blocks.Http.Server.Slots.{Once, parsers_of}

abbrev pub AllCalls : List ℕ → List (List Select) → Type 0
AllCalls sds [] = Unit {0}
AllCalls sds (events ∷ calls) = AllFair (Once sds) events × AllCalls sds calls

abbrev pub exit_code : Option Channel → ℕ
exit_code none = 1
exit_code (some channel) = 0

abbrev pub listening_sd : Option Channel → Option ℕ
listening_sd none = none
listening_sd (some channel) = channel.sd

-- Of the descriptors of each call only the listening socket is open behind it.
abbrev pub OnlyListening : Option ℕ → List Bus → Type 0
OnlyListening sd [] = Unit {0}
OnlyListening none (b ∷ buses) = ⊥
OnlyListening (some sd) (b ∷ buses) =
    ((n : ℕ) → b.master_set n ≡ (n == sd)) × OnlyListening (some sd) buses

module _ {App : Type 0} (requests : Requests App) (Good : App → Type 0)
    (answering : Answering requests Good) (sds : List ℕ) (few : length sds ≤ pool_size) where
  -- The pool counts at least as many parsers as connections are open; it also counts those of connections
  -- that an earlier call of `mb_channel_receive` has closed without `end_cb`.
  abbrev Counts : Open → Server App → Type 0
  Counts m s =
      (t : ℕ) × Counted t s.pool
      × (s.pool.parser_pool_size ≡ pool_size)
      × (length (parsers_of sds m) ≤ t)
      × ((sd a : ℕ) → m sd ≡ some a → Once sds sd)
      × Good s.app
