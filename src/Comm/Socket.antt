-- ===== src/Comm/Socket.antt =====
-- src/comm/channel.c: the making, reopening and freeing of a channel, and `mb_chanel_send`.
-- What the calls of the system answer is an argument. `none` is a fault: a path that is too long for
-- `sun_path`, a use of a channel that was freed, or a negative length of `memcpy`.
pub mod Leaks
mod Tests
use blocks.Prelude.{
  ℕ, zero, suc, Bool, true, false, not, List, [], ◌∷◌, Option, none, some, ltb, ◌==◌, if◌then◌else◌,
  ◌>>=◌, length,
}

pub data AddrType : Type 0 where
  addr_unix addr_inet : AddrType

-- struct mb_channel: `sd` is `none` where it is negative, and `path` is the name behind `addr`.
pub record Channel : Type 0 where
  pub sd : Option ℕ
  pub type : AddrType
  pub alive : Bool
  pub name : List ℕ

-- The descriptors that the process has open, and the path that it has unlinked last.
pub record Os : Type 0 where
  pub open_sds : List ℕ
  pub unlinked : Option (List ℕ)

-- What the calls answer when a channel is made: the descriptor of `socket`, and which others succeed.
pub record Answers : Type 0 where
  pub socket : Option ℕ
  pub setsockopt : Bool
  pub ioctl : Bool
  pub connect : Bool
  pub bind : Bool
  pub listen : Bool

unfoldable pub without : ℕ → List ℕ → List ℕ
without sd [] = []
without sd (other ∷ sds) = let rest = without sd sds in if other == sd then rest else other ∷ rest

-- `close` of a negative descriptor does nothing.
unfoldable pub close : Option ℕ → Os → Os
close none os = os
close (some sd) os = record os { open_sds = without sd os.open_sds }

abbrev pub opened : ℕ → Os → Os
opened sd os = record os { open_sds = sd ∷ os.open_sds }

-- The flag says that the result is not negative.
unfoldable pub set_non_blocking : Answers → ℕ → Bool → Os → Bool × Os
set_non_blocking answers sd strict os =
    let refused : Bool × Os = (false, if strict then close (some sd) os else os) in
    if not answers.setsockopt then refused else (if not answers.ioctl then refused else (true, os))

-- `bind` and `listen`.
unfoldable pub bind_listen : Answers → ℕ → Channel → Os → Option Channel × Os
bind_listen answers sd channel os =
    if not answers.bind
    then (none, close (some sd) os)
    else (if not answers.listen then (none, close (some sd) os) else (some channel, os))

-- The number of bytes of `sun_path`.
abbrev pub sun_path_size : ℕ
sun_path_size = 108

-- `connect`, which succeeds where the path is busy, and what follows.
unfoldable pub bind_free_path : Answers → List ℕ → ℕ → Channel → Os → Option (Option Channel × Os)
bind_free_path answers path sd channel os =
    if ltb (length path) sun_path_size
    then (if answers.connect
        then some (none, os)
        else some (bind_listen answers sd channel (record os { unlinked = some path })))
    else none

unfoldable pub mb_channel_bind_path : Answers → List ℕ → Os → Option (Option Channel × Os)
mb_channel_bind_path answers path os = bound answers.socket
  where
    bound : Option ℕ → Option (Option Channel × Os)
    bound none = some (none, os)
    bound (some sd) = go (set_non_blocking answers sd true (opened sd os))
      where
        go : Bool × Os → Option (Option Channel × Os)
        go (false, os) = some (none, os)
        go (true, os) =
            bind_free_path answers path sd
              (record { sd = some sd; type = addr_unix; alive = true; name = path }) os

-- "tcp"
abbrev pub tcp : List ℕ
tcp = 116 ∷ 99 ∷ 112 ∷ []

unfoldable pub mb_channel_bind_port : Answers → Os → Option Channel × Os
mb_channel_bind_port answers os = bound answers.socket
  where
    bound : Option ℕ → Option Channel × Os
    bound none = (none, os)
    bound (some sd) = go (set_non_blocking answers sd true (opened sd os))
      where
        go : Bool × Os → Option Channel × Os
        go (false, os) = (none, os)
        go (true, os) =
            bind_listen answers sd
              (record { sd = some sd; type = addr_inet; alive = true; name = tcp }) os

-- A pointer to a channel: `none` when the channel was freed.
abbrev pub Pointer : Type 0
Pointer = Option Channel

unfoldable pub mb_channel_destroy : Pointer → Os → Option (Pointer × Os)
mb_channel_destroy none os = none
mb_channel_destroy (some channel) os = some (none, close channel.sd os)

unfoldable pub mb_channel_stop : Pointer → Option Pointer
mb_channel_stop none = none
mb_channel_stop (some channel) = some (some (record channel { alive = false }))

-- The pointer is the caller's; the flag says that the result is not NULL.
unfoldable pub mb_channel_reopen_unix : Answers → Pointer → Os → Option (Bool × Pointer × Os)
mb_channel_reopen_unix answers none os = none
mb_channel_reopen_unix answers (some channel) os = reopen answers.socket
  where
    destroyed : Channel → Os → Option (Bool × Pointer × Os)
    destroyed channel os = do
      (pointer, os) ← mb_channel_destroy (some channel) os
      some (false, pointer, os)

    reopen : Option ℕ → Option (Bool × Pointer × Os)
    reopen none = destroyed (record channel { sd = none }) os
    reopen (some sd) =
        let channel = record channel { sd = some sd } in
        if ltb (length channel.name) sun_path_size
        then (if answers.connect
            then some (true, some channel, opened sd os)
            else destroyed channel (opened sd os))
        else none

-- `junk` is what `malloc` leaves in the fields.
unfoldable pub mb_channel_open_path : Answers → Channel → List ℕ → Os → Option (Bool × Pointer × Os)
mb_channel_open_path answers junk path os =
    mb_channel_reopen_unix answers (some (record junk { name = path })) os

-- A call of `send`: how many bytes it takes, or `none`, and what the calls of a reopening answer.
pub record Attempt : Type 0 where
  pub sent : Option ℕ
  pub answers : Answers

unfoldable pub is_whole : ℕ → Option ℕ → Bool
is_whole size none = false
is_whole size (some n) = n == size

-- The loop of `mb_chanel_send`; the flag says that the last `send` took the whole message.
unfoldable pub send_loop : ℕ → List Attempt → Pointer → Os → Option (Bool × Pointer × Os)
send_loop size [] pointer os = some (false, pointer, os)
send_loop size (attempt ∷ attempts) none os = none
send_loop size (attempt ∷ attempts) (some channel) os = do
  let again = mb_channel_reopen_unix attempt.answers (some channel) os >>= λ (_, pointer, os).
      send_loop size attempts pointer os
  if is_whole size attempt.sent then some (true, some channel, os) else again

-- The reply, if the result is not negative. `received` is what `recv` gives.
unfoldable pub mb_chanel_send :
    ℕ → Attempt → Attempt → Option (List ℕ) → Pointer → Os → Option (Option (List ℕ) × Pointer × Os)
mb_chanel_send size first second received pointer os = do
  (is_sent, pointer, os) ← send_loop size (first ∷ second ∷ []) pointer os
  if is_sent
      then (do bytes ← received; some (some bytes, pointer, os))
      else (do (pointer, os) ← mb_channel_destroy pointer os; some (none, pointer, os))
