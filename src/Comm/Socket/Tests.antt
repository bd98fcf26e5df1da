-- ===== src/Comm/Socket/Tests.antt =====
-- channel.c: a port that is bound, a path that is busy, and a message that is not sent.
use blocks.Prelude.{ℕ, ◌≡◌, refl, Bool, true, false, List, [], ◌∷◌, Option, none, some, arith}
use blocks.Comm.Socket.{
  Channel, Os, Answers, mb_channel_bind_path, mb_channel_bind_port, addr_unix, Attempt, is_whole,
  mb_chanel_send,
}
use blocks.Comm.Socket.Leaks.{Made, left, is_open, binds-Made, mb_chanel_send_faults}

-- "/s"
abbrev path : List ℕ
path = 47 ∷ 115 ∷ []

abbrev os : Os
os = record { open_sds = 0 ∷ 1 ∷ 2 ∷ []; unlinked = none }

abbrev answers : Bool → Answers
answers busy = record {
  socket = some 3;
  setsockopt = true;
  ioctl = true;
  connect = busy;
  bind = true;
  listen = true;
}

answers-fresh :
    (busy : Bool) (sd : ℕ) → (answers busy).socket ≡ some sd → is_open sd os.open_sds ≡ false
unfolding is_open
answers-fresh busy sd e = ground (arith, e)

binds-Made_example :
    Made os.open_sds
      (mb_channel_bind_port (answers true) os).0
      os
      (mb_channel_bind_port (answers true) os).1
    × (channel : Option Channel) × (os' : Os) × (mb_channel_bind_path (answers true) path os
        ≡ some (channel, os'))
    × Made (left (answers true) os (answers-fresh true) (some 3)) channel os os'
binds-Made_example = binds-Made (answers true) os (answers-fresh true) path (omega arith)

abbrev client : Channel
client = record { sd = some 3; type = addr_unix; alive = true; name = path }

abbrev refused : Attempt
refused = record { sent = none; answers = answers false }

mb_chanel_send_faults_example :
    mb_chanel_send 4 refused refused (some (1 ∷ [])) (some client) os ≡ none
unfolding is_whole
mb_chanel_send_faults_example =
    mb_chanel_send_faults 4 refused refused (some (1 ∷ [])) client os refl refl
