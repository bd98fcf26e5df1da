-- ===== src/Comm/Channel/Tests.antt =====
-- channel.c: a server with two connections.
use blocks.Prelude.{
  ◌≡◌, refl, ◌+◌, not, Bool, true, false, List, [], ◌∷◌, Option, none, some, ◌==◌, if◌then◌else◌,
}
use blocks.Comm.Channel.{
  blank, Bus, would_block, closed, Ready, Select, ready, timed_out, mb_channel_receive, init_bus,
  fd_set, receive_events, sweep, mark, serve_ready, accept_all, serve_client, resize, raise,
  begin_client, put_client, receive_parts, stays_active, end_client, close_client, lower_max,
}
use blocks.Comm.Channel.Session.{Call, began, ended, part, Session, Answers, recording}

-- The first round has a new connection on 4 and one on 5. In the second one 4 sends two packets, and 5 sends
-- one and closes.
abbrev accepting : Ready
accepting = record {
  is_ready = λ sd. sd == 3;
  ready_count = 1;
  accepted = 4 ∷ 5 ∷ [];
  readable = λ _. record { chunks = []; ending = closed };
  has_memory = λ _. true;
}

abbrev reading : Ready
reading = record {
  is_ready = λ sd. not (sd == 3);
  ready_count = 2;
  accepted = [];
  readable = λ sd.
      if sd == 4
      then record { chunks = (71 ∷ 69 ∷ []) ∷ (84 ∷ []) ∷ []; ending = would_block }
      else record { chunks = (72 ∷ []) ∷ []; ending = closed };
  has_memory = λ _. true;
}

abbrev events : List Select
events = ready accepting ∷ ready reading ∷ timed_out ∷ []

-- `aux_data` is a number that counts the calls.
abbrev counting : Answers
counting = record {
  begin_answer = λ _ sd _. sd + 100;
  part_answer = λ _ _ _ _ a. (false, a + 1);
  end_answer = λ _ _ _. 0;
}

abbrev calls_of : Option (Bool × Bus × List Call) → Option (List Call)
calls_of none = none
calls_of (some (failed, b, calls)) = some calls

run :
    calls_of (mb_channel_receive (recording counting) blank 3 events [])
    ≡ some (
        ended 5 106 0
        ∷ part 5 0 (72 ∷ []) 105 false 106
        ∷ began 5 0 105
        ∷ part 4 2 (84 ∷ []) 105 false 106
        ∷ part 4 0 (71 ∷ 69 ∷ []) 104 false 105
        ∷ began 4 0 104
        ∷ [])
unfolding mb_channel_receive init_bus fd_set receive_events sweep mark serve_ready accept_all
    serve_client resize raise begin_client put_client receive_parts stays_active end_client
    close_client lower_max
run = refl
