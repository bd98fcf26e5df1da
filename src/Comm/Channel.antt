-- ===== src/Comm/Channel.antt =====
-- src/comm/channel.c: `mb_channel_receive`, the server's loop over its connections.
-- What `select`, `accept`, `recv` and `realloc` do is an argument: a list of events, one for each call of
-- `select`. The callbacks are a record of functions on a state of the application. `none` is an access
-- outside `clients` or a set of descriptors, or a fault of a callback.
pub mod Clients
pub mod Closing
pub mod Exit
pub mod Invariant
pub mod Lawful
pub mod Receive
pub mod Rest
pub mod Loop
pub mod Rounds
pub mod Serve
pub mod Session
pub mod Turn
mod Tests
use blocks.Prelude.{
  ℕ, zero, suc, ◌+◌, ◌-◌, Bool, true, false, not, ◌&&◌, List, [], ◌∷◌, ◌++◌, Option, none, some,
  ltb, leb, ◌==◌, if◌then◌else◌, ◌>>=◌, length, get_elem?, set, take, drop, replicate,
}
use blocks.Prelude.Int.{ℤ, pos, negsuc}

-- mb_handler_t. `aux_data` goes in and out by its address; the results of `begin_cb` and `end_cb` are not
-- read, and the flag of `part_cb` says that its result is negative.
pub record Handler (S : Type 0) : Type 0 where
  pub begin_cb : ℕ → ℕ → S → Option (ℕ × S)
  pub part_cb : ℕ → ℕ → List ℕ → ℕ → S → Option (Bool × ℕ × S)
  pub end_cb : ℕ → ℕ → S → Option (ℕ × S)

-- struct client_info
pub record ClientInfo : Type 0 where
  pub position : ℕ
  pub aux_data : ℕ

abbrev pub blank : ClientInfo
blank = record { position = 0; aux_data = 0 }

-- A set of descriptors, which has room for those below 1024.
abbrev pub FdSet : Type 0
FdSet = ℕ → Bool

abbrev pub fd_setsize : ℕ
fd_setsize = 1024

unfoldable pub mark : Bool → ℕ → FdSet → FdSet
mark present sd fds = λ n. if n == sd then present else fds n

unfoldable pub fd_set : ℕ → FdSet → Option FdSet
fd_set sd fds = if ltb sd fd_setsize then some (mark true sd fds) else none

-- The variables of `mb_channel_receive`: `clients` is the memory, of which `clients_length` records are in
-- use. `closed` has the descriptors that were closed, the last one first.
pub record Bus : Type 0 where
  pub channel_sd : ℕ
  pub master_set : FdSet
  pub max_sd : ℕ
  pub max_client : ℤ
  pub clients : List ClientInfo
  pub clients_length : ℕ
  pub closed : List ℕ

-- How a run of `recv` calls ends, of which the others return bytes.
pub data Ending : Type 0 where
  would_block closed bad_descriptor failed : Ending

unfoldable pub stays_active : Ending → Bool
stays_active would_block = true
stays_active Ending.closed = false
stays_active bad_descriptor = false
stays_active failed = false

pub record Readable : Type 0 where
  pub chunks : List (List ℕ)
  pub ending : Ending

-- What a round meets after `select` has returned a positive number: the descriptors that are ready, of
-- which `select` leaves those of the working set there; the descriptors that `accept` returns before it
-- fails; what `recv` gives on each descriptor; and whether `realloc` succeeds there.
pub record Ready : Type 0 where
  pub is_ready : FdSet
  pub ready_count : ℕ
  pub accepted : List ℕ
  pub readable : ℕ → Readable
  pub has_memory : ℕ → Bool

pub data Select : Type 0 where
  select_failed timed_out : Select
  ready : Ready → Select

-- The loop of `accept` calls.
unfoldable pub accept_all : List ℕ → Bus → Option Bus
accept_all [] b = some b
accept_all (new_sd ∷ rest) b = do
  fds ← fd_set new_sd b.master_set
  accept_all rest
      (record b { master_set = fds; max_sd = if ltb b.max_sd new_sd then new_sd else b.max_sd })

abbrev pub clients_step : ℕ
clients_step = 5

-- `realloc` of an array of records: `junk` stands in the memory that is new.
unfoldable pub fit : ClientInfo → List ClientInfo → ℕ → List ClientInfo
fit junk cs zero = []
fit junk [] (suc n) = junk ∷ fit junk [] n
fit junk (c ∷ cs) (suc n) = c ∷ fit junk cs n

-- Without memory the old array stays.
unfoldable pub realloc_clients : Bool → ClientInfo → List ClientInfo → ℕ → List ClientInfo
realloc_clients true junk cs n = fit junk cs n
realloc_clients false junk cs n = cs

-- `memset` of `n` records from index `from` on.
unfoldable pub zero_clients : ℕ → ℕ → List ClientInfo → Option (List ClientInfo)
zero_clients from n cs =
    if leb (from + n) (length cs)
    then some (take from cs ++ (replicate n blank ++ drop (from + n) cs))
    else none

-- The growth and the shrinking of the array, before a client is served.
unfoldable pub resize : Bool → ClientInfo → ℕ → Bus → Option Bus
resize ok junk max_client b =
    if leb b.clients_length max_client
    then (do
      let new_clients = max_client - b.clients_length + clients_step
      cs ←
          zero_clients b.clients_length new_clients
            (realloc_clients ok junk b.clients (b.clients_length + new_clients))
      some (record b { clients = cs; clients_length = b.clients_length + new_clients }))
    else (if ltb max_client (b.clients_length - clients_step)
        then some (record b {
          clients = realloc_clients ok junk b.clients (max_client + 1);
          clients_length = max_client + 1;
        })
        else some b)

-- `max_client` behind the two `if`s at the head of a round of the inner loop.
unfoldable pub raise : ℤ → ℕ → ℕ → ℕ
raise (negsuc n) sd max_sd = if ltb max_sd sd then max_sd else sd
raise (pos m) sd max_sd =
    let raised = if ltb m sd then sd else m in if ltb max_sd raised then max_sd else raised

-- `while (FD_ISSET(max_sd, &master_set) == 0) max_sd -= 1;`
unfoldable pub lower_max : FdSet → ℕ → Option ℕ
lower_max fds zero = if fds zero then some zero else none
lower_max fds (suc n) = let rest = lower_max fds n in if fds (suc n) then some (suc n) else rest

-- `clients[sd]` is written.
unfoldable pub put_client : ℕ → ClientInfo → Bus → Option Bus
put_client sd c b =
    if ltb sd (length b.clients) then some (record b { clients = set b.clients sd c }) else none

-- `close(sd)` and `FD_CLR`, with the search for a lower `max_sd`.
unfoldable pub close_client : ℕ → Bus → Option Bus
close_client sd b = do
  let fds = mark false sd b.master_set
  max_sd ← (if sd == b.max_sd then lower_max fds b.max_sd else some b.max_sd)
  some (record b { master_set = fds; max_sd = max_sd; closed = sd ∷ b.closed })

module _ {S : Type 0} (handler : Handler S) where
  -- The loop of `recv` calls; the flag is `is_conn_active`.
  unfoldable pub receive_parts : ℕ → ℕ → List (List ℕ) → Ending → Bus → S → Option (Bool × Bus × S)
  receive_parts sd position [] ending b s = some (stays_active ending, b, s)
  receive_parts sd position (bytes ∷ chunks) ending b s = do
    c ← get_elem? b.clients sd
    (is_negative, aux_data, s) ← handler.part_cb sd position bytes c.aux_data s
    b ← put_client sd (record c { aux_data = aux_data }) b
    let next = position + length bytes
    let rest = put_client sd (record { position = next; aux_data = aux_data }) b >>= λ b.
        receive_parts sd next chunks ending b s
    if is_negative then some (false, b, s) else rest

  -- `begin_cb`, if nothing of the connection has been read before.
  unfoldable pub begin_client : ℕ → Bus → S → Option (Bus × S)
  begin_client sd b s = do
    c ← get_elem? b.clients sd
    if c.position == 0
        then (do
          (aux_data, s) ← handler.begin_cb sd c.aux_data s
          b ← put_client sd (record c { aux_data = aux_data }) b
          some (b, s))
        else some (b, s)

  -- What follows the loop for a connection that is not active.
  unfoldable pub end_client : ℕ → Bus → S → Option (Bus × S)
  end_client sd b s = do
    c ← get_elem? b.clients sd
    (aux_data, s) ← handler.end_cb sd c.aux_data s
    b ← put_client sd (record { position = 0; aux_data = aux_data }) b
    b ← close_client sd b
    some (b, s)

module _ {S : Type 0} (handler : Handler S) (junk : ClientInfo) where
  -- The branch of the inner loop for a client that is ready; `max_client` has its new value.
  unfoldable pub serve_client : Bool → ℕ → ℕ → Readable → Bus → S → Option (Bus × S)
  serve_client has_memory max_client sd readable b s = do
    b ← resize has_memory junk max_client b
    (b, s) ← begin_client handler sd b s
    (is_conn_active, b, s) ← receive_parts handler sd 0 readable.chunks readable.ending b s
    if is_conn_active then some (b, s) else end_client handler sd b s

  -- A descriptor that is in the working set.
  unfoldable pub serve_ready : Ready → ℕ → ℕ → Bus → S → Option (Bus × S)
  serve_ready r max_client sd b s =
      if sd == b.channel_sd
      then (do b ← accept_all r.accepted b; some (b, s))
      else serve_client (r.has_memory sd) max_client sd (r.readable sd) b s

  -- The inner loop from `sd` on, with `ready_count`; the fuel is the number of descriptors from `sd` on.
  unfoldable pub sweep : ℕ → Ready → FdSet → ℕ → ℕ → Bus → S → Option (Bus × S)
  sweep fuel r working_set sd zero b s = some (b, s)
  sweep zero r working_set sd (suc count) b s = if ltb b.max_sd sd then some (b, s) else none
  sweep (suc fuel) r working_set sd (suc count) b s =
      let max_client = raise b.max_client sd b.max_sd in
      let b' = record b { max_client = pos max_client } in
      let served = serve_ready r max_client sd b' s >>= λ (b, s).
      sweep fuel r working_set (suc sd) count b s in
      let skipped = sweep fuel r working_set (suc sd) (suc count) b' s in
      if ltb b.max_sd sd then some (b, s) else if working_set sd then served else skipped

  -- The outer loop. The list ends where `alive` is found to be 0. The flag says that the result is -1.
  unfoldable pub receive_events : List Select → Bus → S → Option (Bool × Bus × S)
  receive_events [] b s = some (false, b, s)
  receive_events (select_failed ∷ events) b s = some (true, b, s)
  receive_events (timed_out ∷ events) b s = some (false, b, s)
  receive_events (ready r ∷ events) b s = do
    let working_set : FdSet = λ n. r.is_ready n && b.master_set n
    (b, s) ← sweep fd_setsize r working_set 0 r.ready_count b s
    receive_events events b s

-- The loop behind, which closes the connections that are left: from `sd` on, in `rounds` rounds.
unfoldable pub close_rest : ℕ → ℕ → Bus → Bus
close_rest zero sd b = b
close_rest (suc rounds) sd b =
    let open_here = not (sd == b.channel_sd) && b.master_set sd in
    close_rest rounds (suc sd) (
      if open_here
      then record b { master_set = mark false sd b.master_set; closed = sd ∷ b.closed }
      else b)

unfoldable pub init_bus : ℕ → Option Bus
init_bus channel_sd = do
  fds ← fd_set channel_sd (λ _. false)
  some (record {
    channel_sd = channel_sd;
    master_set = fds;
    max_sd = channel_sd;
    max_client = negsuc 0;
    clients = replicate (channel_sd + clients_step) blank;
    clients_length = channel_sd + clients_step;
    closed = [];
  })

-- The whole call: the flag says that it returns -1.
unfoldable pub mb_channel_receive :
    {S : Type 0} → Handler S → ClientInfo → ℕ → List Select → S → Option (Bool × Bus × S)
mb_channel_receive handler junk channel_sd events s = do
  b ← init_bus channel_sd
  (exit_code, b, s) ← receive_events handler junk events b s
  some (exit_code, close_rest (b.max_sd + 1) 0 b, s)
