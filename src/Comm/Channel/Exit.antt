-- ===== src/Comm/Channel/Exit.antt =====
-- channel.c: a whole call of `mb_channel_receive`, and the order of the calls of a handler.
use blocks.Prelude.{
  ℕ, ◌+◌, ◌<◌, ◌≡◌, sym, ap, ◌∙◌, ◌≢◌, subst, fun_ext, Bool, true, false, List, [], none, some,
  arith, ◌==◌, lt→ltb, ne→==, length-replicate, replicate,
}
use blocks.Prelude.Int.{negsuc}
use blocks.Comm.Channel.{
  Handler, ClientInfo, blank, mark, fd_set, fd_setsize, clients_step, Bus, Select, init_bus,
  close_rest, mb_channel_receive,
}
use blocks.Comm.Channel.Clients.{begun, begun-replicate}
use blocks.Comm.Channel.Invariant.{IsSound, le_of_set}
use blocks.Comm.Channel.Closing.{mark-other, mark-same}
use blocks.Comm.Channel.Lawful.{Open, IsLawful}
use blocks.Comm.Channel.Rounds.{AllFair}
use blocks.Comm.Channel.Loop.{runs}
use blocks.Comm.Channel.Rest.{is_listed, closes, closes_open}

-- The variables before the first round.
abbrev first_bus : ℕ → Bus
first_bus channel_sd = record {
  channel_sd = channel_sd;
  master_set = mark true channel_sd (λ _. false);
  max_sd = channel_sd;
  max_client = negsuc 0;
  clients = replicate (channel_sd + clients_step) blank;
  clients_length = channel_sd + clients_step;
  closed = [];
}

first-IsSound :
    {A : ℕ → Type 0} (channel_sd : ℕ) → channel_sd < fd_setsize → IsSound A (first_bus channel_sd)
first-IsSound channel_sd h = record {
  allowed = λ n ne e. let out = mark-other true channel_sd n (λ _. false) ne in absurd cc;
  listening = mark-same true channel_sd (λ _. false);
  small = h;
  above = λ n l. mark-other true channel_sd n (λ _. false) (omega (arith, l));
  array = length-replicate (channel_sd + clients_step) blank;
  in_set = λ n a e. let none_e = begun-replicate (channel_sd + clients_step) n in cc;
  within = λ n a e. let none_e = begun-replicate (channel_sd + clients_step) n in cc;
  not_listening = begun-replicate (channel_sd + clients_step) channel_sd;
}

init_bus-some :
    (channel_sd : ℕ) → channel_sd < fd_setsize → init_bus channel_sd ≡ some (first_bus channel_sd)
unfolding init_bus fd_set
init_bus-some channel_sd h = rw (lt→ltb channel_sd fd_setsize h)

module _ {S : Type 0} {A : ℕ → Type 0} (handler : Handler S) (P : Open → S → Type 0)
    (law : IsLawful A handler P) where
  -- A call whose listening socket, and whose connections, fit into a set of descriptors, on which a ready
  -- descriptor does not block, and which has memory, returns; every call of a callback keeps what the handler
  -- asks for, from no connection to those that have begun and not ended when the loop is left; these are
  -- closed then, and of the descriptors only the listening socket stays open.
  pub mb_channel_receive-closes :
      (junk : ClientInfo) (channel_sd : ℕ) (events : List Select) (s : S)
      → channel_sd < fd_setsize
      → AllFair A events
      → P (λ _. none) s
      → (failed : Bool) × (b : Bus) × (t : S) × (m : Open) × (mb_channel_receive handler junk
            channel_sd events s
          ≡ some (failed, b, t))
        × P m t
        × ((n : ℕ) → b.master_set n ≡ (n == channel_sd))
        × ((n a : ℕ) → m n ≡ some a → is_listed n b.closed ≡ true)
  unfolding mb_channel_receive
  mb_channel_receive-closes junk channel_sd events s small fair p =
      let e = init_bus-some channel_sd small in
      let p1 =
        subst (λ (o : Open). P o s)
          (fun_ext (λ n. sym (begun-replicate (channel_sd + clients_step) n))) p in
      let (failed, b, t, e', sound, p', channel) =
        runs handler P law junk events (first_bus channel_sd) s fair
          (first-IsSound channel_sd small) p1 in
      let listening : b.master_set channel_sd ≡ true =
        ap b.master_set (sym channel) ∙ sound.listening in
      (
        failed,
        close_rest (b.max_sd + 1) 0 b,
        t,
        begun b.clients,
        rw (e, e'),
        p',
        closes (b.max_sd + 1) 0 channel_sd b channel listening (λ n l. absurd (omega (arith, l)))
            (λ n l.
              let gone = sound.above n (omega (arith, l)) in
              let ne : n ≢ channel_sd = λ e. cc in gone ∙ sym (ne→== n channel_sd ne)),
        λ n a h.
            let inside = sound.in_set n a h in
            let le = le_of_set b n sound inside in
            closes_open (b.max_sd + 1) 0 n b (omega arith) (omega (arith, le)) inside (λ e.
              let here : begun b.clients n ≡ none = ap (begun b.clients) e ∙ sound.not_listening in
              cc),
      )
