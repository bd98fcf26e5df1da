-- ===== src/Comm/Channel/Rounds.antt =====
-- channel.c: the rounds of the server's loop.
use blocks.Prelude.{
  subst, sym, ℕ, ◌<◌, ◌≤◌, ◌≡◌, refl, ◌∙◌, ◌≢◌, true, List, [], ◌∷◌, some, inl, inr, arith, ltb,
  ◌==◌, if◌then◌else◌, Bool-cases, lt→ltb,
}
use blocks.Prelude.Int.{pos}
use blocks.Comm.Channel.{
  Handler, ClientInfo, FdSet, mark, fd_set, fd_setsize, Bus, Ready, Select, ready, select_failed,
  timed_out, accept_all, raise, serve_ready,
}
use blocks.Comm.Channel.Clients.{begun}
use blocks.Comm.Channel.Invariant.{IsSound, le_of_set, raise-Within}
use blocks.Comm.Channel.Closing.{mark-other, mark-cases}
use blocks.Comm.Channel.Lawful.{Open, IsLawful, Prompt}
use blocks.Comm.Channel.Turn.{serves}

abbrev pub AllAllowed : (ℕ → Type 0) → List ℕ → Type 0
AllAllowed A [] = Unit {0}
AllAllowed A (sd ∷ sds) = (sd < fd_setsize) × A sd × AllAllowed A sds

-- What a round takes for granted: those that `accept` returns are allowed, and a set of descriptors has
-- room for them; a descriptor that `select` has returned does not block, and there is memory.
pub record IsFair (A : ℕ → Type 0) (r : Ready) : Type 0 where
  pub small : AllAllowed A r.accepted
  pub prompt : (sd : ℕ) → Prompt 0 (r.readable sd).chunks (r.readable sd).ending
  pub memory : (sd : ℕ) → r.has_memory sd ≡ true

abbrev pub AllFair : (ℕ → Type 0) → List Select → Type 0
AllFair A [] = Unit {0}
AllFair A (ready r ∷ events) = IsFair A r × AllFair A events
AllFair A (select_failed ∷ events) = Unit {0}
AllFair A (timed_out ∷ events) = Unit {0}

-- The bus behind `accept`.
abbrev accepted_bus : ℕ → Bus → Bus
accepted_bus sd b = record b {
  master_set = mark true sd b.master_set;
  max_sd = if ltb b.max_sd sd then sd else b.max_sd;
}

mark_keeps : (sd n : ℕ) (fds : FdSet) → fds n ≡ true → mark true sd fds n ≡ true
unfolding mark
mark_keeps sd n fds h = ground (arith, h)

accepted-IsSound :
    {A : ℕ → Type 0} (sd : ℕ) (b : Bus)
    → IsSound A b
    → sd < fd_setsize
    → A sd
    → IsSound A (accepted_bus sd b)
accepted-IsSound {A} sd b s h a = record {
  allowed = λ n ne e. elim (mark-cases true sd n b.master_set e) [
    | inl (q, _) ↦ subst A (sym q) a
    | inr old ↦ s.allowed n ne old
  ];
  listening = mark_keeps sd b.channel_sd b.master_set s.listening;
  small = ground (arith, s.small);
  above = λ n l.
      let le : b.max_sd < n = ground arith in
      let ne : n ≢ sd = ground arith in mark-other true sd n b.master_set ne ∙ s.above n le;
  array = s.array;
  in_set = λ n a e. mark_keeps sd n b.master_set (s.in_set n a e);
  within = s.within;
  not_listening = s.not_listening;
}

-- What one call of `serve_ready` leaves.
pub record Step {S : Type 0} (A : ℕ → Type 0) (P : Open → S → Type 0) (b : Bus) (sd : ℕ) (b' : Bus)
    (t : S) : Type 0 where
  pub sound : IsSound A b'
  pub holds : P (begun b'.clients) t
  pub same_channel : b'.channel_sd ≡ b.channel_sd
  pub keeps : (n : ℕ) → n ≢ sd → b.master_set n ≡ true → b'.master_set n ≡ true

accepts :
    {S : Type 0} {A : ℕ → Type 0} (P : Open → S → Type 0) (fds : List ℕ) (b : Bus) (sd : ℕ) (s : S)
    → IsSound A b
    → P (begun b.clients) s
    → AllAllowed A fds
    → (b' : Bus) × (accept_all fds b ≡ some b') × Step A P b sd b' s
unfolding accept_all fd_set
accepts P [] b sd s sound p h =
    (b, refl, record { sound = sound; holds = p; same_channel = refl; keeps = λ n ne e. e })
accepts P (fd ∷ fds) b sd s sound p (small, allowed, rest) =
    let (b', e, step) =
      accepts P fds (accepted_bus fd b) sd s (accepted-IsSound fd b sound small allowed) p rest in
    (
      b',
      rw (lt→ltb fd fd_setsize small) e,
      record {
        sound = step.sound;
        holds = step.holds;
        same_channel = step.same_channel;
        keeps = λ n ne e. step.keeps n ne (mark_keeps fd n b.master_set e);
      },
    )

pub raised-IsSound :
    {A : ℕ → Type 0} (sd : ℕ) (b : Bus)
    → IsSound A b
    → IsSound A (record b { max_client = pos (raise b.max_client sd b.max_sd) })
raised-IsSound sd b s = record {
  allowed = s.allowed;
  listening = s.listening;
  small = s.small;
  above = s.above;
  array = s.array;
  in_set = s.in_set;
  within = λ n a e.
      raise-Within b.max_client sd b.max_sd n (s.within n a e) (le_of_set b n s (s.in_set n a e));
  not_listening = s.not_listening;
}

module _ {S : Type 0} {A : ℕ → Type 0} (handler : Handler S) (P : Open → S → Type 0)
    (law : IsLawful A handler P) (junk : ClientInfo) where
  pub serves_ready :
      (r : Ready) (max_client sd : ℕ) (b : Bus) (s : S)
      → IsFair A r
      → IsSound A b
      → b.max_client ≡ pos max_client
      → sd ≤ max_client
      → b.master_set sd ≡ true
      → P (begun b.clients) s
      → (b' : Bus) × (t : S) × (serve_ready handler junk r max_client sd b s ≡ some (b', t))
        × Step A P b sd b' t
  unfolding serve_ready
  serves_ready r max_client sd b s fair sound e le present p =
      elim (Bool-cases (sd == b.channel_sd)) [
        | inl listening ↦
            let (b', found, step) = accepts P r.accepted b sd s sound p fair.small in
            (b', s, rw (listening, found), step)
        | inr client ↦
            let (b', t, found, served) =
              serves handler P law junk sd max_client (r.readable sd) b s sound present
                (ground arith) e le p (fair.prompt sd) in
            (
              b',
              t,
              rw (client, fair.memory sd) found,
              record {
                sound = served.sound;
                holds = served.holds;
                same_channel = served.same_channel;
                keeps = λ n ne h. served.same_set n ne ∙ h;
              },
            )
      ]
