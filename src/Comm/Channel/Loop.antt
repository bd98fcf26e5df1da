-- ===== src/Comm/Channel/Loop.antt =====
-- channel.c: the inner and the outer loop of the server, as a whole.
use blocks.Prelude.{
  ℕ, zero, suc, ◌+◌, ◌≤◌, ◌≡◌, refl, ◌∙◌, Bool, true, false, ◌&&◌, List, [], ◌∷◌, Option, some, inl,
  inr, arith, ltb, Bool-cases, lt→ltb,
}
use blocks.Prelude.Int.{pos}
use blocks.Comm.Channel.{
  Handler, ClientInfo, FdSet, fd_setsize, Bus, Ready, Select, ready, select_failed, timed_out,
  raise, sweep, receive_events,
}
use blocks.Comm.Channel.Clients.{begun}
use blocks.Comm.Channel.Invariant.{IsSound, raise_bounds}
use blocks.Comm.Channel.Lawful.{Open, IsLawful}
use blocks.Comm.Channel.Rounds.{AllFair, IsFair, raised-IsSound, serves_ready}

module _ {S : Type 0} {A : ℕ → Type 0} (handler : Handler S) (P : Open → S → Type 0)
    (law : IsLawful A handler P) (junk : ClientInfo) where
  abbrev Swept : Bus → Option (Bus × S) → Type 0
  Swept b result =
      (b' : Bus) × (t : S) × (result ≡ some (b', t))
      × IsSound A b'
      × P (begun b'.clients) t
      × (b'.channel_sd ≡ b.channel_sd)

  module _ (r : Ready) (fair : IsFair A r) (working_set : FdSet) where
    sweeps :
        (fuel sd count : ℕ) (b : Bus) (s : S)
        → IsSound A b
        → P (begun b.clients) s
        → fuel + sd ≡ fd_setsize
        → ((n : ℕ) → sd ≤ n → working_set n ≡ true → b.master_set n ≡ true)
        → Swept b (sweep handler junk fuel r working_set sd count b s)
    unfolding sweep
    sweeps fuel sd zero b s sound p q w = (b, s, refl, sound, p, refl)
    sweeps zero sd (suc count) b s sound p q w =
        (b, s, rw (lt→ltb b.max_sd sd (omega (arith, sound.small, q))), sound, p, refl)
    sweeps (suc fuel) sd (suc count) b s sound p q w = elim (Bool-cases (ltb b.max_sd sd)) [
      | inl past ↦ (b, s, rw past, sound, p, refl)
      | inr inside ↦
          let max_client = raise b.max_client sd b.max_sd in
          let b1 : Bus = record b { max_client = pos max_client } in
          let sound1 : IsSound A b1 = raised-IsSound sd b sound in
          let (le, top) = raise_bounds b.max_client sd b.max_sd (ground arith) in
          elim (Bool-cases (working_set sd)) [
            | inl here ↦
                let (b2, t, e, step) =
                  serves_ready handler P law junk r max_client sd b1 s fair sound1 refl le
                    (w sd (omega arith) here) p in
                let (b3, t', e', sound3, p3, channel) =
                  sweeps fuel (suc sd) count b2 t step.sound step.holds (omega (arith, q))
                    (λ n l h. step.keeps n (omega arith) (w n (omega arith) h)) in
                (b3, t', rw (inside, here, e, e'), sound3, p3, channel ∙ step.same_channel)
            | inr skipped ↦
                let (b3, t', e', sound3, p3, channel) =
                  sweeps fuel (suc sd) (suc count) b1 s sound1 p (omega (arith, q))
                    (λ n l h. w n (omega arith) h) in
                (b3, t', rw (inside, skipped) e', sound3, p3, channel)
          ]
    ]

  abbrev pub Runs : Bus → Option (Bool × Bus × S) → Type 0
  Runs b result =
      (failed : Bool) × (b' : Bus) × (t : S) × (result ≡ some (failed, b', t))
      × IsSound A b'
      × P (begun b'.clients) t
      × (b'.channel_sd ≡ b.channel_sd)

  pub runs :
      (events : List Select) (b : Bus) (s : S)
      → AllFair A events
      → IsSound A b
      → P (begun b.clients) s
      → Runs b (receive_events handler junk events b s)
  unfolding receive_events
  runs [] b s fair sound p = (false, b, s, refl, sound, p, refl)
  runs (select_failed ∷ events) b s fair sound p = (true, b, s, refl, sound, p, refl)
  runs (timed_out ∷ events) b s fair sound p = (false, b, s, refl, sound, p, refl)
  runs (ready r ∷ events) b s (fair, rest) sound p =
      let working_set : FdSet = λ n. r.is_ready n && b.master_set n in
      let (b1, t, e, sound1, p1, channel) =
        sweeps r fair working_set fd_setsize 0 r.ready_count b s sound p refl
          (λ n l h. ground (arith, h)) in
      let (failed, b2, t', e', sound2, p2, channel') = runs events b1 t rest sound1 p1 in
      (failed, b2, t', rw (e, e'), sound2, p2, channel' ∙ channel)
