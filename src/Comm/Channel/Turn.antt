-- ===== src/Comm/Channel/Turn.antt =====
-- channel.c: a client's turn, from the resizing of the array to the closing of the connection.
use blocks.Prelude.{
  ℕ, ◌<◌, ◌≤◌, ◌≡◌, refl, sym, ap, ◌∙◌, ◌≢◌, subst, fun_ext, Bool, true, false, List, Option, none,
  some, inl, inr, arith, ◌==◌, if◌then◌else◌, Bool-cases, ==_refl, ne→==, length, set, length-set,
}
use blocks.Prelude.Int.{pos}
use blocks.Comm.Channel.{Handler, ClientInfo, Bus, Readable, end_client, serve_client}
use blocks.Comm.Channel.Clients.{aux_of, begun, begun-set}
use blocks.Comm.Channel.Invariant.{Within, IsSound, resize-Resized}
use blocks.Comm.Channel.Lawful.{
  Open, IsLawful, Prompt, later-Prompt, Midway, set-begun_others, put_client-some,
}
use blocks.Comm.Channel.Receive.{receives}
use blocks.Comm.Channel.Serve.{begins}
use blocks.Comm.Channel.Closing.{
  with_clients, closed_bus, mark-other, active-IsSound, close_client-some, closed-IsSound,
}

-- What a client's turn leaves.
pub record Served {S : Type 0} (A : ℕ → Type 0) (P : Open → S → Type 0) (b : Bus) (sd : ℕ)
    (b' : Bus) (t : S) : Type 0 where
  pub sound : IsSound A b'
  pub holds : P (begun b'.clients) t
  pub same_channel : b'.channel_sd ≡ b.channel_sd
  pub same_set : (n : ℕ) → n ≢ sd → b'.master_set n ≡ b.master_set n

module _ {S : Type 0} {A : ℕ → Type 0} (handler : Handler S) (P : Open → S → Type 0)
    (law : IsLawful A handler P) where
  module _ (b : Bus) (sd : ℕ) (s : IsSound A b) (present : b.master_set sd ≡ true)
      (client : sd ≢ b.channel_sd) (cs : List ClientInfo) (k : ℕ) (len : length cs ≡ k)
      (others : (n : ℕ) → n ≢ sd → begun cs n ≡ begun b.clients n) (m : Open) (c : ClientInfo)
      (t : S) (p : P m t) (mid : Midway m cs sd c) where
    ends :
        (b' : Bus) × (t' : S) × (end_client handler sd (with_clients cs k b) t ≡ some (b', t'))
        × Served A P b sd b' t'
    unfolding end_client
    ends =
        let (a, t', e, p') = law.ends m t sd c.aux_data p mid.own in
        let c' : ClientInfo = record { position = 0; aux_data = a } in
        let cs' = set cs sd c' in
        let (max_sd, closes, le, above) = close_client-some b sd s present client cs' k in
        let len' = length-set cs sd c' ∙ len in
        let others' : (n : ℕ) → n ≢ sd → begun cs' n ≡ begun b.clients n =
          λ n ne. set-begun_others cs sd n c' mid.room ne ∙ others n ne in
        let gone : begun cs' sd ≡ none =
          begun-set cs sd sd c' mid.room ∙ unfold aux_of in rw (==_refl sd) in
        (
          closed_bus sd max_sd (with_clients cs' k b),
          t',
          rw (mid.at, e, put_client-some sd c' (with_clients cs k b) mid.room, closes),
          record {
            sound = closed-IsSound b sd s present client cs' k max_sd len' others' gone le above;
            holds =
                subst (λ (o : Open). P o t')
                  (fun_ext (λ n. elim (Bool-cases (n == sd)) [
                    | inl same ↦
                        let q : n ≡ sd = ground arith in rw same (sym (ap (begun cs') q ∙ gone))
                    | inr other ↦
                        let ne : n ≢ sd = ground arith in
                        rw other (mid.others n ne ∙ sym (set-begun_others cs sd n c' mid.room ne))
                  ]))
                  p';
            same_channel = refl;
            same_set = λ n ne. mark-other false sd n b.master_set ne;
          },
        )

    stays : (c.position ≢ 0) → Within sd b.max_client → Served A P b sd (with_clients cs k b) t
    stays ne w = record {
      sound = active-IsSound b sd s present client cs k len others w;
      holds =
          subst (λ (o : Open). P o t)
            (fun_ext (λ n. elim (Bool-cases (n == sd)) [
              | inl same ↦
                  let q : n ≡ sd = ground arith in
                  ap m q
                  ∙ mid.own
                  ∙ sym
                      (ap (begun cs) q ∙ unfold begun aux_of in rw (mid.at, ne→== c.position 0 ne))
              | inr other ↦ mid.others n (ground arith)
            ]))
            p;
      same_channel = refl;
      same_set = λ n ne. refl;
    }

  abbrev Serves : ℕ → Bus → Option (Bus × S) → Type 0
  Serves sd b result = (b' : Bus) × (t : S) × (result ≡ some (b', t)) × Served A P b sd b' t

  module _ (junk : ClientInfo) (sd max_client : ℕ) (r : Readable) (b : Bus) (s : S)
      (sound : IsSound A b) (present : b.master_set sd ≡ true) (client : sd ≢ b.channel_sd)
      (e : b.max_client ≡ pos max_client) (within : sd ≤ max_client) (p : P (begun b.clients) s)
      (prompt : Prompt 0 r.chunks r.ending) where
    finishes :
        (active : Bool) (b' : Bus) (t : S) (cs : List ClientInfo) (k : ℕ)
        → b' ≡ with_clients cs k b
        → length cs ≡ k
        → ((n : ℕ) → n ≢ sd → begun cs n ≡ begun b.clients n)
        → (m : Open) → (c : ClientInfo) → P m t
        → Midway m cs sd c
        → (active ≡ true → c.position ≢ 0)
        → Serves sd b (if active then some (b', t) else end_client handler sd b' t)
    finishes true b' t cs k q len others m c p mid progress = (
      with_clients cs k b,
      t,
      rw q refl,
      stays b sd sound present client cs k len others m c t p mid (progress refl)
          (subst (Within sd) (sym e) within),
    )
    finishes false b' t cs k q len others m c p mid progress =
        let (b4, t', found, served) = ends b sd sound present client cs k len others m c t p mid in
        (b4, t', rw q found, served)

    pub serves : Serves sd b (serve_client handler junk true max_client sd r b s)
    unfolding serve_client
    serves =
        let (b1, e1, r1) = resize-Resized junk max_client b sound e in
        let p1 = subst (λ (o : Open). P o s) (fun_ext (λ n. sym (r1.same n))) p in
        let room : sd < length b1.clients = omega (arith, r1.room, r1.array, within) in
        let (b2, s2, e2, r2) =
          begins handler P law sd b1 s p1 (sound.allowed sd client present) room in
        let prompt2 = later-Prompt r2.client.position r.chunks r.ending prompt in
        let (active, b3, s3, e3, r3) =
          receives handler P law sd 0 r.chunks r.ending b2 s2 r2.conns r2.client r2.holds r2.midway
            prompt2 in
        let g = r3.serving in
        let whole : b3 ≡ with_clients b3.clients b1.clients_length b =
          g.rest
          ∙ ap (λ (x : Bus). record x { clients = b3.clients })
              (r2.rest ∙ ap (λ (x : Bus). record x { clients = b2.clients }) r1.rest) in
        let len : length b3.clients ≡ b1.clients_length =
          g.same_length ∙ r2.same_length ∙ r1.array in
        let others : (n : ℕ) → n ≢ sd → begun b3.clients n ≡ begun b.clients n =
          λ n ne. g.others n ne ∙ r2.others n ne ∙ r1.same n in
        let (b4, t, found, served) =
          finishes active b3 s3 b3.clients b1.clients_length whole len others g.conns g.client
            g.holds g.midway r3.progress in
        (b4, t, rw (e1, e2, e3) found, served)
