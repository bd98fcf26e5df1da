-- ===== src/Comm/Channel/Receive.antt =====
-- channel.c: what the loop of `recv` calls leaves, for a handler that keeps its promises.
use blocks.Prelude.{
  ℕ, ◌+◌, ◌<◌, ◌≡◌, refl, ◌∙◌, ◌≢◌, Bool, true, false, List, [], ◌∷◌, Option, some, inl, inr, arith,
  if◌then◌else◌, Bool-cases, length, get_elem?, set, length-set,
}
use blocks.Comm.Channel.{Handler, ClientInfo, Bus, Ending, stays_active, receive_parts}
use blocks.Comm.Channel.Clients.{begun}
use blocks.Comm.Channel.Lawful.{
  Open, assign, IsLawful, Prompt, next-Prompt, Midway, put-Midway, position-Midway,
  set-begun_others, put_client-some,
}

-- What a part of a client's turn leaves: the connections, with that of `sd` among them, and the record of
-- each other descriptor as it was.
pub record Serving {S : Type 0} (P : Open → S → Type 0) (b : Bus) (sd : ℕ) (b' : Bus) (t : S)
    : Type 0 where
  pub conns : Open
  pub client : ClientInfo
  pub holds : P conns t
  pub midway : Midway conns b'.clients sd client
  pub rest : b' ≡ record b { clients = b'.clients }
  pub same_length : length b'.clients ≡ length b.clients
  pub others : (n : ℕ) → n ≢ sd → begun b'.clients n ≡ begun b.clients n

pub record Received {S : Type 0} (P : Open → S → Type 0) (b : Bus) (sd : ℕ) (active : Bool)
    (b' : Bus) (t : S) : Type 0 where
  pub serving : Serving P b sd b' t
  pub progress : active ≡ true → serving.client.position ≢ 0

module _ {S : Type 0} {A : ℕ → Type 0} (handler : Handler S) (P : Open → S → Type 0)
    (law : IsLawful A handler P) where
  abbrev pub Receives : ℕ → Bus → Option (Bool × Bus × S) → Type 0
  Receives sd b result =
      (active : Bool) × (b' : Bus) × (t : S) × (result ≡ some (active, b', t))
      × Received P b sd active b' t

  receive_done :
      (sd : ℕ) (ending : Ending) (b : Bus) (s : S) (m : Open) (c : ClientInfo)
      → P m s
      → Midway m b.clients sd c
      → Prompt c.position [] ending
      → Received P b sd (stays_active ending) b s
  receive_done sd ending b s m c p h prompt = record {
    serving = record {
      conns = m;
      client = c;
      holds = p;
      midway = h;
      rest = refl;
      same_length = refl;
      others = λ n ne. refl;
    };
    progress = λ e. elim prompt [ inl ne ↦ ne | inr f ↦ cc ];
  }

  -- The client's record behind `part_cb`, and with the new position.
  abbrev with_aux : ℕ → ℕ → ClientInfo → Bus → Bus
  with_aux sd a c b = record b { clients = set b.clients sd (record c { aux_data = a }) }

  abbrev with_position : ℕ → ℕ → ℕ → Bus → Bus
  with_position sd a next b = record b {
    clients = set b.clients sd (record { position = next; aux_data = a });
  }

  receive_step :
      (sd position : ℕ) (bytes : List ℕ) (chunks : List (List ℕ)) (ending : Ending) (b : Bus)
      (s t : S) (c : ClientInfo) (a : ℕ) (is_negative : Bool)
      → get_elem? b.clients sd ≡ some c
      → sd < length b.clients
      → handler.part_cb sd position bytes c.aux_data s ≡ some (is_negative, a, t)
      → receive_parts handler sd position (bytes ∷ chunks) ending b s ≡ (
          if is_negative
          then some (false, with_aux sd a c b, t)
          else receive_parts handler sd
              (position + length bytes)
              chunks
              ending
              (with_position sd a (position + length bytes) (with_aux sd a c b))
              t)
  unfolding receive_parts
  receive_step sd position bytes chunks ending b s t c a is_negative at room e =
      let first = put_client-some sd (record c { aux_data = a }) b room in
      let second =
        put_client-some sd (record { position = position + length bytes; aux_data = a })
          (with_aux sd a c b) (rw (length-set b.clients sd (record c { aux_data = a })) room) in
      rw (at, e, first, second)

  module _ (sd a next : ℕ) (c : ClientInfo) (b : Bus) (room : sd < length b.clients) (active : Bool)
      (b' : Bus) (t : S)
      (r : Received P (with_position sd a next (with_aux sd a c b)) sd active b' t) where
    first-Received : Received P b sd active b' t
    first-Received = record {
      serving = record {
        conns = r.serving.conns;
        client = r.serving.client;
        holds = r.serving.holds;
        midway = r.serving.midway;
        rest = r.serving.rest;
        same_length =
            r.serving.same_length
            ∙ length-set (set b.clients sd (record c { aux_data = a })) sd
                (record { position = next; aux_data = a })
            ∙ length-set b.clients sd (record c { aux_data = a });
        others = λ n ne.
            r.serving.others n ne
            ∙ set-begun_others (set b.clients sd (record c { aux_data = a })) sd n
                (record { position = next; aux_data = a })
                (rw (length-set b.clients sd (record c { aux_data = a })) room) ne
            ∙ set-begun_others b.clients sd n (record c { aux_data = a }) room ne;
      };
      progress = r.progress;
    }

  pub receives :
      (sd position : ℕ) (chunks : List (List ℕ)) (ending : Ending) (b : Bus) (s : S) (m : Open)
      (c : ClientInfo)
      → P m s
      → Midway m b.clients sd c
      → Prompt c.position chunks ending
      → Receives sd b (receive_parts handler sd position chunks ending b s)
  receives sd position [] ending b s m c p h prompt = (
    stays_active ending,
    b,
    s,
    unfold receive_parts in refl,
    receive_done sd ending b s m c p h prompt,
  )
  receives sd position (bytes ∷ chunks) ending b s m c p h (filled, all) =
      let (is_negative, a, t, e, p') = law.parts m s sd position c.aux_data bytes p h.own in
      let called : ClientInfo = record c { aux_data = a } in
      let next = position + length bytes in
      let midway = put-Midway m b.clients sd c called h in
      let step = receive_step sd position bytes chunks ending b s t c a is_negative h.at h.room e in
      let m' : Open = assign sd (some a) m in
      elim (Bool-cases is_negative) [
        | inl negative ↦ (
          false,
          with_aux sd a c b,
          t,
          step ∙ rw negative,
          record {
            serving = record {
              conns = m';
              client = called;
              holds = p';
              midway = midway;
              rest = refl;
              same_length = length-set b.clients sd called;
              others = λ n ne. set-begun_others b.clients sd n called h.room ne;
            };
            progress = λ z. cc;
          },
        )
        | inr goes_on ↦
            let b2 : Bus = with_position sd a next (with_aux sd a c b) in
            let midway' = position-Midway m' (set b.clients sd called) sd called next midway in
            let moved : ClientInfo = record { position = next; aux_data = a } in
            let prompt' = next-Prompt next chunks ending (omega (arith, filled)) all in
            let (active, b', t', found, r) =
              receives sd next chunks ending b2 t m' moved p' midway' prompt' in
            (
              active,
              b',
              t',
              step ∙ rw goes_on found,
              first-Received sd a next c b h.room active b' t' r,
            )
      ]
