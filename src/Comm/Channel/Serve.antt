-- ===== src/Comm/Channel/Serve.antt =====
-- channel.c: the start of a client's turn, with `begin_cb` if the connection is new.
use blocks.Prelude.{
  ℕ, ◌<◌, ◌≡◌, refl, sym, ◌∙◌, true, false, none, some, inl, inr, ◌==◌, Bool-cases, ==_refl, ne→==,
  length, get_elem?, set, length-set,
}
use blocks.Comm.Channel.{Handler, ClientInfo, Bus, begin_client}
use blocks.Comm.Channel.Clients.{aux_of, begun, get_elem?-some, get_elem?-set}
use blocks.Comm.Channel.Lawful.{Open, assign, IsLawful, set-begun_others, put_client-some}
use blocks.Comm.Channel.Receive.{Serving}

module _ {S : Type 0} {A : ℕ → Type 0} (handler : Handler S) (P : Open → S → Type 0)
    (law : IsLawful A handler P) where
  begin_new :
      (sd : ℕ) (b : Bus) (s : S) (c : ClientInfo)
      → P (begun b.clients) s
      → A sd
      → sd < length b.clients
      → get_elem? b.clients sd ≡ some c
      → (c.position == 0) ≡ true
      → (b' : Bus) × (t : S) × (begin_client handler sd b s ≡ some (b', t)) × Serving P b sd b' t
  unfolding begin_client
  begin_new sd b s c p allowed room at zero_e =
      let is_new : begun b.clients sd ≡ none = unfold begun aux_of in rw (at, zero_e) in
      let (a, t, e, p') = law.begins (begun b.clients) s sd c.aux_data p allowed is_new in
      let called : ClientInfo = record c { aux_data = a } in
      (
        record b { clients = set b.clients sd called },
        t,
        rw (at, zero_e, e, put_client-some sd called b room),
        record {
          conns = assign sd (some a) (begun b.clients);
          client = called;
          holds = p';
          midway = record {
            at = get_elem?-set b.clients sd sd called room ∙ rw (==_refl sd);
            own = rw (==_refl sd);
            others =
                λ n ne. rw (ne→== n sd ne) (sym (set-begun_others b.clients sd n called room ne));
            room = rw (length-set b.clients sd called) room;
          };
          rest = refl;
          same_length = length-set b.clients sd called;
          others = λ n ne. set-begun_others b.clients sd n called room ne;
        },
      )

  begin_old :
      (sd : ℕ) (b : Bus) (s : S) (c : ClientInfo)
      → P (begun b.clients) s
      → sd < length b.clients
      → get_elem? b.clients sd ≡ some c
      → (c.position == 0) ≡ false
      → (b' : Bus) × (t : S) × (begin_client handler sd b s ≡ some (b', t)) × Serving P b sd b' t
  unfolding begin_client
  begin_old sd b s c p room at e = (
    b,
    s,
    rw (at, e),
    record {
      conns = begun b.clients;
      client = c;
      holds = p;
      midway = record {
        at = at;
        own = unfold begun aux_of in rw (at, e);
        others = λ n ne. refl;
        room = room;
      };
      rest = refl;
      same_length = refl;
      others = λ n ne. refl;
    },
  )

  pub begins :
      (sd : ℕ) (b : Bus) (s : S)
      → P (begun b.clients) s
      → A sd
      → sd < length b.clients
      → (b' : Bus) × (t : S) × (begin_client handler sd b s ≡ some (b', t)) × Serving P b sd b' t
  begins sd b s p allowed room =
      let (c, at) = get_elem?-some b.clients sd room in
      elim (Bool-cases (c.position == 0)) [
        | inl e ↦ begin_new sd b s c p allowed room at e
        | inr e ↦ begin_old sd b s c p room at e
      ]
