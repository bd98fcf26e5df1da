-- ===== src/Comm/Channel/Lawful.antt =====
-- channel.c: the calls of a handler, against what the handler needs of their order.
use blocks.Prelude.{
  ℕ, ◌<◌, ◌≡◌, refl, sym, ◌∙◌, ◌≢◌, ◌⊎◌, Bool, false, List, [], ◌∷◌, Option, none, some, inl, inr,
  ◌==◌, if◌then◌else◌, lt→ltb, ==_refl, ne→==, length, get_elem?, set, length-set,
}
use blocks.Comm.Channel.{Handler, ClientInfo, Bus, Ending, stays_active, put_client}
use blocks.Comm.Channel.Clients.{begun, get_elem?-set, begun-set}

-- For each descriptor on which a connection has begun, its `aux_data`.
abbrev pub Open : Type 0
Open = ℕ → Option ℕ

abbrev pub assign : ℕ → Option ℕ → Open → Open
assign sd v m = λ n. if n == sd then v else m n

-- What a handler promises of its state, and needs for it: a connection begins on a descriptor that
-- is allowed and has none; parts and the end are those of a connection that has begun, with the `aux_data`
-- that it was given.
pub record IsLawful {S : Type 0} (A : ℕ → Type 0) (handler : Handler S) (P : Open → S → Type 0)
    : Type 0 where
  pub begins :
      (m : Open) (s : S) (sd old : ℕ)
      → P m s
      → A sd
      → m sd ≡ none
      → (a : ℕ) × (t : S) × (handler.begin_cb sd old s ≡ some (a, t)) × P (assign sd (some a) m) t
  pub parts :
      (m : Open) (s : S) (sd position a : ℕ) (bytes : List ℕ)
      → P m s
      → m sd ≡ some a
      → (is_negative : Bool) × (a' : ℕ) × (t : S) × (handler.part_cb sd position bytes a s
          ≡ some (is_negative, a', t))
        × P (assign sd (some a') m) t
  pub ends :
      (m : Open) (s : S) (sd a : ℕ)
      → P m s
      → m sd ≡ some a
      → (a' : ℕ) × (t : S) × (handler.end_cb sd a s ≡ some (a', t)) × P (assign sd none m) t

abbrev pub AllFilled : List (List ℕ) → Type 0
AllFilled [] = Unit {0}
AllFilled (bytes ∷ chunks) = (0 < length bytes) × AllFilled chunks

-- What is read from a ready descriptor is not nothing: bytes, or the end of the connection. `recv` returns
-- no empty chunk. `position` is what has been read before.
abbrev pub Prompt : ℕ → List (List ℕ) → Ending → Type 0
Prompt position [] ending = (position ≢ 0) ⊎ (stays_active ending ≡ false)
Prompt position (bytes ∷ chunks) ending = (0 < length bytes) × AllFilled chunks

pub next-Prompt :
    (position : ℕ) (chunks : List (List ℕ)) (ending : Ending)
    → position ≢ 0
    → AllFilled chunks
    → Prompt position chunks ending
next-Prompt position [] ending h f = inl h
next-Prompt position (bytes ∷ chunks) ending h f = f

pub later-Prompt :
    (position : ℕ) (chunks : List (List ℕ)) (ending : Ending)
    → Prompt 0 chunks ending
    → Prompt position chunks ending
later-Prompt position [] ending (inl ne) = absurd (ne refl)
later-Prompt position [] ending (inr e) = inr e
later-Prompt position (bytes ∷ chunks) ending h = h

-- `m` has the connections that have begun: that of `sd`, of which perhaps nothing has been read, and those
-- of which the array says it.
pub record Midway (m : Open) (cs : List ClientInfo) (sd : ℕ) (c : ClientInfo) : Type 0 where
  pub at : get_elem? cs sd ≡ some c
  pub own : m sd ≡ some c.aux_data
  pub others : (n : ℕ) → n ≢ sd → m n ≡ begun cs n
  pub room : sd < length cs

module _ (m : Open) (cs : List ClientInfo) (sd : ℕ) (c c' : ClientInfo) (h : Midway m cs sd c) where
  pub put-Midway : Midway (assign sd (some c'.aux_data) m) (set cs sd c') sd c'
  put-Midway = record {
    at = get_elem?-set cs sd sd c' h.room ∙ rw (==_refl sd);
    own = rw (==_refl sd);
    others = λ n ne.
        rw (ne→== n sd ne) (h.others n ne ∙ sym (begun-set cs sd n c' h.room ∙ rw (ne→== n sd ne)));
    room = rw (length-set cs sd c') h.room;
  }

pub put_client-some :
    (sd : ℕ) (c : ClientInfo) (b : Bus)
    → sd < length b.clients
    → put_client sd c b ≡ some (record b { clients = set b.clients sd c })
unfolding put_client
put_client-some sd c b h = rw (lt→ltb sd (length b.clients) h)

module _ (m : Open) (cs : List ClientInfo) (sd : ℕ) (c : ClientInfo) (next : ℕ)
    (h : Midway m cs sd c) where
  abbrev pub at_next : ClientInfo
  at_next = record { position = next; aux_data = c.aux_data }

  pub position-Midway : Midway m (set cs sd at_next) sd at_next
  position-Midway = record {
    at = get_elem?-set cs sd sd at_next h.room ∙ rw (==_refl sd);
    own = h.own;
    others = λ n ne. h.others n ne ∙ sym (begun-set cs sd n at_next h.room ∙ rw (ne→== n sd ne));
    room = rw (length-set cs sd at_next) h.room;
  }

pub set-begun_others :
    (cs : List ClientInfo) (sd n : ℕ) (c : ClientInfo)
    → sd < length cs
    → n ≢ sd
    → begun (set cs sd c) n ≡ begun cs n
set-begun_others cs sd n c h ne = begun-set cs sd n c h ∙ rw (ne→== n sd ne)
