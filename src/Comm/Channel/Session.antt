-- ===== src/Comm/Channel/Session.antt =====
-- channel.c: the calls of the three callbacks in their order, as a step relation on the open connections.
use blocks.Prelude.{ℕ, ◌≡◌, Bool, List, [], ◌∷◌, none, some}
use blocks.Comm.Channel.{Handler}
use blocks.Comm.Channel.Lawful.{Open, assign}

-- A call of a callback: the descriptor, what `aux_data` has before and after it, and for a part of a message
-- its position, its bytes and whether the result is negative.
pub data Call : Type 0 where
  began ended : ℕ → ℕ → ℕ → Call
  part : ℕ → ℕ → List ℕ → ℕ → Bool → ℕ → Call

-- The calls that are allowed, the last one first, with the connections that are open behind them.
pub data Session : Open → List Call → Type 0 where
  nothing : Session (λ _. none) []
  begins :
      {m : Open} {calls : List Call} (sd old aux_data : ℕ)
      → m sd ≡ none
      → Session m calls
      → Session (assign sd (some aux_data) m) (began sd old aux_data ∷ calls)
  parts :
      {m : Open} {calls : List Call} (sd position old aux_data : ℕ) (bytes : List ℕ)
      (is_negative : Bool)
      → m sd ≡ some old
      → Session m calls
      → Session
          (assign sd (some aux_data) m)
          (part sd position bytes old is_negative aux_data ∷ calls)
  ends :
      {m : Open} {calls : List Call} (sd old aux_data : ℕ)
      → m sd ≡ some old
      → Session m calls
      → Session (assign sd none m) (ended sd old aux_data ∷ calls)

-- What the callbacks do, which may depend on all the calls before.
pub record Answers : Type 0 where
  pub begin_answer : List Call → ℕ → ℕ → ℕ
  pub part_answer : List Call → ℕ → ℕ → List ℕ → ℕ → Bool × ℕ
  pub end_answer : List Call → ℕ → ℕ → ℕ

abbrev pub recording : Answers → Handler (List Call)
recording r = record {
  begin_cb =
      λ sd old calls. let a = r.begin_answer calls sd old in some (a, began sd old a ∷ calls);
  part_cb = λ sd position bytes old calls.
      let (is_negative, a) = r.part_answer calls sd position bytes old in
      some (is_negative, a, part sd position bytes old is_negative a ∷ calls);
  end_cb = λ sd old calls. let a = r.end_answer calls sd old in some (a, ended sd old a ∷ calls);
}
