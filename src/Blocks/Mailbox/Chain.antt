-- ===== src/Blocks/Mailbox/Chain.antt =====
-- The `next` pointers of `struct message` in src/blocks/mailbox.c, as a list.
use blocks.Prelude.{
  ◌≡◌, refl, sym, ap, subst, ◌∙◌, ◌≢◌, Bool, true, false, ◌||◌, List, [], ◌∷◌, ◌++◌, Option, none,
  some, arith, ◌==◌, ==_refl, ne→==,
}
use blocks.Blocks.Store.{Ptr, null, Message, update}

abbrev pub has : Ptr → List Ptr → Bool
has a [] = false
has a (p ∷ ps) = (a == p) || has a ps

abbrev pub Messages : Type 0
Messages = Ptr → Option Message

-- From `p` the `next` pointers lead through the distinct messages `ps` to NULL.
pub data Chain (h : Messages) : Ptr → List Ptr → Type 0 where
  nil : Chain h null []
  cons :
      {p : Ptr} {ps : List Ptr} (m : Message)
      → p ≢ null
      → h p ≡ some m
      → has p ps ≡ false
      → Chain h m.next ps
      → Chain h p (p ∷ ps)

abbrev pub last_of : Ptr → List Ptr → Ptr
last_of p [] = p
last_of p (q ∷ ps) = last_of q ps

-- `end` is the last message, and is not read while there is none.
abbrev pub EndsAt : Ptr → List Ptr → Type 0
EndsAt e [] = Unit {0}
EndsAt e (p ∷ ps) = e ≡ last_of p ps

-- A chain survives any change that spares its own messages.
pub frame :
    {h g : Messages} {p : Ptr} {ps : List Ptr}
    → Chain h p ps
    → ((a : Ptr) → has a ps ≡ true → g a ≡ h a)
    → Chain g p ps
frame nil same = nil
frame (cons {p} m ne e out c) same =
    cons m ne (same p (ground arith) ∙ e) out (frame c λ a i. same a (ground arith))

pub has-last_of : (p : Ptr) (ps : List Ptr) → has (last_of p ps) (p ∷ ps) ≡ true
has-last_of p [] = ground arith
has-last_of p (q ∷ ps) = ground (arith, has-last_of q ps)

pub has-append : (a : Ptr) (ps qs : List Ptr) → has a (ps ++ qs) ≡ (has a ps || has a qs)
has-append a [] qs = refl
has-append a (p ∷ ps) qs = ground (arith, has-append a ps qs)

-- What a write behind the last message of the chain `ps` from `p` changes.
pub record Linked (h g : Messages) (fresh : Ptr) (p : Ptr) (ps : List Ptr) : Type 0 where
  pub same : (a : Ptr) → has a ps ≡ true → a ≢ last_of p ps → g a ≡ h a
  pub linked :
      (m : Message)
      → h (last_of p ps) ≡ some m
      → g (last_of p ps) ≡ some (record m { next = fresh })

pub ne-last_of : {p : Ptr} (q : Ptr) (ps : List Ptr) → has p (q ∷ ps) ≡ false → p ≢ last_of q ps
ne-last_of q ps out e = cc (sym out ∙ ap (λ a. has a (q ∷ ps)) e ∙ has-last_of q ps)

module _ {g : Messages} (fresh : Ptr) (fresh_ne : fresh ≢ null) (new : Message)
    (at : g fresh ≡ some new) (next : new.next ≡ null) where
  single : Chain g fresh (fresh ∷ [])
  single = cons new fresh_ne at refl (subst (λ q. Chain g q []) (sym next) nil)

  pub Chain-snoc :
      {h : Messages} {p : Ptr} {ps : List Ptr}
      → Chain h p ps
      → p ≢ null
      → has fresh ps ≡ false
      → Linked h g fresh p ps
      → Chain g p (ps ++ fresh ∷ [])
  Chain-snoc nil ne out' l = absurd (ne refl)
  Chain-snoc (cons {p} m ne e out nil) ne' out' l =
      cons (record m { next = fresh }) ne (l.linked m e) (ground arith) single
  Chain-snoc (cons {p} m ne e out (cons {ps} m' ne' e' out2 c)) _ out' l =
      cons m ne (l.same p (ground arith) (ne-last_of m.next ps out) ∙ e)
        (ground (arith, has-append p (m.next ∷ ps) (fresh ∷ [])))
        (Chain-snoc (cons m' ne' e' out2 c) ne' (ground arith)
          (record { same = λ a i. l.same a (ground arith); linked = l.linked }))

pub last_of-snoc : (p fresh : Ptr) (ps : List Ptr) → last_of p (ps ++ fresh ∷ []) ≡ fresh
last_of-snoc p fresh [] = refl
last_of-snoc p fresh (q ∷ ps) = last_of-snoc q fresh ps

pub head_of_nil : {h : Messages} {p : Ptr} → Chain h p [] → p ≡ null
head_of_nil nil = refl

pub head-ne_null : {h : Messages} {p q : Ptr} {ps : List Ptr} → Chain h p (q ∷ ps) → p ≢ null
head-ne_null (cons m ne e out c) = ne

-- An address that is not allocated is in no chain.
pub has_of_none :
    {h : Messages} {p : Ptr} {ps : List Ptr} (a : Ptr)
    → Chain h p ps
    → h a ≡ none
    → has a ps ≡ false
has_of_none a nil e = refl
has_of_none a (cons m ne e' out c) e = ground (arith, has_of_none a c e)

pub ne_of_has : {a b : Ptr} (ps : List Ptr) → has a ps ≡ true → has b ps ≡ false → a ≢ b
ne_of_has ps i o e = cc (sym i ∙ ap (λ x. has x ps) e ∙ o)

-- Its last message is allocated.
pub Chain-last :
    {h : Messages} {p : Ptr} {ps : List Ptr}
    → Chain h p ps
    → p ≢ null
    → (m : Message) × (h (last_of p ps) ≡ some m) × (last_of p ps ≢ null)
Chain-last nil ne = absurd (ne refl)
Chain-last (cons m ne e out nil) _ = (m, e, ne)
Chain-last (cons m ne e out (cons m' ne' e' out' c)) _ = Chain-last (cons m' ne' e' out' c) ne'

pub update_self {ℓ} : {A : Type ℓ} (f : Ptr → A) (p : Ptr) (v : A) → update f p v p ≡ v
unfolding update
update_self f p v = rw (==_refl p)

pub update_other {ℓ} : {A : Type ℓ} (f : Ptr → A) (p q : Ptr) (v : A) → q ≢ p → update f p v q ≡ f q
unfolding update
update_other f p q v ne = rw (ne→== q p ne)

pub Chain-uncons :
    {h : Messages} {head p : Ptr} {ps : List Ptr}
    → Chain h head (p ∷ ps)
    → (m : Message) × (head ≡ p) × (p ≢ null) × (h p ≡ some m) × Chain h m.next ps
Chain-uncons (cons m ne e out c) = (m, refl, ne, e, c)

pub EndsAt-tail : (e p : Ptr) (ps : List Ptr) → EndsAt e (p ∷ ps) → EndsAt e ps
EndsAt-tail e p [] h = tt
EndsAt-tail e p (q ∷ ps) h = h
