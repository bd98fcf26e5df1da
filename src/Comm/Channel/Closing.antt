-- ===== src/Comm/Channel/Closing.antt =====
-- channel.c: a connection is closed, or stays.
use blocks.Prelude.{
  ◌⊎◌, ℕ, ◌<◌, ◌≤◌, ◌≡◌, sym, ap, ◌∙◌, ◌≢◌, subst, Bool, true, false, List, ◌∷◌, none, some, inl,
  inr, arith, leb, ◌==◌, Bool-cases, ==_refl, ne→==, length,
}
use blocks.Comm.Channel.{ClientInfo, FdSet, mark, Bus, close_client}
use blocks.Comm.Channel.Clients.{begun}
use blocks.Comm.Channel.Invariant.{Within, IsSound, le_of_set, lower_max_lem}

-- A bus with another array.
abbrev pub with_clients : List ClientInfo → ℕ → Bus → Bus
with_clients cs k b = record b { clients = cs; clients_length = k }

-- The bus behind `close_client`.
abbrev pub closed_bus : ℕ → ℕ → Bus → Bus
closed_bus sd max_sd b = record b {
  master_set = mark false sd b.master_set;
  max_sd = max_sd;
  closed = sd ∷ b.closed;
}

pub mark-other : (present : Bool) (sd n : ℕ) (fds : FdSet) → n ≢ sd → mark present sd fds n ≡ fds n
unfolding mark
mark-other present sd n fds ne = rw (ne→== n sd ne)

pub mark-same : (present : Bool) (sd : ℕ) (fds : FdSet) → mark present sd fds sd ≡ present
unfolding mark
mark-same present sd fds = rw (==_refl sd)

pub mark-cases :
    (present : Bool) (sd n : ℕ) (fds : FdSet)
    → mark present sd fds n ≡ true
    → ((n ≡ sd) × (present ≡ true)) ⊎ (fds n ≡ true)
mark-cases present sd n fds h = elim (Bool-cases (n == sd)) [
  | inl same ↦
      let q : n ≡ sd = ground arith in
      inl (q, sym (mark-same present sd fds) ∙ ap (mark present sd fds) (sym q) ∙ h)
  | inr away ↦ inr (sym (mark-other present sd n fds (ground arith)) ∙ h)
]

module _ {A : ℕ → Type 0} (b : Bus) (sd : ℕ) (s : IsSound A b) (present : b.master_set sd ≡ true)
    (client : sd ≢ b.channel_sd) where
  -- Where the connection stays.
  pub active-IsSound :
      (cs : List ClientInfo) (k : ℕ)
      → length cs ≡ k
      → ((n : ℕ) → n ≢ sd → begun cs n ≡ begun b.clients n)
      → Within sd b.max_client
      → IsSound A (with_clients cs k b)
  active-IsSound cs k e others w = record {
    listening = s.listening;
    small = s.small;
    above = s.above;
    array = e;
    in_set = λ n a h. elim (Bool-cases (n == sd)) [
      | inl same ↦ let e : n ≡ sd = ground arith in ap b.master_set e ∙ present
      | inr other ↦ s.in_set n a (sym (others n (ground arith)) ∙ h)
    ];
    within = λ n a h. elim (Bool-cases (n == sd)) [
      | inl same ↦ let e : sd ≡ n = ground arith in subst (λ (x : ℕ). Within x b.max_client) e w
      | inr other ↦ s.within n a (sym (others n (ground arith)) ∙ h)
    ];
    allowed = s.allowed;
    not_listening = others b.channel_sd (λ e. client (sym e)) ∙ s.not_listening;
  }

  pub close_client-some :
      (cs : List ClientInfo) (k : ℕ)
      → (max_sd : ℕ) × (close_client sd (with_clients cs k b)
          ≡ some (closed_bus sd max_sd (with_clients cs k b)))
        × (max_sd ≤ b.max_sd)
        × ((n : ℕ) → max_sd < n → mark false sd b.master_set n ≡ false)
  unfolding close_client
  close_client-some cs k =
      let fds = mark false sd b.master_set in
      elim (Bool-cases (sd == b.max_sd)) [
        | inl top ↦
            let kept =
              mark-other false sd b.channel_sd b.master_set (λ e. client (sym e)) ∙ s.listening in
            let (max_sd, found, le, above) =
              lower_max_lem fds b.channel_sd b.max_sd kept
                (le_of_set b b.channel_sd s s.listening) in
            (
              max_sd,
              rw (top, found),
              le,
              λ n h. elim (Bool-cases (leb n b.max_sd)) [
                | inl inside ↦ above n h (ground arith)
                | inr outside ↦
                    mark-other false sd n b.master_set (ground arith) ∙ s.above n (ground arith)
              ],
            )
        | inr lower ↦ (
          b.max_sd,
          rw lower,
          omega arith,
          λ n h.
              let le = le_of_set b sd s present in
              mark-other false sd n b.master_set (omega arith) ∙ s.above n h,
        )
      ]

  pub closed-IsSound :
      (cs : List ClientInfo) (k max_sd : ℕ)
      → length cs ≡ k
      → ((n : ℕ) → n ≢ sd → begun cs n ≡ begun b.clients n)
      → begun cs sd ≡ none
      → max_sd ≤ b.max_sd
      → ((n : ℕ) → max_sd < n → mark false sd b.master_set n ≡ false)
      → IsSound A (closed_bus sd max_sd (with_clients cs k b))
  closed-IsSound cs k max_sd e others ended le above =
      let old : (n a : ℕ) → begun cs n ≡ some a → (n ≢ sd) × (begun b.clients n ≡ some a) =
        λ n a h. let ne : n ≢ sd = λ e. cc in (ne, sym (others n ne) ∙ h) in
      record {
        listening =
            mark-other false sd b.channel_sd b.master_set (λ e. client (sym e)) ∙ s.listening;
        small = omega (arith, s.small);
        above = above;
        array = e;
        in_set = λ n a h.
            let (ne, h') = old n a h in mark-other false sd n b.master_set ne ∙ s.in_set n a h';
        within = λ n a h. let (ne, h') = old n a h in s.within n a h';
        allowed = λ n ne h. elim (mark-cases false sd n b.master_set h) [
          | inl (q, f) ↦ absurd cc
          | inr kept ↦ s.allowed n ne kept
        ];
        not_listening = others b.channel_sd (λ e. client (sym e)) ∙ s.not_listening;
      }
