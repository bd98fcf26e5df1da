-- ===== src/Comm/Channel/Invariant.antt =====
-- channel.c: what holds of the variables of `mb_channel_receive` between the rounds of its loops.
use blocks.Prelude.{
  ℕ, zero, suc, ◌+◌, ◌-◌, ◌<◌, ◌≤◌, ◌≡◌, refl, sym, ap, ◌∙◌, ◌≢◌, true, false, ◌++◌, none, some,
  inl, inr, arith, ltb, leb, ◌==◌, Bool-cases, Option-cases, ◌>>=◌, ltb→lt, length, replicate,
  length-replicate, length-append, subst,
}
use blocks.Prelude.Int.{ℤ, pos, negsuc}
use blocks.Comm.Channel.{
  ClientInfo, blank, FdSet, fd_setsize, Bus, fit, realloc_clients, zero_clients, resize, raise,
  lower_max, clients_step,
}
use blocks.Comm.Channel.Clients.{
  begun, begun-none, begun-fit, length-fit, zero_clients-fit, begun-append,
}

-- `n <= max_client`
abbrev pub Within : ℕ → ℤ → Type 0
Within n (pos m) = n ≤ m
Within n (negsuc m) = ⊥

-- The listening socket is in the set, the set has nothing above `max_sd`, the array has the length that is
-- noted, and each connection of which something has been read is in the set, at most `max_client`, and not
-- the listening socket. Every other descriptor in the set is allowed: `A` holds of it.
pub record IsSound (A : ℕ → Type 0) (b : Bus) : Type 0 where
  pub listening : b.master_set b.channel_sd ≡ true
  pub small : b.max_sd < fd_setsize
  pub above : (n : ℕ) → b.max_sd < n → b.master_set n ≡ false
  pub array : length b.clients ≡ b.clients_length
  pub in_set : (n a : ℕ) → begun b.clients n ≡ some a → b.master_set n ≡ true
  pub within : (n a : ℕ) → begun b.clients n ≡ some a → Within n b.max_client
  pub allowed : (n : ℕ) → n ≢ b.channel_sd → b.master_set n ≡ true → A n
  pub not_listening : begun b.clients b.channel_sd ≡ none

pub le_of_set :
    {A : ℕ → Type 0} (b : Bus) (n : ℕ) → IsSound A b → b.master_set n ≡ true → n ≤ b.max_sd
le_of_set b n s h = elim (Bool-cases (ltb b.max_sd n)) [
  | inl e ↦ cc (s.above n (ltb→lt b.max_sd n e))
  | inr e ↦ ground arith
]

pub raise_bounds :
    (m : ℤ) (sd max_sd : ℕ) → sd ≤ max_sd → (sd ≤ raise m sd max_sd) × (raise m sd max_sd ≤ max_sd)
unfolding raise
raise_bounds (pos m) sd max_sd h = ground arith
raise_bounds (negsuc m) sd max_sd h = ground arith

pub raise-Within : (m : ℤ) (sd max_sd n : ℕ) → Within n m → n ≤ max_sd → n ≤ raise m sd max_sd
unfolding raise
raise-Within (pos m) sd max_sd n w h = ground arith
raise-Within (negsuc m) sd max_sd n w h = absurd w

-- The array is resized so that it has the client's record, and no connection of which something has been
-- read loses its own.
pub record Resized (b b' : Bus) (max_client : ℕ) : Type 0 where
  pub array : length b'.clients ≡ b'.clients_length
  pub room : max_client < b'.clients_length
  pub same : (n : ℕ) → begun b'.clients n ≡ begun b.clients n
  pub rest : b' ≡ record b { clients = b'.clients; clients_length = b'.clients_length }

resize_grows :
    (junk : ClientInfo) (b : Bus) (k : ℕ)
    → length b.clients ≡ b.clients_length
    → (zero_clients b.clients_length k (realloc_clients true junk b.clients (b.clients_length + k))
        >>= λ cs. some (record b { clients = cs; clients_length = b.clients_length + k }))
      ≡ some (record b {
        clients = b.clients ++ replicate k blank;
        clients_length = b.clients_length + k;
      })
unfolding realloc_clients
resize_grows junk b k e = rw (zero_clients-fit junk b.clients b.clients_length k e)

begun_shrinks :
    {A : ℕ → Type 0} (junk : ClientInfo) (m : ℕ) (b : Bus) (n : ℕ)
    → IsSound A b
    → b.max_client ≡ pos m
    → m < length b.clients
    → begun (fit junk b.clients (m + 1)) n ≡ begun b.clients n
begun_shrinks junk m b n s e h = elim (Bool-cases (leb n m)) [
  | inl kept ↦ begun-fit junk b.clients (m + 1) n (ground arith) (ground arith)
  | inr cut ↦
      let gone =
        begun-none (fit junk b.clients (m + 1)) n
          (ground (arith, length-fit junk b.clients (m + 1))) in
      elim (Option-cases (begun b.clients n)) [
        | inl none_e ↦ gone ∙ sym none_e
        | inr (a, some_e) ↦
            let w : n ≤ m = subst (Within n) e (s.within n a some_e) in absurd (ground arith)
      ]
]

pub resize-Resized :
    {A : ℕ → Type 0} (junk : ClientInfo) (m : ℕ) (b : Bus)
    → IsSound A b
    → b.max_client ≡ pos m
    → (b' : Bus) × (resize true junk m b ≡ some b') × Resized b b' m
unfolding resize
resize-Resized junk m b s e = elim (Bool-cases (leb b.clients_length m)) [
  | inl grows ↦
      let k = m - b.clients_length + clients_step in
      let cs = b.clients ++ replicate k blank in
      (
        record b { clients = cs; clients_length = b.clients_length + k },
        rw grows (resize_grows junk b k s.array),
        record {
          array = omega (
            arith,
            s.array,
            length-append b.clients (replicate k blank),
            length-replicate k blank,
          );
          room = omega arith;
          same = λ n. begun-append b.clients k n;
          rest = refl;
        },
      )
  | inr fits ↦ elim (Bool-cases (ltb m (b.clients_length - clients_step))) [
    | inl shrinks ↦ (
      record b { clients = fit junk b.clients (m + 1); clients_length = m + 1 },
      rw (fits, shrinks) (unfold realloc_clients in refl),
      record {
        array = length-fit junk b.clients (m + 1);
        room = omega arith;
        same = λ n. begun_shrinks junk m b n s e (ground (arith, s.array));
        rest = refl;
      },
    )
    | inr stays ↦ (
      b,
      rw (fits, stays),
      record { array = s.array; room = ground arith; same = λ n. refl; rest = refl },
    )
  ]
]

-- The search for a lower `max_sd` ends at the highest member.
pub lower_max_lem :
    (fds : FdSet) (k n : ℕ)
    → fds k ≡ true
    → k ≤ n
    → (m : ℕ) × (lower_max fds n ≡ some m) × (m ≤ n) × ((j : ℕ) → m < j → j ≤ n → fds j ≡ false)
unfolding lower_max
lower_max_lem fds k zero h l =
    let e : k ≡ 0 = omega arith in
    (zero, rw (ap fds (sym e) ∙ h), omega arith, λ j a b. absurd (omega arith))
lower_max_lem fds k (suc n) h l = elim (Bool-cases (fds (suc n))) [
  | inl here ↦ (suc n, rw here, omega arith, λ j a b. absurd (omega arith))
  | inr gone ↦
      let ne : k ≢ suc n = λ e. cc (sym (ap fds e) ∙ h) in
      let (m, found, le, above) = lower_max_lem fds k n h (omega arith) in
      (
        m,
        rw (gone, found),
        omega arith,
        λ j a b. elim (Bool-cases (j == suc n)) [
          | inl e ↦ let e' : j ≡ suc n = ground arith in ap fds e' ∙ gone
          | inr e ↦ above j a (ground arith)
        ],
      )
]
