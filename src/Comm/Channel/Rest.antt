-- ===== src/Comm/Channel/Rest.antt =====
-- channel.c: the last loop of `mb_channel_receive`, which closes what is left.
use blocks.Prelude.{
  ℕ, zero, suc, ◌+◌, ◌<◌, ◌≤◌, ◌≡◌, sym, ap, ◌∙◌, ◌≢◌, Bool, true, false, not, ◌&&◌, List, [], ◌∷◌,
  inl, inr, arith, ltb, ◌==◌, if◌then◌else◌, Bool-cases, ==_refl, ne→==,
}
use blocks.Comm.Channel.{mark, Bus, close_rest}

-- One descriptor of the last loop.
abbrev close_one : ℕ → Bus → Bus
close_one sd b =
    let open_here = not (sd == b.channel_sd) && b.master_set sd in
    if open_here
    then record b { master_set = mark false sd b.master_set; closed = sd ∷ b.closed }
    else b

close_one-channel : (sd : ℕ) (b : Bus) → (close_one sd b).channel_sd ≡ b.channel_sd
close_one-channel sd b = elim (Bool-cases (not (sd == b.channel_sd) && b.master_set sd)) [
  | inl e ↦ rw e
  | inr e ↦ rw e
]

close_one-set :
    (sd n : ℕ) (b : Bus)
    → (close_one sd b).master_set n
      ≡ (if (n == sd) && not (sd == b.channel_sd) then false else b.master_set n)
unfolding mark
close_one-set sd n b = elim (Bool-cases (not (sd == b.channel_sd) && b.master_set sd)) [
  | inl e ↦ rw e (ground (arith, e))
  | inr e ↦ rw e (ground (arith, e))
]

close_one-done :
    (sd n k : ℕ) (b : Bus)
    → b.channel_sd ≡ k
    → b.master_set k ≡ true
    → ((n ≡ sd → ⊥) → b.master_set n ≡ (n == k))
    → (close_one sd b).master_set n ≡ (n == k)
close_one-done sd n k b e listening h = elim (Bool-cases (n == sd)) [
  | inl same ↦
      let q : n ≡ sd = ground arith in
      elim (Bool-cases (n == k)) [
        | inl channel ↦
            let q' : n ≡ k = ground arith in
            close_one-set sd n b ∙ rw (e, sym q, q', ==_refl k) listening
        | inr other ↦ close_one-set sd n b ∙ rw (e, sym q, ==_refl n, other)
      ]
  | inr other ↦ close_one-set sd n b ∙ rw other (h (ground arith))
]

pub closes :
    (rounds sd k : ℕ) (b : Bus)
    → b.channel_sd ≡ k
    → b.master_set k ≡ true
    → ((n : ℕ) → n < sd → b.master_set n ≡ (n == k))
    → ((n : ℕ) → sd + rounds ≤ n → b.master_set n ≡ (n == k))
    → (n : ℕ) → (close_rest rounds sd b).master_set n ≡ (n == k)
unfolding close_rest
closes zero sd k b e listening before after n = elim (Bool-cases (ltb n sd)) [
  | inl l ↦ before n (ground arith)
  | inr l ↦ after n (ground arith)
]
closes (suc rounds) sd k b e listening before after n =
    closes rounds (suc sd) k (close_one sd b) (close_one-channel sd b ∙ e)
      (close_one-done sd k k b e listening (λ ne. listening ∙ sym (==_refl k)) ∙ ==_refl k)
      (λ n l. close_one-done sd n k b e listening (λ ne. before n (omega (arith, l, ne))))
      (λ n l. close_one-done sd n k b e listening (λ ne. after n (omega (arith, l)))) n

unfoldable pub is_listed : ℕ → List ℕ → Bool
is_listed n [] = false
is_listed n (other ∷ sds) = if other == n then true else is_listed n sds

close_one-listed :
    (sd n : ℕ) (b : Bus) → is_listed n b.closed ≡ true → is_listed n (close_one sd b).closed ≡ true
unfolding is_listed
close_one-listed sd n b h = elim (Bool-cases (not (sd == b.channel_sd) && b.master_set sd)) [
  | inl e ↦ rw e (elim (Bool-cases (sd == n)) [ inl same ↦ rw same | inr other ↦ rw other h ])
  | inr e ↦ rw e h
]

close_rest-listed :
    (rounds sd n : ℕ) (b : Bus)
    → is_listed n b.closed ≡ true
    → is_listed n (close_rest rounds sd b).closed ≡ true
unfolding close_rest
close_rest-listed zero sd n b h = h
close_rest-listed (suc rounds) sd n b h =
    close_rest-listed rounds (suc sd) n (close_one sd b) (close_one-listed sd n b h)

close_one-here :
    (n : ℕ) (b : Bus)
    → b.master_set n ≡ true
    → n ≢ b.channel_sd
    → is_listed n (close_one n b).closed ≡ true
unfolding is_listed
close_one-here n b h ne = rw (ne→== n b.channel_sd ne, h, ==_refl n)

pub closes_open :
    (rounds sd n : ℕ) (b : Bus)
    → sd ≤ n
    → n < sd + rounds
    → b.master_set n ≡ true
    → n ≢ b.channel_sd
    → is_listed n (close_rest rounds sd b).closed ≡ true
unfolding close_rest
closes_open zero sd n b l r h ne = absurd (omega arith)
closes_open (suc rounds) sd n b l r h ne = elim (Bool-cases (n == sd)) [
  | inl same ↦
      let q : n ≡ sd = ground arith in
      let here = close_one-here n b h ne in
      close_rest-listed rounds (suc sd) n (close_one sd b)
        (ap (λ (m : ℕ). is_listed n (close_one m b).closed) (sym q) ∙ here)
  | inr other ↦
      let out : n ≢ sd = ground arith in
      closes_open rounds (suc sd) n (close_one sd b) (omega (arith, l, out)) (omega (arith, r))
        (close_one-set sd n b ∙ rw other h) (λ e. ne (e ∙ close_one-channel sd b))
]
