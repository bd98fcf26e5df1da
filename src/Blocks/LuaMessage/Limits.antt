-- ===== src/Blocks/LuaMessage/Limits.antt =====
-- lua_message.c: the heap of `lua_message_pop`.
use blocks.Prelude.{
  ℕ, suc, false, ltb, ◌+◌, ◌*◌, ◌<◌, ◌≤◌, ◌≡◌, sym, ap, ◌∙◌, List, [], ◌∷◌, ◌++◌, some, inl, inr,
  arith, Option-cases, length, length-append, le→leb, append-nil, append_assoc, subst, ◌^◌,
}
use blocks.Blocks.LuaMessage.{
  LuaValue, int_size, type_of, length_of, data_of, header, code_of, grow, Popped, no_content,
  too_big, overrun, content, pop_values, lua_message_pop, lua_message_push, msg_inc_size,
}
use blocks.Blocks.LuaMessage.Bytes.{le_bytes, length-le_bytes}
use blocks.Blocks.LuaMessage.RoundTrip.{
  AllFit, received_all, value_bytes, values_bytes, length-data_of, lua_message_push-pop,
}

-- Every write was inside the heap, and a content's heap holds its bytes.
abbrev pub InBounds : Popped → Type 0
InBounds no_content = Unit {0}
InBounds too_big = Unit {0}
InBounds overrun = ⊥
InBounds (content bytes size) = length bytes ≤ size

-- The bytes that the values' data take.
unfoldable pub data_size : List LuaValue → ℕ
data_size [] = 0
data_size (v ∷ vs) = length_of v + data_size vs

length-value_bytes : (junk : ℕ → ℕ) (v : LuaValue) → length (value_bytes junk v) ≡ length_of v + 16
length-value_bytes junk v =
    rw
      (
        length-append (header junk (type_of v) (length_of v)) (data_of junk v),
        length-append (le_bytes 4 (code_of (type_of v)))
            (junk 0 ∷ junk 1 ∷ junk 2 ∷ junk 3 ∷ le_bytes 8 (length_of v)),
        length-le_bytes 4 (code_of (type_of v)),
        length-le_bytes 8 (length_of v),
        length-data_of junk v,
      )
      (omega arith)

-- A size below 2 GB is what is allocated.
int_size-small : (n : ℕ) → n < 2 ^ 31 → int_size n ≡ n
unfolding int_size
int_size-small n h = ground arith

grow-some :
    (p size n s : ℕ)
    → p ≤ size
    → size < 2 ^ 25
    → n < 2 ^ 30 + 16
    → grow p size n ≡ some s
    → (p + n ≤ s) × (s < 2 ^ 25)
unfolding grow
grow-some p size n s h small short e =
    let i = int_size-small (size + (msg_inc_size + n)) (omega arith) in
    (ground (arith, i), ground (arith, i))

-- Every value has fewer than 2 ^ 30 bytes.
abbrev AllShort : List LuaValue → Type 0
AllShort [] = Unit {0}
AllShort (v ∷ vs) = (length_of v < 2 ^ 30) × AllShort vs

pop_values-InBounds :
    (junk : ℕ → ℕ) (vs : List LuaValue) (heap : List ℕ) (size : ℕ)
    → length heap ≤ size
    → size < 2 ^ 25
    → AllShort vs
    → InBounds (pop_values junk vs heap size)
unfolding pop_values
pop_values-InBounds junk [] heap size h small short = h
pop_values-InBounds junk (v ∷ vs) heap size h small short =
    elim (Option-cases (grow (length heap) size (length_of v + 16))) [
      | inl none_e ↦
          let p : pop_values junk (v ∷ vs) heap size ≡ too_big = rw (none_e, pop_values) in
          subst InBounds (sym p) tt
      | inr (s, some_e) ↦
          let (g, small') =
            grow-some (length heap) size (length_of v + 16) s h small (omega (arith, short.0))
              some_e in
          let fits = le→leb (length heap + (length_of v + 16)) s g in
          let p : pop_values junk (v ∷ vs) heap size
              ≡ pop_values junk vs (heap ++ value_bytes junk v) s =
            rw (some_e, fits, pop_values) in
          let l : length (heap ++ value_bytes junk v) ≤ s =
            rw (length-append heap (value_bytes junk v), length-value_bytes junk v) g in
          subst InBounds (sym p)
            (pop_values-InBounds junk vs (heap ++ value_bytes junk v) s l small' short.1)
    ]

-- The start of the loop, for fewer than 2 ^ 20 values.
lua_message_pop-start :
    (junk : ℕ → ℕ) (v : LuaValue) (vs : List LuaValue)
    → length (v ∷ vs) < 2 ^ 20
    → lua_message_pop junk (v ∷ vs)
      ≡ pop_values junk
          (v ∷ vs)
          (le_bytes 4 (suc (length vs)))
          (4 + 16 * suc (length vs) + msg_inc_size)
unfolding lua_message_pop
lua_message_pop-start junk v vs few =
    let e = int_size-small (4 + 16 * suc (length vs) + msg_inc_size) (omega arith) in
    let enough : ltb (4 + 16 * suc (length vs) + msg_inc_size) 4 ≡ false = ground arith in
    rw (e, enough)

-- For a stack of fewer than 2 ^ 20 values, each of fewer than 2 ^ 30 bytes, `lua_message_pop` writes inside the
-- heap only, also after the heap has grown, and a content's heap holds all its bytes.
pub lua_message_pop-InBounds :
    (junk : ℕ → ℕ) (vs : List LuaValue)
    → length vs < 2 ^ 20
    → AllShort vs
    → InBounds (lua_message_pop junk vs)
lua_message_pop-InBounds junk [] few short = unfold lua_message_pop in tt
lua_message_pop-InBounds junk (v ∷ vs) few short =
    subst InBounds (sym (lua_message_pop-start junk v vs few)) (
      pop_values-InBounds junk (v ∷ vs) (le_bytes 4 (suc (length vs)))
        (4 + 16 * suc (length vs) + msg_inc_size)
        (rw (length-le_bytes 4 (suc (length vs))) (omega arith)) (omega arith) short)

grow-keeps : (p size n : ℕ) → p + n < size → grow p size n ≡ some size
unfolding grow
grow-keeps p size n h = ground arith

pop_values-keeps :
    (junk : ℕ → ℕ) (vs : List LuaValue) (heap : List ℕ) (size : ℕ)
    → length heap + data_size vs + 16 * length vs < size
    → pop_values junk vs heap size ≡ content (heap ++ values_bytes junk vs) size
unfolding pop_values data_size values_bytes
pop_values-keeps junk [] heap size h = rw (append-nil heap)
pop_values-keeps junk (v ∷ vs) heap size h =
    let keeps = grow-keeps (length heap) size (length_of v + 16) (omega arith) in
    let fits = le→leb (length heap + (length_of v + 16)) size (omega arith) in
    let l : length (heap ++ value_bytes junk v) + data_size vs + 16 * length vs < size =
      rw (length-append heap (value_bytes junk v), length-value_bytes junk v) (omega arith) in
    let p : pop_values junk (v ∷ vs) heap size
        ≡ pop_values junk vs (heap ++ value_bytes junk v) size =
      rw (keeps, fits, pop_values) in
    p
    ∙ pop_values-keeps junk vs (heap ++ value_bytes junk v) size l
    ∙ ap (λ bs. content bs size) (append_assoc heap (value_bytes junk v) (values_bytes junk vs))

-- A message of at least one value, of fewer than 2 ^ 20 values that fit, and of fewer than 256 bytes of
-- data is taken, and its receiver gets one value for each that was sent, as `received_all` says.
pub lua_message_push-small :
    (junk : ℕ → ℕ) (v : LuaValue) (vs : List LuaValue) (heap : ℕ)
    → AllFit (v ∷ vs)
    → length (v ∷ vs) < 2 ^ 20
    → data_size (v ∷ vs) < 256
    → (bytes : List ℕ) × (size : ℕ) × (lua_message_pop junk (v ∷ vs) ≡ content bytes size)
      × (lua_message_push heap bytes ≡ some (received_all heap 4 (v ∷ vs)))
lua_message_push-small junk v vs heap f l d =
    let argc = suc (length vs) in
    let bytes = le_bytes 4 argc ++ values_bytes junk (v ∷ vs) in
    let size = 4 + 16 * argc + msg_inc_size in
    let p : lua_message_pop junk (v ∷ vs) ≡ content bytes size =
      lua_message_pop-start junk v vs l
      ∙ pop_values-keeps junk (v ∷ vs) (le_bytes 4 argc) size
          (rw (length-le_bytes 4 argc) (omega arith)) in
    (bytes, size, p, lua_message_push-pop junk (v ∷ vs) bytes size heap f (omega arith) p)
