-- ===== src/Blocks/LuaMessage/RoundTrip.antt =====
-- What the receiver of a message finds on its stack.
use blocks.Prelude.{
  Bool, ltb, if◌then◌else◌, ℕ, zero, suc, ◌+◌, ◌*◌, ◌^◌, ◌<◌, ◌≡◌, refl, sym, ap, ◌∙◌, true, false,
  List, [], ◌∷◌, ◌++◌, some, inl, inr, arith, leb, Bool-cases, Option-cases, ◌>>=◌, length,
  append_assoc, append-nil,
}
use blocks.Blocks.LuaMessage.{
  int_size, Popped, LuaValue, boolean, string, number, function, nil, table, lightuserdata,
  userdata, thread, MsgType, code_of, type_of, length_of, data_of, junk_bytes, header, grow,
  no_content, too_big, overrun, content, pop_values, lua_message_pop, push_value, push_values,
  lua_message_push, msg_inc_size,
}
use blocks.Blocks.LuaMessage.Bytes.{
  le_bytes, length-le_bytes, split_bytes-append, number_of-le_bytes_4, number_of-le_bytes_8,
}

-- A value as it arrives: tables, functions and threads as nil, and any userdata as the address `at` of
-- its bytes in the message's heap.
unfoldable pub received : ℕ → LuaValue → LuaValue
received at (boolean b) = boolean b
received at (string bs) = string bs
received at (number n) = number n
received at function = nil
received at nil = nil
received at (table n) = nil
received at (lightuserdata p) = lightuserdata at
received at (userdata p) = lightuserdata at
received at thread = nil

-- The values of a message whose heap is at `heap`, from its byte `position` on.
unfoldable pub received_all : ℕ → ℕ → List LuaValue → List LuaValue
unfolding received
received_all heap position [] = []
received_all heap position (v ∷ vs) =
    received (heap + position + 16) v ∷ received_all heap (position + 16 + length_of v) vs

-- Numbers are 64-bit patterns, and lengths fit a `size_t`.
abbrev pub Fits : LuaValue → Type 0
Fits (boolean b) = Unit {0}
Fits (string bs) = length bs < 2 ^ 64
Fits (number n) = n < 2 ^ 64
Fits function = Unit {0}
Fits nil = Unit {0}
Fits (table n) = n < 2 ^ 64
Fits (lightuserdata p) = Unit {0}
Fits (userdata p) = Unit {0}
Fits thread = Unit {0}

abbrev pub AllFit : List LuaValue → Type 0
AllFit [] = Unit {0}
AllFit (v ∷ vs) = Fits v × AllFit vs

length-junk_bytes : (junk : ℕ → ℕ) (n : ℕ) → length (junk_bytes junk n) ≡ n
unfolding junk_bytes
length-junk_bytes junk zero = refl
length-junk_bytes junk (suc n) = ap suc (length-junk_bytes junk n)

pub length-data_of : (junk : ℕ → ℕ) (v : LuaValue) → length (data_of junk v) ≡ length_of v
unfolding data_of length_of
length-data_of junk (boolean b) = refl
length-data_of junk (string bs) = refl
length-data_of junk (number n) = length-le_bytes 8 n
length-data_of junk function = refl
length-data_of junk nil = refl
length-data_of junk (table n) = length-junk_bytes junk n
length-data_of junk (lightuserdata p) = length-le_bytes 8 p
length-data_of junk (userdata p) = length-le_bytes 8 p
length-data_of junk thread = refl

length_of-lt : (v : LuaValue) → Fits v → length_of v < 2 ^ 64
unfolding length_of
length_of-lt (boolean b) f = omega arith
length_of-lt (string bs) f = f
length_of-lt (number n) f = omega arith
length_of-lt function f = omega arith
length_of-lt nil f = omega arith
length_of-lt (table n) f = f
length_of-lt (lightuserdata p) f = omega arith
length_of-lt (userdata p) f = omega arith
length_of-lt thread f = omega arith

push_value-type_of :
    (junk : ℕ → ℕ) (at : ℕ) (v : LuaValue)
    → Fits v
    → push_value (code_of (type_of v)) at (data_of junk v) ≡ received at v ∷ []
unfolding push_value type_of data_of received
push_value-type_of junk at (boolean true) f = refl
push_value-type_of junk at (boolean false) f = refl
push_value-type_of junk at (string bs) f = refl
push_value-type_of junk at (number n) f = rw (number_of-le_bytes_8 n f)
push_value-type_of junk at function f = refl
push_value-type_of junk at nil f = refl
push_value-type_of junk at (table n) f = refl
push_value-type_of junk at (lightuserdata p) f = refl
push_value-type_of junk at (userdata p) f = refl
push_value-type_of junk at thread f = refl

code_of-lt : (t : MsgType) → code_of t < 2 ^ 32
code_of-lt t = ground arith

-- The bytes of a value, and of all of them.
abbrev pub value_bytes : (ℕ → ℕ) → LuaValue → List ℕ
value_bytes junk v = header junk (type_of v) (length_of v) ++ data_of junk v

unfoldable pub values_bytes : (ℕ → ℕ) → List LuaValue → List ℕ
values_bytes junk [] = []
values_bytes junk (v ∷ vs) = value_bytes junk v ++ values_bytes junk vs

-- One value off the front of the bytes.
push_values-suc :
    (junk : ℕ → ℕ) (argc heap position : ℕ) (v : LuaValue) (rest : List ℕ)
    → Fits v
    → push_values (suc argc) heap position (value_bytes junk v ++ rest) ≡ (
        push_values argc heap (position + 16 + length_of v) rest >>= λ values.
        some (received (heap + position + 16) v ∷ values))
unfolding push_values
push_values-suc junk argc heap position v rest f = rw (
  append_assoc (header junk (type_of v) (length_of v)) (data_of junk v) rest,
  append_assoc (le_bytes 4 (code_of (type_of v)))
      (junk 0 ∷ junk 1 ∷ junk 2 ∷ junk 3 ∷ le_bytes 8 (length_of v)) (data_of junk v ++ rest),
  split_bytes-append (le_bytes 4 (code_of (type_of v)))
      ((junk 0 ∷ junk 1 ∷ junk 2 ∷ junk 3 ∷ le_bytes 8 (length_of v)) ++ (data_of junk v ++ rest)) 4
      (sym (length-le_bytes 4 (code_of (type_of v)))),
  split_bytes-append (junk 0 ∷ junk 1 ∷ junk 2 ∷ junk 3 ∷ [])
      (le_bytes 8 (length_of v) ++ (data_of junk v ++ rest)) 4 refl,
  split_bytes-append (le_bytes 8 (length_of v)) (data_of junk v ++ rest) 8
      (sym (length-le_bytes 8 (length_of v))),
  number_of-le_bytes_4 (code_of (type_of v)) (code_of-lt (type_of v)),
  number_of-le_bytes_8 (length_of v) (length_of-lt v f),
  split_bytes-append (data_of junk v) rest (length_of v) (sym (length-data_of junk v)),
  push_value-type_of junk (heap + position + 16) v f,
)

push_values-values_bytes :
    (junk : ℕ → ℕ) (vs : List LuaValue) (heap position : ℕ)
    → AllFit vs
    → push_values (length vs) heap position (values_bytes junk vs)
      ≡ some (received_all heap position vs)
unfolding push_values values_bytes received_all
push_values-values_bytes junk [] heap position f = refl
push_values-values_bytes junk (v ∷ vs) heap position f = rw (
  push_values-suc junk (length vs) heap position v (values_bytes junk vs) f.0,
  push_values-values_bytes junk vs heap (position + 16 + length_of v) f.1,
)

content-injective : (xs ys : List ℕ) (m n : ℕ) → content xs m ≡ content ys n → xs ≡ ys
content-injective xs ys m n e = cc

no_content-content : (xs : List ℕ) (m : ℕ) → ¬ (no_content ≡ content xs m)
no_content-content xs m e = cc

too_big-content : (xs : List ℕ) (m : ℕ) → ¬ (too_big ≡ content xs m)
too_big-content xs m e = cc

overrun-content : (xs : List ℕ) (m : ℕ) → ¬ (overrun ≡ content xs m)
overrun-content xs m e = cc

-- A value that is stored, and the size of the heap after it.
pop_values-suc :
    (junk : ℕ → ℕ) (v : LuaValue) (vs : List LuaValue) (heap bytes : List ℕ) (size size' : ℕ)
    → pop_values junk (v ∷ vs) heap size ≡ content bytes size'
    → (s : ℕ) × (pop_values junk vs (heap ++ value_bytes junk v) s ≡ content bytes size')
unfolding pop_values
pop_values-suc junk v vs heap bytes size size' e =
    elim (Option-cases (grow (length heap) size (length_of v + 16))) [
      | inl none_e ↦
          let p : pop_values junk (v ∷ vs) heap size ≡ too_big = rw (none_e, pop_values) in
          absurd (too_big-content bytes size' (sym p ∙ e))
      | inr (s, some_e) ↦ elim (Bool-cases (leb (length heap + (length_of v + 16)) s)) [
        | inl fits ↦
            let p : pop_values junk (v ∷ vs) heap size
                ≡ pop_values junk vs (heap ++ value_bytes junk v) s =
              rw (some_e, fits, pop_values) in
            (s, sym p ∙ e)
        | inr over ↦
            let p : pop_values junk (v ∷ vs) heap size ≡ overrun = rw (some_e, over, pop_values) in
            absurd (overrun-content bytes size' (sym p ∙ e))
      ]
    ]

-- A content that `lua_message_pop` makes is the bytes of the count and of the values.
pop_values-content :
    (junk : ℕ → ℕ) (vs : List LuaValue) (heap bytes : List ℕ) (size size' : ℕ)
    → pop_values junk vs heap size ≡ content bytes size'
    → bytes ≡ heap ++ values_bytes junk vs
unfolding pop_values values_bytes
pop_values-content junk [] heap bytes size size' e =
    sym (content-injective heap bytes size size' e) ∙ sym (append-nil heap)
pop_values-content junk (v ∷ vs) heap bytes size size' e =
    let (s, e') = pop_values-suc junk v vs heap bytes size size' e in
    pop_values-content junk vs (heap ++ value_bytes junk v) bytes s size' e'
    ∙ append_assoc heap (value_bytes junk v) (values_bytes junk vs)

if_overrun :
    (small : Bool) (r : Popped) (bytes : List ℕ) (size : ℕ)
    → (if small then overrun else r) ≡ content bytes size
    → r ≡ content bytes size
if_overrun true r bytes size e = absurd (overrun-content bytes size e)
if_overrun false r bytes size e = e

-- A message that `lua_message_pop` makes of fewer than 2 ^ 32 values, all of which fit, is read by
-- `lua_message_push` to its end without a read behind it, and gives one value for each that was sent:
-- booleans, strings and numbers as they were, tables, functions, threads and nil as nil, and any userdata
-- as the address of its place in the message.
pub lua_message_push-pop :
    (junk : ℕ → ℕ) (vs : List LuaValue) (bytes : List ℕ) (size heap : ℕ)
    → AllFit vs
    → length vs < 2 ^ 32
    → lua_message_pop junk vs ≡ content bytes size
    → lua_message_push heap bytes ≡ some (received_all heap 4 vs)
unfolding lua_message_pop lua_message_push
lua_message_push-pop junk [] bytes size heap f l e = absurd (no_content-content bytes size e)
lua_message_push-pop junk (v ∷ vs) bytes size heap f l e =
    let start = int_size (4 + 16 * suc (length vs) + msg_inc_size) in
    let e' =
      if_overrun (ltb start 4) (pop_values junk (v ∷ vs) (le_bytes 4 (suc (length vs))) start) bytes
        size e in
    let p = pop_values-content junk (v ∷ vs) (le_bytes 4 (suc (length vs))) bytes start size e' in
    rw (
      p,
      split_bytes-append (le_bytes 4 (suc (length vs))) (values_bytes junk (v ∷ vs)) 4
          (sym (length-le_bytes 4 (suc (length vs)))),
      number_of-le_bytes_4 (suc (length vs)) l,
      push_values-values_bytes junk (v ∷ vs) heap 4 f,
    )
