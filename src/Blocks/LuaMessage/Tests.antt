-- ===== src/Blocks/LuaMessage/Tests.antt =====
-- A message of every kind of value that crosses, and one that is too big.
use blocks.Prelude.{ℕ, ◌+◌, ◌^◌, ◌≡◌, refl, true, List, [], ◌∷◌, ◌++◌, some, arith, replicate}
use blocks.Blocks.LuaMessage.{
  LuaValue, boolean, string, nil, table, lightuserdata, type_of, length_of, data_of, header, grow,
  int_size, junk_bytes, too_big, content, pop_values, lua_message_pop, lua_message_push,
}
use blocks.Blocks.LuaMessage.Bytes.{le_bytes}
use blocks.Blocks.LuaMessage.RoundTrip.{AllFit, received, received_all, lua_message_push-pop}
use blocks.Blocks.LuaMessage.Limits.{
  InBounds, data_size, lua_message_pop-InBounds, lua_message_push-small,
}

abbrev junk : ℕ → ℕ
junk n = 170

-- A call of `print` with a flag, and a handle.
abbrev call : List LuaValue
call = boolean true ∷ string (104 ∷ 105 ∷ []) ∷ table 3 ∷ lightuserdata 4096 ∷ []

abbrev call_bytes : List ℕ
call_bytes =
    (le_bytes 4 4 ++ (header junk (type_of (boolean true)) 1 ++ (1 ∷ [])))
    ++ ((header junk (type_of (string (104 ∷ 105 ∷ []))) 2 ++ (104 ∷ 105 ∷ []))
        ++ ((header junk (type_of (table 3)) 3 ++ (170 ∷ 170 ∷ 170 ∷ []))
            ++ (header junk (type_of (lightuserdata 4096)) 8 ++ le_bytes 8 4096)))

call-AllFit : AllFit call
call-AllFit = (tt, (omega arith, (omega arith, (tt, tt))))

lua_message_pop-call : lua_message_pop junk call ≡ content call_bytes 324
unfolding lua_message_pop pop_values grow int_size length_of type_of data_of junk_bytes le_bytes
lua_message_pop-call = refl

lua_message_push-pop_example :
    lua_message_push 8192 call_bytes
    ≡ some (boolean true ∷ string (104 ∷ 105 ∷ []) ∷ nil ∷ lightuserdata 8266 ∷ [])
unfolding received_all received length_of
lua_message_push-pop_example =
    lua_message_push-pop junk call call_bytes 324 8192 call-AllFit (omega arith)
      lua_message_pop-call

lua_message_push-small_example :
    (bytes : List ℕ) × (size : ℕ) × (lua_message_pop junk call ≡ content bytes size)
    × (lua_message_push 8192 bytes
        ≡ some (boolean true ∷ string (104 ∷ 105 ∷ []) ∷ nil ∷ lightuserdata 8266 ∷ []))
unfolding received_all received length_of data_size
lua_message_push-small_example =
    lua_message_push-small junk (boolean true)
      (string (104 ∷ 105 ∷ []) ∷ table 3 ∷ lightuserdata 4096 ∷ []) 8192 call-AllFit (omega arith)
      (omega arith)

lua_message_pop-InBounds_example : InBounds (lua_message_pop junk call)
unfolding length_of
lua_message_pop-InBounds_example =
    lua_message_pop-InBounds junk call (omega arith)
      (omega arith, (omega arith, (omega arith, (omega arith, tt))))

-- A string that does not fit in 2 KB is refused.
too_big_string : lua_message_pop junk (string (replicate 2000 97) ∷ []) ≡ too_big
unfolding lua_message_pop pop_values grow int_size length_of le_bytes
too_big_string = refl

-- The size of a string of 2 ^ 32 + 452 bytes does not fit into an `int`: the heap does not grow to it.
truncated : grow 4 276 (2 ^ 32 + 468) ≡ some 1000
unfolding grow int_size
truncated = refl
