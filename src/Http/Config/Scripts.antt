-- ===== src/Http/Config/Scripts.antt =====
-- httpd_conf.c and request_processor.c: the scripts of the configuration, and the requests that they serve.
use blocks.Prelude.{
  ℕ, zero, suc, ◌+◌, ◌≡◌, refl, sym, ap, ◌∙◌, true, false, List, [], ◌∷◌, ◌++◌, Option, none, some,
  inl, inr, arith, ltb, leb, if◌then◌else◌, Bool-cases, ◌>>=◌, length, get_elem?, map, subst,
  append-nil, append_assoc, length-append,
}
use blocks.Http.LuaStates.{LuaService}
use blocks.Http.LuaStates.Balanced.{Sound}
use blocks.Http.Config.{
  Field, absent, other, text, Entry, strdup, json_mimetype, mimetype_of, new_service, evaluated,
  load_file, load_pattern, load_entry, add_service, load_entries, load_scripts,
}

abbrev pub ReadableType : Field → Type 0
ReadableType absent = Unit {0}
ReadableType (text s) = Unit {0}
ReadableType other = ⊥

abbrev pub AllReadable : List Entry → Type 0
AllReadable [] = Unit {0}
AllReadable (entry ∷ entries) = ReadableType entry.mimetype × AllReadable entries

abbrev pub mimetype_or_json : Field → List ℕ
mimetype_or_json absent = json_mimetype
mimetype_or_json (text s) = strdup s
mimetype_or_json other = []

module _ (evaluate : List ℕ → Option ℕ) (junk : ℕ) where
  -- What an entry with the fields `pattern` and `script` and the MIME type is to serve.
  abbrev pub service_of : Field → List ℕ → Field → Option LuaService
  service_of (text pattern) mimetype (text file) =
      evaluate file >>= λ l. some (new_service junk l pattern mimetype file)
  service_of (text pattern) mimetype absent = none
  service_of (text pattern) mimetype other = none
  service_of absent mimetype script = none
  service_of other mimetype script = none

  abbrev pub front : Option LuaService → List LuaService → List LuaService
  front none states = states
  front (some state) states = state ∷ states

  -- The services of the entries that have a pattern and a script that evaluates, in their order.
  abbrev pub services : List Entry → List LuaService
  services [] = []
  services (entry ∷ entries) =
      front (service_of entry.pattern (mimetype_or_json entry.mimetype) entry.script)
        (services entries)

  load_file-service :
      (pattern mimetype : List ℕ) (script : Field)
      → load_file evaluate junk pattern mimetype script ≡ service_of (text pattern) mimetype script
  unfolding load_file evaluated
  load_file-service pattern mimetype absent = refl
  load_file-service pattern mimetype other = refl
  load_file-service pattern mimetype (text file) = refl

  load_pattern-service :
      (entry : Entry) (pattern : Field)
      → mimetype_of entry.mimetype ≡ some (mimetype_or_json entry.mimetype)
      → load_pattern evaluate junk entry pattern
        ≡ some (service_of pattern (mimetype_or_json entry.mimetype) entry.script)
  unfolding load_pattern
  load_pattern-service entry absent e = refl
  load_pattern-service entry other e = refl
  load_pattern-service entry (text pattern) e =
      rw e (ap some (load_file-service pattern (mimetype_or_json entry.mimetype) entry.script))

  mimetype_of-some : (f : Field) → ReadableType f → mimetype_of f ≡ some (mimetype_or_json f)
  unfolding mimetype_of
  mimetype_of-some absent h = refl
  mimetype_of-some (text s) h = refl
  mimetype_of-some other h = absurd h

  add_service-front :
      (states rest : List LuaService) (state : Option LuaService)
      → add_service states state ++ rest ≡ states ++ front state rest
  unfolding add_service
  add_service-front states rest none = refl
  add_service-front states rest (some state) = append_assoc states (state ∷ []) rest

  length-add_service :
      (states rest : List LuaService) (state : Option LuaService)
      → length (add_service states state) + length rest ≡ length states + length (front state rest)
  length-add_service states rest state =
      sym (length-append (add_service states state) rest)
      ∙ ap length (add_service-front states rest state)
      ∙ length-append states (front state rest)

  -- What the loop gives, where it starts with some services.
  loads :
      (size : ℕ) (entries : List Entry) (states : List LuaService)
      → AllReadable entries
      → load_entries evaluate junk size (map some entries) states ≡ (
          if ltb (length states + length (services entries)) size
          then some (states ++ services entries)
          else none)
  unfolding load_entries
  loads size [] states h =
      let e : length states + 0 ≡ length states = omega arith in rw (e, append-nil states) refl
  loads size (entry ∷ entries) states (readable, rest) =
      let state = service_of entry.pattern (mimetype_or_json entry.mimetype) entry.script in
      let e : load_entry evaluate junk entry ≡ some state =
        unfold load_entry in
        load_pattern-service entry entry.pattern (mimetype_of-some entry.mimetype readable) in
      let next = loads size entries (add_service states state) rest in
      let l = length-add_service states (services entries) state in
      let a = add_service-front states (services entries) state in
      elim (Bool-cases (ltb (length states) size)) [
        | inl room ↦ rw (room, e, next, l, a)
        | inr full ↦
            let behind : ltb (length states + length (front state (services entries))) size
                ≡ false =
              ground arith in
            rw (full, behind)
      ]

  -- The table gives the services of its entries, in the order of `lua_next`, if they are not more than its
  -- raw length; if they are more, a service is written behind the end of the array. No MIME type is a value
  -- that is neither nil nor a string.
  pub load_scripts-services :
      (raw_length : ℕ) (entries : List Entry)
      → AllReadable entries
      → load_scripts evaluate junk
          (some (record { raw_length = raw_length; entries = map some entries }))
        ≡ (if leb (length (services entries)) raw_length
            then some (some (services entries))
            else none)
  unfolding load_scripts
  load_scripts-services raw_length entries h =
      elim (Bool-cases (leb (length (services entries)) raw_length)) [
        | inl fits ↦
            let below : ltb (0 + length (services entries)) (raw_length + 1) ≡ true =
              ground arith in
            rw (loads (raw_length + 1) entries [] h, below, fits)
        | inr many ↦
            let behind : ltb (0 + length (services entries)) (raw_length + 1) ≡ false =
              ground arith in
            rw (loads (raw_length + 1) entries [] h, behind, many)
      ]

  new_service-Sound :
      (l : ℕ) (pattern mimetype file : List ℕ) → Sound (new_service junk l pattern mimetype file)
  new_service-Sound l pattern mimetype file = record {
    size = refl;
    top = omega arith;
    some_room = omega arith;
  }

  abbrev IsSound? : Option LuaService → Type 0
  IsSound? none = Unit {0}
  IsSound? (some state) = Sound state

  evaluated-Sound :
      (pattern mimetype file : List ℕ) (l : Option ℕ)
      → IsSound? (l >>= λ l. some (new_service junk l pattern mimetype file))
  evaluated-Sound pattern mimetype file none = tt
  evaluated-Sound pattern mimetype file (some l) = new_service-Sound l pattern mimetype file

  service_of-Sound :
      (pattern : Field) (mimetype : List ℕ) (script : Field)
      → IsSound? (service_of pattern mimetype script)
  service_of-Sound absent mimetype script = tt
  service_of-Sound other mimetype script = tt
  service_of-Sound (text pattern) mimetype absent = tt
  service_of-Sound (text pattern) mimetype other = tt
  service_of-Sound (text pattern) mimetype (text file) =
      evaluated-Sound pattern mimetype file (evaluate file)

  front-Sound :
      (state : Option LuaService) (states : List LuaService)
      → IsSound? state
      → ((i : ℕ) (s : LuaService) → get_elem? states i ≡ some s → Sound s)
      → (i : ℕ) (s : LuaService) → get_elem? (front state states) i ≡ some s
      → Sound s
  front-Sound none states h rest i s e = rest i s e
  front-Sound (some state) states h rest zero s e = let same : state ≡ s = cc in subst Sound same h
  front-Sound (some state) states h rest (suc i) s e = rest i s e

  pub services-Sound :
      (entries : List Entry) (i : ℕ) (s : LuaService)
      → get_elem? (services entries) i ≡ some s
      → Sound s
  services-Sound [] i s e = absurd cc
  services-Sound (entry ∷ entries) i s e =
      let state = service_of entry.pattern (mimetype_or_json entry.mimetype) entry.script in
      front-Sound state (services entries)
        (service_of-Sound entry.pattern (mimetype_or_json entry.mimetype) entry.script)
        (services-Sound entries) i s e
