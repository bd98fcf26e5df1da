-- ===== src/Http/Config/Types.antt =====
-- httpd_conf.c and request_processor.c: the MIME types of the configuration, and the types of files.
use blocks.Prelude.{
  ℕ, ◌≡◌, refl, sym, ap, ◌∙◌, List, [], ◌∷◌, ◌++◌, some, ne→==, length, map, append-nil,
}
use blocks.Http.Buffer.{NoNul}
use blocks.Http.Request.{Mimetype, get_mimetype}
use blocks.Http.Request.Postfix.{NoDot, NoneMatches, get_mimetype-append}
use blocks.Http.Config.{
  strdup, string, chars_of, lua_rawlen, TypeEntry, first, load_type, load_types, load_mimetypes,
}

-- An element of the table: one key and its value.
pub record Pair : Type 0 where
  pub key : List ℕ
  pub value : List ℕ
  pub clean_key : NoNul key
  pub clean_value : NoNul value

abbrev pub entry : Pair → TypeEntry
entry p = first (string p.key) (string p.value)

abbrev pub mimetype : Pair → Mimetype
mimetype p = record { postfix = p.key; postfix_size = length p.key; mimetype = p.value }

pub strdup_lem : (s : List ℕ) → NoNul s → strdup s ≡ s
unfolding strdup
strdup_lem [] h = refl
strdup_lem (c ∷ s) h = rw (ne→== c 0 h.0) (ap (◌∷◌ c) (strdup_lem s h.1))

load_type-entry : (p : Pair) → load_type (entry p) ≡ some (mimetype p)
unfolding load_type chars_of lua_rawlen
load_type-entry p = rw (strdup_lem p.key p.clean_key, strdup_lem p.value p.clean_value)

load_types-map :
    (ps : List Pair) → load_types (length (map entry ps)) (map entry ps) ≡ some (map mimetype ps)
unfolding load_types
load_types-map [] = refl
load_types-map (p ∷ ps) = rw (load_type-entry p, load_types-map ps)

map-append :
    {A B : Type 0} (f : A → B) (xs : List A) (y : A) (ys : List A)
    → map f (xs ++ y ∷ ys) ≡ map f xs ++ f y ∷ map f ys
map-append f [] y ys = refl
map-append f (x ∷ xs) y ys = ap (◌∷◌ (f x)) (map-append f xs y ys)

-- With a table `mimetypes` that is an array, so that its raw length is the number of its elements, and whose elements
-- are tables with one key each, a string, and a string for its value, both without zero bytes: a file whose last dot
-- is followed by a key gets the value of that key, if the key has no dot and `get_mimetype` takes no earlier entry for
-- it.
pub load_mimetypes-get_mimetype :
    (before after : List Pair) (p : Pair) (path default : List ℕ)
    → NoDot p.key
    → NoneMatches (map mimetype before) p.key
    → (types : List Mimetype) × (load_mimetypes (
          some (record {
            raw_length = length (map entry (before ++ p ∷ after));
            entries = map entry (before ++ p ∷ after);
          }))
        ≡ some types)
      × (get_mimetype (path ++ b'.' ∷ p.key) types default ≡ p.value)
unfolding load_mimetypes
load_mimetypes-get_mimetype before after p path default dots h =
    let types = map mimetype (before ++ p ∷ after) in
    let nil = append-nil p.key in
    let found =
      get_mimetype-append path [] default (map mimetype before) (map mimetype after) (mimetype p)
        (rw nil dots) refl (rw nil h) in
    (
      types,
      load_types-map (before ++ p ∷ after),
      rw (map-append mimetype before p after) (
          ap
            (λ (k : List ℕ).
              get_mimetype (path ++ b'.' ∷ k)
                (map mimetype before ++ mimetype p ∷ map mimetype after) default)
            (sym nil)
          ∙ found),
    )
