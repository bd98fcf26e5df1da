-- ===== src/Http/Request/Postfix.antt =====
-- request_processor.c: `get_mimetype`.
use blocks.Prelude.{
  ℕ, ◌≡◌, refl, ◌≢◌, true, false, List, [], ◌∷◌, ◌++◌, none, some, ==_refl, ne→==, length,
}
use blocks.Http.Request.{
  Mimetype, to_lower, strncasecmp, later_dot, after_dot, find_mimetype, type_of_postfix,
  get_mimetype,
}

abbrev pub NoDot : List ℕ → Type 0
NoDot [] = Unit {0}
NoDot (c ∷ cs) = (c ≢ b'.') × NoDot cs

-- No entry is taken for the postfix.
abbrev pub NoneMatches : List Mimetype → List ℕ → Type 0
NoneMatches [] postfix = Unit {0}
NoneMatches (t ∷ types) postfix =
    (strncasecmp t.postfix postfix t.postfix_size ≡ false) × NoneMatches types postfix

after_dot-none : (cs : List ℕ) → NoDot cs → after_dot cs ≡ none
unfolding after_dot
after_dot-none [] h = refl
after_dot-none (c ∷ cs) h = rw (after_dot-none cs h.1) (unfold later_dot in rw (ne→== c b'.' h.0))

after_dot-append : (path ext : List ℕ) → NoDot ext → after_dot (path ++ b'.' ∷ ext) ≡ some ext
unfolding after_dot
after_dot-append [] ext h = rw (after_dot-none ext h) (unfold later_dot in refl)
after_dot-append (c ∷ path) ext h = rw (after_dot-append path ext h) (unfold later_dot in refl)

strncasecmp-append : (a more : List ℕ) → strncasecmp a (a ++ more) (length a) ≡ true
unfolding strncasecmp
strncasecmp-append [] more = refl
strncasecmp-append (c ∷ a) more = rw (==_refl (to_lower c), strncasecmp-append a more)

find_mimetype-append :
    (before after : List Mimetype) (t : Mimetype) (postfix default : List ℕ)
    → NoneMatches before postfix
    → strncasecmp t.postfix postfix t.postfix_size ≡ true
    → find_mimetype (before ++ t ∷ after) postfix default ≡ t.mimetype
unfolding find_mimetype
find_mimetype-append [] after t postfix default h m = rw m
find_mimetype-append (u ∷ before) after t postfix default h m =
    rw (h.0, find_mimetype-append before after t postfix default h.1 m)

-- A file whose last dot is followed by the postfix of an entry `t`, and by anything more without a dot, has
-- the type of `t`, if no entry before `t` is taken: a longer postfix that begins with a shorter one gets
-- the type of the shorter one, unless it stands before it.
pub get_mimetype-append :
    (path more default : List ℕ) (before after : List Mimetype) (t : Mimetype)
    → NoDot (t.postfix ++ more)
    → t.postfix_size ≡ length t.postfix
    → NoneMatches before (t.postfix ++ more)
    → get_mimetype (path ++ b'.' ∷ (t.postfix ++ more)) (before ++ t ∷ after) default ≡ t.mimetype
unfolding get_mimetype type_of_postfix
get_mimetype-append path more default before after t dots size h =
    let matches : strncasecmp t.postfix (t.postfix ++ more) t.postfix_size ≡ true =
      rw size (strncasecmp-append t.postfix more) in
    rw (
      after_dot-append path (t.postfix ++ more) dots,
      find_mimetype-append before after t (t.postfix ++ more) default h matches,
    )
