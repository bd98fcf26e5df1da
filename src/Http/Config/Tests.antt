-- ===== src/Http/Config/Tests.antt =====
-- httpd_conf.c: a configuration with a script, and requests for it.
use blocks.Prelude.{
  ℕ, ◌≡◌, refl, true, List, [], ◌∷◌, Option, none, some, arith, leb, if◌then◌else◌, ◌==◌, length,
  map,
}
use blocks.Http.Buffer.{codes}
use blocks.Http.Request.{Mimetype, ConnInfo, get_mimetype, strncasecmp, to_lower}
use blocks.Http.Config.{
  Entry, absent, text, strdup, load_scripts, load_mimetypes, httpd_conf_load, default_mimetypes,
  bin_mimetype, load_port, load_types, load_type, chars_of, lua_rawlen, string, number, first,
}
use blocks.Http.Config.Scripts.{services, load_scripts-services}
use blocks.Http.Config.Types.{Pair, entry, load_mimetypes-get_mimetype}

-- The second entry has no pattern, and the script of the third one does not evaluate.
abbrev entries : List Entry
entries =
    record {
      pattern = text (codes "/l/");
      mimetype = text (codes "text/html");
      script = text (codes "a");
    }
    ∷ record { pattern = absent; mimetype = absent; script = text (codes "a") }
    ∷ record { pattern = text (codes "/t/"); mimetype = absent; script = text (codes "b") }
    ∷ []

-- Only the script "a" evaluates.
abbrev evaluate : List ℕ → Option ℕ
evaluate [] = none
evaluate (c ∷ cs) = if c == b'a' then some 70 else none

load_scripts-services_example :
    load_scripts evaluate 9 (some (record { raw_length = 3; entries = map some entries })) ≡ (
      if leb (length (services evaluate 9 entries)) 3
      then some (some (services evaluate 9 entries))
      else none)
load_scripts-services_example = load_scripts-services evaluate 9 3 entries (tt, (tt, (tt, tt)))

abbrev junk : ℕ → ℕ
junk i = 9

abbrev conn : ConnInfo
conn = record {
  path = [];
  path_size = 0;
  query = [];
  query_size = 0;
  client_open = true;
  type = 0;
  responses = [];
}

abbrev html : Pair
html = record {
  key = codes "html";
  value = codes "text/html";
  clean_key = (λ e. omega arith, (λ e. omega arith, (λ e. omega arith, (λ e. omega arith, tt))));
  clean_value = (
    λ e. omega arith,
    (
      λ e. omega arith,
      (
        λ e. omega arith,
        (
          λ e. omega arith,
          (
            λ e. omega arith,
            (λ e. omega arith, (λ e. omega arith, (λ e. omega arith, (λ e. omega arith, tt)))),
          ),
        ),
      ),
    ),
  );
}

abbrev js : Pair
js = record {
  key = codes "js";
  value = codes "js";
  clean_key = (λ e. omega arith, (λ e. omega arith, tt));
  clean_value = (λ e. omega arith, (λ e. omega arith, tt));
}

load_mimetypes-get_mimetype_example :
    (types : List Mimetype) × (load_mimetypes
        (some (record { raw_length = 2; entries = map entry (js ∷ html ∷ []) }))
      ≡ some types)
    × (get_mimetype (codes "/i.html") types bin_mimetype ≡ codes "text/html")
unfolding strncasecmp to_lower
load_mimetypes-get_mimetype_example =
    load_mimetypes-get_mimetype (js ∷ []) [] html (codes "/i") bin_mimetype
      (λ e. omega arith, (λ e. omega arith, (λ e. omega arith, (λ e. omega arith, tt)))) (refl, tt)

-- A key that is a number is taken for every file.
number_key :
    load_mimetypes (
      some
        (record { raw_length = 1; entries = first (number (codes "7")) (string (codes "x")) ∷ [] }))
    ≡ some (record { postfix = codes "7"; postfix_size = 0; mimetype = codes "x" } ∷ [])
unfolding load_mimetypes load_types load_type chars_of lua_rawlen strdup
number_key = refl

-- A table without a script, and the port 65536 + 2 ^ 32.
no_scripts :
    httpd_conf_load evaluate 9 (record { port = some 4295032832; mimetypes = none; scripts = none })
    ≡ some (record {
      port = 65536;
      mimetypes = default_mimetypes;
      default_mimetype = bin_mimetype;
      lua_states = none;
    })
unfolding httpd_conf_load load_mimetypes load_scripts load_port
no_scripts = refl
