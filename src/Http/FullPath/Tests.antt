-- ===== src/Http/FullPath/Tests.antt =====
-- Runs of `get_full_path`, and its theorems at the paths of a request.
use blocks.Prelude.{ℕ, ◌≡◌, refl, List, ◌∷◌, ◌++◌, none, some, false, arith, replicate, get_elem?}
use blocks.Http.Buffer.{codes, write, strncpy}
use blocks.Http.FullPath.{both_dots, round, neutralise, ends_in_slash, terminate, get_full_path}
use blocks.Http.FullPath.Sanitized.{target, get_full_path-target}
use blocks.Http.FullPath.Contained.{has_dots, get_full_path-has_dots}
use blocks.Http.FullPath.LastDot.{get_full_path-last_dot}

abbrev root : List ℕ
root = codes "./html/"

abbrev index : List ℕ
index = codes "index.html"

abbrev room : List ℕ
room = replicate 40 b'x'

-- The dots of `/a/../b` are gone.
no_parent :
    get_full_path room root 7 index 10 (codes "/a/../b") 7
    ≡ some (codes "./html//a////b" ++ 0 ∷ replicate 25 b'x')
unfolding get_full_path strncpy write both_dots round neutralise ends_in_slash terminate
no_parent = refl

directory :
    get_full_path room root 7 index 10 (codes "/a/") 3
    ≡ some (codes "./html//a/index.html" ++ 0 ∷ replicate 19 b'x')
unfolding get_full_path strncpy write both_dots round neutralise ends_in_slash terminate
directory = refl

-- A buffer that is too small.
overrun : get_full_path (replicate 12 b'x') root 7 index 10 (codes "/a/") 3 ≡ none
unfolding get_full_path strncpy write both_dots round neutralise ends_in_slash terminate
overrun = refl

get_full_path-target_example :
    (next : ℕ) × (tail : List ℕ) × (get_elem? room 10 ≡ some next)
    × (get_full_path room root 7 index 10 (codes "/a/") 3
        ≡ some (root ++ (target index (codes "/a/") next ++ 0 ∷ tail)))
get_full_path-target_example =
    get_full_path-target root index (codes "/a/") (omega arith) (omega arith) (omega arith) room
      (omega arith)

get_full_path-has_dots_example :
    (served : List ℕ) × (tail : List ℕ) × (get_full_path room root 7 index 10 (codes "/a/../b") 7
      ≡ some (root ++ (served ++ 0 ∷ tail)))
    × (has_dots served ≡ false)
unfolding has_dots
get_full_path-has_dots_example =
    get_full_path-has_dots room root index (codes "a/../b") (omega arith) (omega arith)
      (omega arith) (omega arith) refl

get_full_path-last_dot_example :
    (tail : List ℕ) × (get_full_path
        (replicate 10 b'x' ++ replicate 30 b'.')
        root
        7
        index
        10
        (codes "/a.")
        3
      ≡ some (codes "./html//a/index.html" ++ 0 ∷ tail))
get_full_path-last_dot_example =
    get_full_path-last_dot root index (codes "a") (replicate 10 b'x' ++ replicate 30 b'.') b'.'
      (omega arith) (omega arith) (omega arith) (omega arith) (omega arith) refl
