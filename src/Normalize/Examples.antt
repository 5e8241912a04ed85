-- ===== src/Normalize/Examples.antt =====
-- Runs on inputs of normalize_test.go, and the theorems at concrete commands.
use hunch.Base.{
  ◌≡◌, refl, List, [], ◌∷◌, ◌++◌, none, true, Bytes, codes, bytes_eq, contains, All, arith,
}
use hunch.Regex.{match_string}
use hunch.Regex.Build.{is_digit, is_lower, is_upper}
use hunch.Tokenize.{tokenize}
use hunch.Tokenize.Grammar.{Item, piece, bare, operator, pipe, spell}
use hunch.Normalize.{normalize, join, blank, segments_of, is_operator, parents_or_default}
use hunch.Normalize.Private.{SafePart, normalize-private}
use hunch.Normalize.Quoted.{space, quoted, normalize-quoted_operator}
use hunch.Normalize.Segments.{segments_of-operator}

pipeline :
    normalize
      (codes
        "sudo env DEBUG=1 npm test -v -q ./a ./b 3 | grep 'x y' && kill 123456; git push -- a b")
      none
    ≡ codes "npm test FLAG PATH NUM | grep STR && kill NUM ; git push KWARGS"
unfolding normalize bytes_eq contains match_string is_digit is_lower is_upper
    hunch.Unwrap.is_env_assignment
pipeline = refl

remote :
    normalize (codes "git clone git@github.com:a/b deadbeef https://x/y z.git") none
    ≡ codes "git clone REPO HASH REPO"
unfolding normalize bytes_eq contains match_string is_digit is_lower is_upper
remote = refl

abbrev push_line : Bytes
push_line = codes "sudo git push origin | tee /tmp/log"

normalize-private_example :
    (parts : List Bytes) × (normalize push_line none ≡ join parts blank)
    × All (SafePart (parents_or_default none) (tokenize push_line)) parts
normalize-private_example = normalize-private push_line none

pipe_is_operator : is_operator (codes "|") ≡ true
unfolding is_operator bytes_eq
pipe_is_operator = refl

segments_of-operator_example :
    segments_of ((codes "ls" ∷ []) ++ codes "|" ∷ codes "wc" ∷ codes "-l" ∷ []) (codes "git" ∷ [])
    ≡ segments_of (codes "ls" ∷ []) (codes "git" ∷ [])
      ++ codes "|" ∷ segments_of (codes "wc" ∷ codes "-l" ∷ []) (codes "git" ∷ [])
segments_of-operator_example =
    segments_of-operator (codes "git" ∷ []) (codes "ls" ∷ []) (codes "|")
      (codes "wc" ∷ codes "-l" ∷ []) pipe_is_operator

abbrev letter : Item
letter = piece (bare b'l' (omega arith))

normalize-quoted_operator_example :
    normalize (spell ((letter ∷ []) ++ space ∷ quoted pipe ∷ space ∷ letter ∷ [])) none
    ≡ normalize (spell ((letter ∷ []) ++ space ∷ operator pipe ∷ space ∷ letter ∷ [])) none
normalize-quoted_operator_example =
    normalize-quoted_operator pipe (letter ∷ []) (letter ∷ []) none tt (tt, tt)
