-- ===== src/Classify/Examples.antt =====
-- The theorems at concrete commands.
use hunch.Base.{◌≡◌, ◌≢◌, refl, false, List, [], ◌∷◌, Bytes, codes, bytes_eq, contains}
use hunch.Regex.{match_string}
use hunch.Regex.Build.{is_digit, is_lower, is_upper}
use hunch.Classify.{classify_tokens, classify_token}
use hunch.Classify.Shape.{SameShape, classify_tokens-SameShape}

abbrev parents : List Bytes
parents = codes "git" ∷ []

-- Both have the subcommand push, a flag and a string.
two_pushes :
    SameShape parents
      (codes "git")
      1
      (codes "push" ∷ codes "-f" ∷ codes "x" ∷ [])
      (codes "push" ∷ codes "-q" ∷ codes "y" ∷ [])
unfolding classify_token bytes_eq contains match_string is_digit is_lower is_upper
two_pushes = (refl, (λ e. refl), (refl, (λ e. cc), (refl, (λ e. cc), tt)))

classify_tokens-SameShape_example :
    classify_tokens (codes "git" ∷ codes "push" ∷ codes "-f" ∷ codes "x" ∷ []) parents
    ≡ classify_tokens (codes "git" ∷ codes "push" ∷ codes "-q" ∷ codes "y" ∷ []) parents
classify_tokens-SameShape_example =
    classify_tokens-SameShape parents (codes "git") (codes "push" ∷ codes "-f" ∷ codes "x" ∷ [])
      (codes "push" ∷ codes "-q" ∷ codes "y" ∷ []) two_pushes

not_parent : contains parents (codes "ls") ≡ false
unfolding contains bytes_eq
not_parent = refl

not_kwargs : codes "ls" ≢ codes "KWARGS"
not_kwargs = cc
