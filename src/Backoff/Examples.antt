-- ===== src/Backoff/Examples.antt =====
-- Runs on the inputs of backoff_test.go, and the theorems at concrete states.
use hunch.Base.{◌≡◌, refl, List, [], ◌∷◌, true, false, Bytes, codes, bytes_eq}
use hunch.Backoff.{backoff_states, all_empty}
use hunch.Backoff.Keys.{Listed, backoff_states-Listed}

three_levels :
    backoff_states (codes "/p" ∷ codes "git add PATH" ∷ codes "git commit" ∷ []) true
    ≡ (codes "/p" ∷ codes "git add PATH" ∷ codes "git commit" ∷ [])
      ∷ (codes "git add PATH" ∷ codes "git commit" ∷ [])
      ∷ (codes "git commit" ∷ [])
      ∷ []
unfolding backoff_states bytes_eq
three_levels = refl

padding_is_left_out : backoff_states ([] ∷ [] ∷ []) true ≡ ([] ∷ [] ∷ []) ∷ []
unfolding backoff_states bytes_eq
padding_is_left_out = refl

abbrev padded : List Bytes
padded = codes "/p" ∷ [] ∷ codes "git commit" ∷ []

informative : all_empty (codes "git commit" ∷ []) ≡ false
unfolding all_empty bytes_eq
informative = refl

backoff_states-Listed_example :
    Listed padded (backoff_states padded true)
    × Listed ([] ∷ codes "git commit" ∷ []) (backoff_states padded true)
    × Listed (codes "git commit" ∷ []) (backoff_states padded true)
backoff_states-Listed_example =
    backoff_states-Listed (codes "/p") [] (codes "git commit") [] informative
