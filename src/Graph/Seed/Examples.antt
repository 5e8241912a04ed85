-- ===== src/Graph/Seed/Examples.antt =====
-- The theorems at a small seed.
use hunch.Base.{◌≡◌, refl, List, [], ◌∷◌, codes, bytes_eq}
use hunch.Graph.{Transition, new, entry_at, or_zero, state_key}
use hunch.Graph.Seed.{merge, merge_loop, merged, validate_transitions}
use hunch.Graph.Seed.Refusal.{Reports, Peaks, concerns_seed, merge-Reports, merge-Peaks}

abbrev test_run : Transition
test_run = record {
  state = codes "make" ∷ [];
  next = codes "make test";
  count = 3;
  last_seen = 5;
  cwds = (codes "/p", 2) ∷ [];
  next_success = 2;
  next_failure = 1;
  prior_success = 0;
  prior_failure = 0;
  accepted = 1;
}

abbrev seed : List Transition
seed = test_run ∷ record test_run { count = 7 } ∷ []

merge-Reports_example :
    Reports
      (test_run ∷ record test_run { count = 0 } ∷ [])
      (new 2)
      (merge (test_run ∷ record test_run { count = 0 } ∷ []) (new 2))
merge-Reports_example = merge-Reports (test_run ∷ record test_run { count = 0 } ∷ []) (new 2)

seed_merged : merge seed (new 2) ≡ merged (merge_loop seed (new 2))
unfolding merge validate_transitions bytes_eq
seed_merged = refl

merge-Peaks_example :
    Peaks
      (concerns_seed (state_key (codes "make" ∷ [])) (codes "make test"))
      (or_zero (entry_at (new 2) (state_key (codes "make" ∷ [])) (codes "make test")))
      (or_zero
        (entry_at (merge_loop seed (new 2)) (state_key (codes "make" ∷ [])) (codes "make test")))
      seed
merge-Peaks_example =
    merge-Peaks seed (new 2) (merge_loop seed (new 2)) (state_key (codes "make" ∷ []))
      (codes "make test") seed_merged
