-- ===== src/Graph/Examples.antt =====
-- The theorems at a small history.
use hunch.Base.{◌≡◌, ◌↔◌, List, [], ◌∷◌, none, some, true, Bytes, codes, contains}
use hunch.Floats.Examples.{naturals}
use hunch.Graph.{
  Graph, Entry, Observation, success, failure, unknown, new, record_obs, entry_at, or_zero,
  state_key,
}
use hunch.Graph.Observed.{concerns}
use hunch.Graph.Tallied.{record_all, Counts, record_all-Counts}
use hunch.Graph.Distinct.{IsDistinct, record_obs-IsDistinct}
use hunch.Graph.Decay.{decay, is_expired}
use hunch.Graph.Decay.Survivors.{survivor, decay-survivor}
use hunch.Graph.Decay.Orphans.{decay-orphaned}

abbrev build : Observation
build = record {
  state = codes "git pull" ∷ [];
  next = codes "make";
  at_time = 7;
  cwd = codes "/p";
  next_outcome = success;
  prior_outcome = unknown;
  accepted = true;
}

abbrev failed_build : Observation
failed_build = record build { next_outcome = failure; at_time = 9 }

abbrev history : List Observation
history = build ∷ failed_build ∷ []

abbrev pull : Bytes
pull = state_key (codes "git pull" ∷ [])

abbrev empty_graph : Graph
empty_graph = new 2

record_all-Counts_example :
    Counts
      (concerns pull (codes "make"))
      (or_zero (entry_at empty_graph pull (codes "make")))
      (or_zero (entry_at (record_all history empty_graph) pull (codes "make")))
      history
record_all-Counts_example = record_all-Counts history empty_graph pull (codes "make")

empty_graph-IsDistinct : IsDistinct empty_graph
unfolding new
empty_graph-IsDistinct = record { outer = tt; inner = tt }

abbrev built : Graph
built = record_obs build empty_graph

decay-survivor_example :
    entry_at (decay naturals 20 5 3 built).0 pull (codes "make")
    ≡ survivor (is_expired naturals 20 5 3) (entry_at built pull (codes "make"))
decay-survivor_example =
    decay-survivor naturals 20 5 3 built pull (codes "make")
      (record_obs-IsDistinct build empty_graph empty_graph-IsDistinct)

decay-orphaned_example :
    (contains (decay naturals 20 5 3 built).1.orphaned (codes "make") ≡ true) ↔ (
      ((sk : Bytes) × (e : Entry) × (entry_at built sk (codes "make") ≡ some e)
        × (is_expired naturals 20 5 3 e ≡ true))
      × ((sk : Bytes) → entry_at (decay naturals 20 5 3 built).0 sk (codes "make") ≡ none))
decay-orphaned_example =
    decay-orphaned naturals 20 5 3 built (codes "make")
      (record_obs-IsDistinct build empty_graph empty_graph-IsDistinct)
