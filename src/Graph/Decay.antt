-- ===== src/Graph/Decay.antt =====
-- core/graph/graph.go, `Decay`: forgetting what has faded.
pub mod Survivors
pub mod Removed
pub mod Orphans
use hunch.Base.{
  ℕ, zero, suc, ◌+◌, ◌-◌, Bool, true, false, not, ◌&&◌, ◌||◌, List, [], ◌∷◌, ◌++◌, Option, none,
  some, Bytes, ltb, if◌then◌else◌, contains, map, split,
}
use hunch.Base.Assoc.{Assoc}
use hunch.Floats.{Float64}
use hunch.Graph.{Graph, Entry, Transition}

-- `Transition{State: stateCopy, Next: next}`
abbrev pub pruned_transition : List Bytes → Bytes → Transition
pruned_transition state next = record {
  state = state;
  next = next;
  count = 0;
  last_seen = 0;
  cwds = [];
  next_success = 0;
  next_failure = 0;
  prior_success = 0;
  prior_failure = 0;
  accepted = 0;
}

pub record DecayResult : Type 0 where
  pub pruned : List Transition
  pub orphaned : List Bytes

-- `weight < epsilon || stale`, with `at` the time of the sweep. An age above `max_idle`, which is
-- positive there, is the same over the truncated difference.
unfoldable pub is_expired : Float64 → ℕ → ℕ → ℕ → Entry → Bool
is_expired fl at_time half_life max_idle e =
    let age = fl.elapsed at_time e.last_seen in
    let decay = fl.exp (fl.div (fl.mul (fl.neg fl.ln2) age) (fl.of_int half_life)) in
    let weight = fl.mul (fl.of_int e.count) decay in
    fl.lt weight (fl.decimal 1 3) || (ltb 0 max_idle && ltb max_idle (at_time - e.last_seen))

module _ (expired : Entry → Bool) where
  -- The inner loop: what is deleted of a map, and what stays.
  pub prune_inner : List Bytes → Assoc Entry → List Transition
  prune_inner state [] = []
  prune_inner state ((next, e) ∷ inner) =
      let rest = prune_inner state inner in
      if expired e then pruned_transition state next ∷ rest else rest

  keep_inner : Assoc Entry → Assoc Entry
  keep_inner [] = []
  keep_inner ((next, e) ∷ inner) =
      let rest = keep_inner inner in if expired e then rest else (next, e) ∷ rest

  -- The outer loop: the state is read back from its key.
  pub prune_outer : Assoc (Assoc Entry) → List Transition
  unfolding prune_inner
  prune_outer [] = []
  prune_outer ((sk, inner) ∷ m) = prune_inner (split 0 sk) inner ++ prune_outer m

  -- `if len(inner) == 0 { delete(g.m, sk) }`
  put_back : Bytes → Assoc Entry → Assoc (Assoc Entry) → Assoc (Assoc Entry)
  put_back sk [] m = m
  put_back sk (x ∷ inner) m = (sk, x ∷ inner) ∷ m

  keep_outer : Assoc (Assoc Entry) → Assoc (Assoc Entry)
  unfolding keep_inner put_back
  keep_outer [] = []
  keep_outer ((sk, inner) ∷ m) = put_back sk (keep_inner inner) (keep_outer m)

pub keys_of : Assoc Entry → List Bytes
keys_of [] = []
keys_of ((next, e) ∷ inner) = next ∷ keys_of inner

-- The set `remaining` of the next commands that survive.
pub remaining : Assoc (Assoc Entry) → List Bytes
unfolding keys_of
remaining [] = []
remaining ((sk, inner) ∷ m) = keys_of inner ++ remaining m

-- The last loop: `seen` and `orphaned` hold the same texts.
orphans : List Bytes → List Bytes → List Transition → List Bytes
orphans kept orphaned [] = orphaned
orphans kept orphaned (t ∷ pruned) =
    orphans kept
      (if contains kept t.next || contains orphaned t.next
        then orphaned
        else orphaned ++ t.next ∷ [])
      pruned

decay_result : List Bytes → List Transition → DecayResult
unfolding orphans
decay_result kept [] = record { pruned = []; orphaned = [] }
decay_result kept (t ∷ pruned) = record {
  pruned = t ∷ pruned;
  orphaned = orphans kept [] (t ∷ pruned);
}

sweep : (Entry → Bool) → Graph → Graph × DecayResult
unfolding prune_outer keep_outer remaining decay_result
sweep expired g =
    let m = keep_outer expired g.m in
    (record g { m = m }, decay_result (remaining m) (prune_outer expired g.m))

unfoldable pub decay : Float64 → ℕ → ℕ → ℕ → Graph → Graph × DecayResult
unfolding sweep
decay fl at_time half_life max_idle = sweep (is_expired fl at_time half_life max_idle)
