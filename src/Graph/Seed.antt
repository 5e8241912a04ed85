-- ===== src/Graph/Seed.antt =====
-- core/graph/graph.go, `Merge` and `validateTransitions`, and core/graph/seed.go, `Validate`.
pub mod Idempotent
pub mod Refusal
mod Examples
use hunch.Base.{
  ℕ, zero, suc, ◌+◌, max, ◌≡◌, Bool, true, false, List, [], ◌∷◌, Option, none, some, Bytes,
  if◌then◌else◌, bytes_eq, ltb, ◌==◌,
}
use hunch.Base.Assoc.{Assoc, lookup, insert}
use hunch.Graph.{Graph, Entry, Transition, count_or_zero, update_entry, state_key}

-- The errors of `validateTransitions`, each with the index of its transition.
pub data MergeError : Type 0 where
  empty_state empty_next bad_count : ℕ → MergeError

pub data Validation : Type 0 where
  valid : Validation
  invalid : MergeError → Validation

unfoldable pub is_nil : List Bytes → Bool
is_nil [] = true
is_nil (s ∷ ss) = false

-- One round: the first test that fails.
unfoldable pub check_transition : ℕ → Transition → Validation
unfolding is_nil
check_transition i t =
    if is_nil t.state
    then invalid (empty_state i)
    else if bytes_eq t.next []
    then invalid (empty_next i)
    else if t.count == 0
    then invalid (bad_count i)
    else valid

unfoldable pub validate_from : ℕ → List Transition → Validation
unfolding check_transition
validate_from i [] = valid
validate_from i (t ∷ ts) =
    let rest = validate_from (i + 1) ts in
    elim (check_transition i t) [ valid ↦ rest | invalid e ↦ invalid e ]

unfoldable pub validate_transitions : List Transition → Validation
unfolding validate_from
validate_transitions seed = validate_from 0 seed

-- `for cwd, c := range t.CWDs { e.cwds[cwd] = max(e.cwds[cwd], c) }`
unfoldable pub merge_cwds : Assoc ℕ → Assoc ℕ → Assoc ℕ
merge_cwds [] cwds = cwds
merge_cwds ((cwd, c) ∷ more) cwds =
    merge_cwds more (insert cwd (max (count_or_zero (lookup cwd cwds)) c) cwds)

unfoldable pub merge_entry : Transition → Entry → Entry
unfolding merge_cwds
merge_entry t e = record {
  count = max e.count t.count;
  last_seen = if ltb e.last_seen t.last_seen then t.last_seen else e.last_seen;
  cwds = merge_cwds t.cwds e.cwds;
  next_success = max e.next_success t.next_success;
  next_failure = max e.next_failure t.next_failure;
  prior_success = max e.prior_success t.prior_success;
  prior_failure = max e.prior_failure t.prior_failure;
  accepted = max e.accepted t.accepted;
}

unfoldable pub merge_one : Transition → Graph → Graph
unfolding merge_entry
merge_one t g = update_entry (state_key t.state) t.next (merge_entry t) g

unfoldable pub merge_loop : List Transition → Graph → Graph
unfolding merge_one
merge_loop [] g = g
merge_loop (t ∷ ts) g = merge_loop ts (merge_one t g)

pub data MergeResult : Type 0 where
  merged : Graph → MergeResult
  rejected : MergeError → Graph → MergeResult

-- The graph that `Merge` leaves stands beside its error too.
unfoldable pub merge_checked : Validation → List Transition → Graph → MergeResult
merge_checked valid seed g = merged (merge_loop seed g)
merge_checked (invalid e) seed g = rejected e g

unfoldable pub merge : List Transition → Graph → MergeResult
unfolding merge_loop validate_transitions merge_checked
merge seed g = merge_checked (validate_transitions seed) seed g

abbrev pub graph_of : MergeResult → Graph
graph_of (merged g) = g
graph_of (rejected e g) = g

-- core/graph/seed.go
pub data SeedError : Type 0 where
  no_transitions : SeedError
  no_last_seen : ℕ → Bytes → SeedError

check_times : ℕ → List Transition → Option SeedError
check_times i [] = none
check_times i (t ∷ ts) =
    let rest = check_times (i + 1) ts in
    if t.last_seen == 0 then some (no_last_seen i t.next) else rest

unfoldable pub validate_seed : List Transition → Option SeedError
unfolding check_times
validate_seed [] = some no_transitions
validate_seed (t ∷ ts) = check_times 0 (t ∷ ts)
