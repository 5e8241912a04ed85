-- ===== src/Graph.antt =====
-- core/graph/graph.go: the transition counts behind every prediction. An association list stands
-- for each Go map, and times are nanoseconds since Go's zero time, which is 0. The mutex makes
-- each operation one step. The counters are natural numbers: none is ever decremented, and a
-- negative number in a seed has the effect of 0.
pub mod Observed
pub mod Tallied
pub mod Seed
pub mod Decay
pub mod Distinct
pub mod Export
mod Examples
use hunch.Base.{
  ℕ, zero, suc, ◌+◌, ◌-◌, max, Bool, true, false, not, ◌&&◌, ◌||◌, List, [], ◌∷◌, ◌++◌, Option,
  none, some, Bytes, codes, ◌==◌, ltb, leb, if◌then◌else◌, any, bytes_eq, contains, length, map,
}
use hunch.Base.Assoc.{Assoc, lookup, insert}
use hunch.Normalize.{join}

-- core/types/types.go, `Outcome`; `other` is any string beside the three constants.
pub data Outcome : Type 0 where
  unknown success failure other : Outcome

pub record Transition : Type 0 where
  pub state : List Bytes
  pub next : Bytes
  pub count : ℕ
  pub last_seen : ℕ
  pub cwds : Assoc ℕ
  pub next_success : ℕ
  pub next_failure : ℕ
  pub prior_success : ℕ
  pub prior_failure : ℕ
  pub accepted : ℕ

pub record Observation : Type 0 where
  pub state : List Bytes
  pub next : Bytes
  pub at_time : ℕ
  pub cwd : Bytes
  pub next_outcome : Outcome
  pub prior_outcome : Outcome
  pub accepted : Bool

pub record Entry : Type 0 where
  pub count : ℕ
  pub last_seen : ℕ
  pub cwds : Assoc ℕ
  pub next_success : ℕ
  pub next_failure : ℕ
  pub prior_success : ℕ
  pub prior_failure : ℕ
  pub accepted : ℕ

-- `&entry{}`
abbrev pub zero_entry : Entry
zero_entry = record {
  count = 0;
  last_seen = 0;
  cwds = [];
  next_success = 0;
  next_failure = 0;
  prior_success = 0;
  prior_failure = 0;
  accepted = 0;
}

pub record Graph : Type 0 where
  pub window_size : ℕ
  pub m : Assoc (Assoc Entry)

unfoldable pub new : ℕ → Graph
new window_size = record { window_size = if ltb window_size 1 then 1 else window_size; m = [] }

-- The null byte.
abbrev pub separator : Bytes
separator = 0 ∷ []

unfoldable pub state_key : List Bytes → Bytes
unfolding join
state_key state = join state separator

-- A missing map reads as an empty one, and a missing entry as a new one.
abbrev pub or_empty : Option (Assoc Entry) → Assoc Entry
or_empty none = []
or_empty (some inner) = inner

abbrev pub or_zero : Option Entry → Entry
or_zero none = zero_entry
or_zero (some e) = e

abbrev pub count_or_zero : Option ℕ → ℕ
count_or_zero none = 0
count_or_zero (some c) = c

-- The two lookups of `RecordObs` in a row.
abbrev pub entry_at : Graph → Bytes → Bytes → Option Entry
entry_at g sk next = lookup next (or_empty (lookup sk g.m))

-- Both `RecordObs` and `Merge` find or create the entry and change it.
pub update_entry : Bytes → Bytes → (Entry → Entry) → Graph → Graph
update_entry sk next change g =
    let inner = or_empty (lookup sk g.m) in
    record g { m = insert sk (insert next (change (or_zero (lookup next inner))) inner) g.m }

unfoldable pub bump : Bool → ℕ → ℕ
bump b n = if b then n + 1 else n

abbrev pub is_success : Outcome → Bool
is_success success = true
is_success _ = false

abbrev pub is_failure : Outcome → Bool
is_failure failure = true
is_failure _ = false

unfoldable pub count_cwd : Bytes → Assoc ℕ → Assoc ℕ
count_cwd [] cwds = cwds
count_cwd (c ∷ cwd) cwds = insert (c ∷ cwd) (count_or_zero (lookup (c ∷ cwd) cwds) + 1) cwds

-- What one observation does to its entry.
unfoldable pub observe : Observation → Entry → Entry
unfolding bump count_cwd
observe obs e = record {
  count = e.count + 1;
  last_seen = if ltb e.last_seen obs.at_time then obs.at_time else e.last_seen;
  cwds = count_cwd obs.cwd e.cwds;
  next_success = bump (is_success obs.next_outcome) e.next_success;
  next_failure = bump (is_failure obs.next_outcome) e.next_failure;
  prior_success = bump (is_success obs.prior_outcome) e.prior_success;
  prior_failure = bump (is_failure obs.prior_outcome) e.prior_failure;
  accepted = bump obs.accepted e.accepted;
}

unfoldable pub record_obs : Observation → Graph → Graph
unfolding update_entry observe state_key
record_obs obs g =
    if bytes_eq obs.next [] then g else update_entry (state_key obs.state) obs.next (observe obs) g

-- `Record`
unfoldable pub record_plain : List Bytes → Bytes → ℕ → Graph → Graph
unfolding record_obs
record_plain state next at_time = record_obs (record {
  state = state;
  next = next;
  at_time = at_time;
  cwd = [];
  next_outcome = unknown;
  prior_outcome = unknown;
  accepted = false;
})

-- `Size`: the entries of all inner maps.
unfoldable pub size_of : Assoc (Assoc Entry) → ℕ
size_of [] = 0
size_of ((sk, inner) ∷ m) = length inner + size_of m

unfoldable pub size : Graph → ℕ
unfolding size_of
size g = size_of g.m

unfoldable pub entry_to_transition : List Bytes → Bytes → Entry → Transition
entry_to_transition state next e = record {
  state = state;
  next = next;
  count = e.count;
  last_seen = e.last_seen;
  cwds = e.cwds;
  next_success = e.next_success;
  next_failure = e.next_failure;
  prior_success = e.prior_success;
  prior_failure = e.prior_failure;
  accepted = e.accepted;
}

-- The loop of `Transitions` over one inner map.
unfoldable pub transitions_of : List Bytes → Assoc Entry → List Transition
unfolding entry_to_transition
transitions_of state [] = []
transitions_of state ((next, e) ∷ inner) =
    entry_to_transition state next e ∷ transitions_of state inner

unfoldable pub transitions : Graph → List Bytes → List Transition
unfolding transitions_of state_key
transitions g state = transitions_of state (or_empty (lookup (state_key state) g.m))
