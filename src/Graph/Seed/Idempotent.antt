-- ===== src/Graph/Seed/Idempotent.antt =====
-- Importing what is already there changes nothing.
use hunch.Base.{ℕ, ◌≤◌, ◌≡◌, some, Bytes, All}
use hunch.Base.Assoc.{Assoc, lookup}
use hunch.Graph.{Graph, Entry, Transition, entry_at, state_key}

-- The histogram has the directory, with at least this count.
abbrev HasAtLeast : Assoc ℕ → Bytes × ℕ → Type 0
HasAtLeast cwds entry = (v : ℕ) × (lookup entry.0 cwds ≡ some v) × (entry.1 ≤ v)

-- An entry has seen all that a transition says.
record Covers (t : Transition) (e : Entry) : Type 0 where
  count : t.count ≤ e.count
  last_seen : t.last_seen ≤ e.last_seen
  cwds : All (HasAtLeast e.cwds) t.cwds
  next_success : t.next_success ≤ e.next_success
  next_failure : t.next_failure ≤ e.next_failure
  prior_success : t.prior_success ≤ e.prior_success
  prior_failure : t.prior_failure ≤ e.prior_failure
  accepted : t.accepted ≤ e.accepted

-- The graph has an entry that covers the transition.
abbrev CoveredIn : Transition → Graph → Type 0
CoveredIn t g = (e : Entry) × (entry_at g (state_key t.state) t.next ≡ some e) × Covers t e
