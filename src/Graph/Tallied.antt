-- ===== src/Graph/Tallied.antt =====
-- The graph against the history that it was recorded from.
use hunch.Base.{
  ℕ, ◌+◌, ◌≤◌, max, ◌≡◌, refl, ap, ◌∙◌, subst, Bool, true, false, List, [], ◌∷◌, Option, some,
  Bytes, arith, if◌then◌else◌, ◌&&◌,
}
use hunch.Base.Assoc.{Assoc, lookup, insert}
use hunch.Graph.{
  Graph, Entry, Observation, entry_at, or_zero, observe, bump, count_cwd, count_or_zero, is_success,
  is_failure, record_obs,
}
use hunch.Graph.Observed.{concerns, entry_at-record_obs}

-- Recording a history, oldest first.
pub record_all : List Observation → Graph → Graph
record_all [] g = g
record_all (obs ∷ history) g = record_all history (record_obs obs g)

-- How many observations of a history pass a test.
abbrev pub tally : (Observation → Bool) → List Observation → ℕ
tally p [] = 0
tally p (obs ∷ history) = (if p obs then 1 else 0) + tally p history

-- The time of the latest observation that passes a test, or `t` if that is later.
abbrev pub latest : (Observation → Bool) → ℕ → List Observation → ℕ
latest p t [] = t
latest p t (obs ∷ history) = latest p (if p obs then max t obs.at_time else t) history

-- An entry counts what a history says of one state and next command.
pub record Counts (c : Observation → Bool) (before after : Entry) (history : List Observation)
    : Type 0 where
  pub count : after.count ≡ before.count + tally c history
  pub last_seen : after.last_seen ≡ latest c before.last_seen history
  pub next_success :
      after.next_success
      ≡ before.next_success + tally (λ o. c o && is_success o.next_outcome) history
  pub next_failure :
      after.next_failure
      ≡ before.next_failure + tally (λ o. c o && is_failure o.next_outcome) history
  pub prior_success :
      after.prior_success
      ≡ before.prior_success + tally (λ o. c o && is_success o.prior_outcome) history
  pub prior_failure :
      after.prior_failure
      ≡ before.prior_failure + tally (λ o. c o && is_failure o.prior_outcome) history
  pub accepted : after.accepted ≡ before.accepted + tally (λ o. c o && o.accepted) history

Counts-step :
    (c : Observation → Bool) (obs : Observation) (history : List Observation) (before after : Entry)
    → Counts c (if c obs then observe obs before else before) after history
    → Counts c before after (obs ∷ history)
unfolding observe bump
Counts-step c obs history before after k = record {
  count = ground (arith, k.count);
  last_seen = k.last_seen ∙ ap (λ (t : ℕ). latest c t history) (later (c obs));
  next_success = ground (arith, k.next_success);
  next_failure = ground (arith, k.next_failure);
  prior_success = ground (arith, k.prior_success);
  prior_failure = ground (arith, k.prior_failure);
  accepted = ground (arith, k.accepted);
}
  where
    later :
        (b : Bool)
        → (if b then observe obs before else before).last_seen
          ≡ (if b then max before.last_seen obs.at_time else before.last_seen)
    later true = ground arith
    later false = refl

or_zero-if :
    (b : Bool) (e : Entry) (o : Option Entry)
    → or_zero (if b then some e else o) ≡ (if b then e else or_zero o)
or_zero-if true e o = refl
or_zero-if false e o = refl

Counts-nil : (c : Observation → Bool) (e : Entry) → Counts c e e []
Counts-nil c e = record {
  count = omega arith;
  last_seen = refl;
  next_success = omega arith;
  next_failure = omega arith;
  prior_success = omega arith;
  prior_failure = omega arith;
  accepted = omega arith;
}

-- After any history is recorded, the entry of a state and a next command has counted exactly the
-- observations of that state and next command: their number, those that ended in success or in
-- failure, those behind a success or a failure, those accepted, and the time of the latest; on
-- top of what it held before.
pub record_all-Counts :
    (history : List Observation) (g : Graph) (sk next : Bytes)
    → Counts
        (concerns sk next)
        (or_zero (entry_at g sk next))
        (or_zero (entry_at (record_all history g) sk next))
        history
unfolding record_all
record_all-Counts [] g sk next = Counts-nil (concerns sk next) (or_zero (entry_at g sk next))
record_all-Counts (obs ∷ history) g sk next =
    let e = or_zero (entry_at g sk next) in
    let recorded : or_zero (entry_at (record_obs obs g) sk next)
        ≡ (if concerns sk next obs then observe obs e else e) =
      ap or_zero (entry_at-record_obs obs g sk next)
      ∙ or_zero-if (concerns sk next obs) (observe obs e) (entry_at g sk next) in
    Counts-step (concerns sk next) obs history e _ (
      subst
        (λ (x : Entry).
          Counts (concerns sk next) x
            (or_zero (entry_at (record_all history (record_obs obs g)) sk next)) history)
        recorded (record_all-Counts history (record_obs obs g) sk next))

-- The sum of a histogram.
abbrev pub total : Assoc ℕ → ℕ
total [] = 0
total ((k, n) ∷ m) = n + total m

-- No counter of an entry passes its number of observations.
pub record IsTallied (e : Entry) : Type 0 where
  pub outcomes : e.next_success + e.next_failure ≤ e.count
  pub priors : e.prior_success + e.prior_failure ≤ e.count
  pub acceptances : e.accepted ≤ e.count
  pub places : total e.cwds ≤ e.count

total-insert :
    (k : Bytes) (m : Assoc ℕ) → total (insert k (count_or_zero (lookup k m) + 1) m) ≡ total m + 1
unfolding insert lookup
total-insert k [] = refl
total-insert k ((j, n) ∷ m) = ground (arith, total-insert k m)

total-count_cwd : (cwd : Bytes) (m : Assoc ℕ) → total (count_cwd cwd m) ≤ total m + 1
unfolding count_cwd
total-count_cwd [] m = omega arith
total-count_cwd (c ∷ cwd) m = omega (arith, total-insert (c ∷ cwd) m)

observe-IsTallied : (obs : Observation) {e : Entry} → IsTallied e → IsTallied (observe obs e)
unfolding observe bump
observe-IsTallied obs {e} h = record {
  outcomes = ground arith;
  priors = ground arith;
  acceptances = ground arith;
  places = omega (arith, total-count_cwd obs.cwd e.cwds);
}

-- In a graph that is only recorded into, the outcomes, the outcomes of the command before, the
-- acceptances and the directories of an entry are each at most as many as its observations.
pub record_all-IsTallied :
    (history : List Observation) (g : Graph) (sk next : Bytes)
    → IsTallied (or_zero (entry_at g sk next))
    → IsTallied (or_zero (entry_at (record_all history g) sk next))
unfolding record_all
record_all-IsTallied [] g sk next h = h
record_all-IsTallied (obs ∷ history) g sk next h =
    record_all-IsTallied history (record_obs obs g) sk next
      (rw (entry_at-record_obs obs g sk next) (kept (concerns sk next obs)))
  where
    kept :
        (b : Bool)
        → IsTallied (
            or_zero
              (if b then some (observe obs (or_zero (entry_at g sk next))) else entry_at g sk next))
    kept true = observe-IsTallied obs h
    kept false = h
