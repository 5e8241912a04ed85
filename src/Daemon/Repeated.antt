-- ===== src/Daemon/Repeated.antt =====
-- A command that is recorded again and again is offered.
pub mod Exact
use hunch.Base.{
  ℕ, zero, suc, ◌+◌, ◌≤◌, ◌≡◌, ◌≢◌, refl, ap, subst, sym, ◌∙◌, inl, inr, true, false, not,
  Bool-cases, List, [], ◌∷◌, Option, none, some, Bytes, arith, leb, if◌then◌else◌, bytes_eq, any,
}
use hunch.Floats.{Float64}
use hunch.Normalize.{normalize}
use hunch.Redact.{is_sensitive}
use hunch.Graph.{
  Graph, Entry, Outcome, Observation, record_obs, state_key, observe, entry_at, or_zero,
}
use hunch.Graph.Observed.{entry_at-record_obs, concerns}
use hunch.Backoff.Keys.{backoff_states-Generalizes}
use hunch.Predict.{State, Suggestion, state_templates}
use hunch.Predict.Offered.{is_suggested, HasScores, predict-any}
use hunch.Config.{Options}
use hunch.Daemon.Paths.{clean}
use hunch.Daemon.Paths.Elements.{clean-ne-nil}
use hunch.Daemon.Filters.{with_min_count, keep_counted}
use hunch.Daemon.Fallback.{
  exact_directory, FallbackResult, new_predictor, query, exact_answer, or_else, or_result, climb,
  predict_fallback,
}
use hunch.Daemon.Suggest.{clean_cwd}
use hunch.Daemon.{
  Daemon, Request, handle_record, store_request, recorded_states, record_graph, observation,
  normalize_all, normalized_state,
}
use hunch.Daemon.Repeated.Exact.{any-with_min_count, climb-exact}
use hunch.Daemon.Recording.{handle_record-store, observation-concerns}

-- How often the next command was counted at the state.
abbrev count_of : Graph → List Bytes → Bytes → ℕ
count_of g state next = (or_zero (entry_at g (state_key state) next)).count

-- The same request so many times.
abbrev pub recorded_times : (Bytes → Option ℕ) → Request → ℕ → Daemon → Daemon
recorded_times request_time req zero d = d
recorded_times request_time req (suc n) d =
    recorded_times request_time req n (handle_record request_time req d).0

-- What the request after it asks: the same history in the same directory.
abbrev pub asked : List Bytes → Request → Outcome → State
asked parents req prior = record {
  previous = normalize_all parents req.state;
  cwd = clean_cwd req.cwd;
  prior_outcome = prior;
}

record_obs-counts :
    (obs : Observation) (g : Graph) (state : List Bytes) (next : Bytes)
    → count_of (record_obs obs g) state next
      ≡ count_of g state next + (if concerns (state_key state) next obs then 1 else 0)
unfolding observe
record_obs-counts obs g state next = elim (Bool-cases (concerns (state_key state) next obs)) [
  | inl e ↦
      ap (λ (o : Option Entry). (or_zero o).count)
        (entry_at-record_obs obs g (state_key state) next)
      ∙ rw e
  | inr e ↦
      ap (λ (o : Option Entry). (or_zero o).count)
        (entry_at-record_obs obs g (state_key state) next)
      ∙ rw e (omega arith)
]

module _ (parents : List Bytes) (req : Request) (at_time : ℕ) where
  record_graph-grows :
      (states : List (List Bytes)) (g : Graph) (state : List Bytes) (next : Bytes)
      → count_of g state next ≤ count_of (record_graph parents req at_time states g) state next
  unfolding record_graph
  record_graph-grows [] g state next = omega arith
  record_graph-grows (other ∷ states) g state next = omega (
    arith,
    record_obs-counts (observation parents req at_time other) g state next,
    record_graph-grows states (record_obs (observation parents req at_time other) g) state next,
  )

  record_graph-first :
      (g : Graph) (states : List (List Bytes)) (state : List Bytes) (rest : List (List Bytes))
      → states ≡ state ∷ rest
      → normalize req.next (some parents) ≢ []
      → count_of g state (normalize req.next (some parents)) + 1
        ≤ count_of
            (record_graph parents req at_time states g)
            state
            (normalize req.next (some parents))
  unfolding record_graph
  record_graph-first g states state rest split shaped =
      let next = normalize req.next (some parents) in
      let obs = observation parents req at_time state in
      let own : count_of (record_obs obs g) state next ≡ count_of g state next + 1 =
        record_obs-counts obs g state next
        ∙ rw (observation-concerns parents req at_time state shaped) in
      rw split (omega (arith, own, record_graph-grows rest (record_obs obs g) state next))

  record_graph-counts :
      (g : Graph)
      → normalize req.next (some parents) ≢ []
      → count_of g (normalized_state parents req) (normalize req.next (some parents)) + 1
        ≤ count_of
            (record_graph parents req at_time (recorded_states parents req) g)
            (normalized_state parents req)
            (normalize req.next (some parents))
  record_graph-counts g shaped =
      let (rest, split, _) =
        backoff_states-Generalizes (normalized_state parents req) (not (bytes_eq req.cwd [])) in
      record_graph-first g (recorded_states parents req) (normalized_state parents req) rest
        (unfold recorded_states in split) shaped

-- The state that is asked has the key that is recorded.
asked-key :
    (parents : List Bytes) (req : Request) (prior : Outcome)
    → state_templates (asked parents req prior) ≡ normalized_state parents req
unfolding state_templates normalized_state clean_cwd
asked-key parents req prior = by_cwd req.cwd
  where
    by_clean :
        (path : Bytes)
        → path ≢ []
        → (elim path as (λ _. List Bytes) [
          | [] ↦ normalize_all parents req.state
          | c ∷ cwd ↦ (c ∷ cwd) ∷ normalize_all parents req.state
        ])
          ≡ path ∷ normalize_all parents req.state
    by_clean [] h = absurd (h refl)
    by_clean (c ∷ path) h = refl

    by_cwd :
        (cwd : Bytes)
        → (elim (clean_cwd cwd) as (λ _. List Bytes) [
          | [] ↦ normalize_all parents req.state
          | c ∷ path ↦ (c ∷ path) ∷ normalize_all parents req.state
        ])
          ≡ (elim cwd as (λ _. List Bytes) [
            | [] ↦ normalize_all parents req.state
            | c ∷ path ↦ clean (c ∷ path) ∷ normalize_all parents req.state
          ])
    by_cwd [] = refl
    by_cwd (c ∷ cwd) = by_clean (clean (c ∷ cwd)) (clean-ne-nil (c ∷ cwd))

module _ (request_time : Bytes → Option ℕ) (req : Request) (at_time : ℕ)
    (timed : request_time req.at_text ≡ some at_time) where
  recorded_times-counts :
      (n : ℕ) (d : Daemon)
      → is_sensitive d.redactor req.next ≡ false
      → normalize req.next (some d.parents) ≢ []
      → n + count_of d.g (normalized_state d.parents req) (normalize req.next (some d.parents))
        ≤ count_of
            (recorded_times request_time req n d).g
            (normalized_state d.parents req)
            (normalize req.next (some d.parents))
  unfolding store_request
  recorded_times-counts zero d plain shaped = omega arith
  recorded_times-counts (suc n) d plain shaped =
      subst
        (λ (after : Daemon).
          suc n
            + count_of d.g (normalized_state d.parents req) (normalize req.next (some d.parents))
          ≤ count_of (recorded_times request_time req n after).g (normalized_state d.parents req)
              (normalize req.next (some d.parents)))
        (sym (handle_record-store request_time req d at_time timed plain))
        (omega (
          arith,
          recorded_times-counts n (store_request req at_time d) plain shaped,
          record_graph-counts d.parents req at_time d.g shaped,
        ))

-- A command that is recorded at least as often as suggestions must have been seen is offered at the
-- same history in the same directory, by the exact context and with such a count, at any time and
-- behind any outcome: if the times are good, the command is not sensitive and has a template, and
-- the scores of that context have a positive denominator.
pub recorded_times-offered :
    (fl : Float64) (opts : Options fl) (request_time : Bytes → Option ℕ) (req : Request)
    (d : Daemon) (at_time n : ℕ) (prior : Outcome) (later : ℕ)
    → request_time req.at_text ≡ some at_time
    → is_sensitive d.redactor req.next ≡ false
    → normalize req.next (some d.parents) ≢ []
    → 1 ≤ n
    → opts.min_count ≤ n
    → HasScores fl
        (new_predictor fl opts (recorded_times request_time req n d).g)
        (asked d.parents req prior)
        later
    → let result =
        predict_fallback fl opts
          (recorded_times request_time req n d).g
          (normalize_all d.parents req.state)
          (clean_cwd req.cwd)
          prior
          later in
      (result.level ≡ exact_directory)
      × (any (is_suggested fl (normalize req.next (some d.parents)) n) result.suggestions ≡ true)
unfolding predict_fallback query
recorded_times-offered fl opts request_time req d at_time n prior later timed plain shaped positive
      enough scores =
    let next = normalize req.next (some d.parents) in
    let g = (recorded_times request_time req n d).g in
    let known : n
        ≤ (or_zero
            (entry_at g (state_key (state_templates (asked d.parents req prior))) next)).count =
      subst (λ (state : List Bytes). n ≤ (or_zero (entry_at g (state_key state) next)).count)
        (sym (asked-key d.parents req prior))
        (omega (arith, recorded_times-counts request_time req at_time timed n d plain shaped)) in
    let offered =
      predict-any fl (new_predictor fl opts g) (asked d.parents req prior) later next n positive
        known scores in
    let kept = any-with_min_count fl next n _ opts.min_count enough offered in
    let answer =
      climb-exact fl next n (query fl opts g prior later) opts.min_confidence
        (normalize_all d.parents req.state) (clean_cwd req.cwd) kept in
    rw answer (refl, kept)
