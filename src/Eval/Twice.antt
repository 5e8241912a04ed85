-- ===== src/Eval/Twice.antt =====
-- How often the replay counts a command behind the one before it.
use hunch.Base.{
  bytes_eq-of_ne, and_false, ℕ, ◌+◌, ◌≤◌, ◌≡◌, ◌≢◌, ap, ◌∙◌, true, false, List, [], ◌∷◌, ◌++◌,
  Option, Bytes, arith, bytes_eq, bytes_eq_refl, bytes_eq-longer, length, length-append,
}
use hunch.Graph.{
  Graph, Entry, Observation, unknown, entry_at, or_zero, observe, record_obs, record_plain,
  state_key,
}
use hunch.Graph.Observed.{entry_at-record_obs}
use hunch.Backoff.{all_empty, backoff_states}
use hunch.Eval.{learn, record_states, state_of}

-- How often the next command was counted at the state.
abbrev pub count_at : Graph → List Bytes → Bytes → ℕ
count_at g state next = (or_zero (entry_at g (state_key state) next)).count

abbrev plain : List Bytes → Bytes → ℕ → Observation
plain state actual at_time = record {
  state = state;
  next = actual;
  at_time = at_time;
  cwd = [];
  next_outcome = unknown;
  prior_outcome = unknown;
  accepted = false;
}

module _ (prev1 prev2 actual : Bytes) (at_time : ℕ) (known : prev2 ≢ []) (named : actual ≢ []) where
  -- One recording at the state of the command before.
  counts_once :
      (g : Graph)
      → count_at (record_obs (plain (prev2 ∷ []) actual at_time) g) (prev2 ∷ []) actual
        ≡ count_at g (prev2 ∷ []) actual + 1
  unfolding observe
  counts_once g =
      ap (λ (o : Option Entry). (or_zero o).count)
        (entry_at-record_obs (plain (prev2 ∷ []) actual at_time) g (state_key (prev2 ∷ [])) actual)
      ∙ rw (
        bytes_eq-of_ne actual [] named,
        bytes_eq_refl (state_key (prev2 ∷ [])),
        bytes_eq_refl actual,
      )

  -- A recording under a longer key counts nothing there.
  counts_nothing :
      (state : List Bytes) (g : Graph)
      → length (state_key (prev2 ∷ [])) + 1 ≤ length (state_key state)
      → count_at (record_obs (plain state actual at_time) g) (prev2 ∷ []) actual
        ≡ count_at g (prev2 ∷ []) actual
  counts_nothing state g longer =
      ap (λ (o : Option Entry). (or_zero o).count)
        (entry_at-record_obs (plain state actual at_time) g (state_key (prev2 ∷ [])) actual)
      ∙ rw (
        bytes_eq-of_ne actual [] named,
        bytes_eq-longer (state_key state) (state_key (prev2 ∷ [])) longer,
      )

  long_key :
      (front : Bytes)
      → length (state_key (prev2 ∷ [])) + 1 ≤ length (state_key (front ∷ prev2 ∷ []))
  unfolding state_key
  long_key front =
      omega (arith, length-append (front ++ 0 ∷ []) prev2, length-append front (0 ∷ []))

  longer_key :
      (first front : Bytes)
      → length (state_key (prev2 ∷ [])) + 1 ≤ length (state_key (first ∷ front ∷ prev2 ∷ []))
  unfolding state_key
  longer_key first front = omega (
    arith,
    length-append (first ++ 0 ∷ []) ((front ++ 0 ∷ []) ++ prev2),
    length-append (front ++ 0 ∷ []) prev2,
    length-append front (0 ∷ []),
  )

  -- The state of the command before is one of the generalizations.
  states_without :
      backoff_states (state_of prev1 prev2 []) false ≡ (prev1 ∷ prev2 ∷ []) ∷ (prev2 ∷ []) ∷ []
  unfolding backoff_states all_empty state_of
  states_without = rw (bytes_eq-of_ne prev2 [] known)

  states_within :
      (c : ℕ) (cwd : Bytes)
      → backoff_states (state_of prev1 prev2 (c ∷ cwd)) true
        ≡ ((c ∷ cwd) ∷ prev1 ∷ prev2 ∷ []) ∷ (prev1 ∷ prev2 ∷ []) ∷ (prev2 ∷ []) ∷ []
  unfolding backoff_states all_empty state_of
  states_within c cwd = rw (bytes_eq-of_ne prev2 [] known, and_false (bytes_eq prev1 []))

  twice : (g : Graph) → Graph
  twice g =
      record_obs (plain (prev2 ∷ []) actual at_time)
        (record_obs (plain (prev2 ∷ []) actual at_time) g)

  count_at-twice :
      (g : Graph) → count_at (twice g) (prev2 ∷ []) actual ≡ count_at g (prev2 ∷ []) actual + 2
  unfolding twice
  count_at-twice g =
      omega (arith, counts_once (record_obs (plain (prev2 ∷ []) actual at_time) g), counts_once g)

  learn-without :
      (g : Graph)
      → learn prev1 prev2 [] actual at_time g
        ≡ twice (record_obs (plain (prev1 ∷ prev2 ∷ []) actual at_time) g)
  unfolding learn record_plain twice
  learn-without g =
      rw (bytes_eq-of_ne prev2 [] known) (unfold bytes_eq in rw (states_without, record_states))

  learn-within :
      (c : ℕ) (cwd : Bytes) (g : Graph)
      → learn prev1 prev2 (c ∷ cwd) actual at_time g
        ≡ twice (
            record_obs
              (plain (prev1 ∷ prev2 ∷ []) actual at_time)
              (record_obs (plain ((c ∷ cwd) ∷ prev1 ∷ prev2 ∷ []) actual at_time) g))
  unfolding learn record_plain twice
  learn-within c cwd g =
      rw (bytes_eq-of_ne prev2 [] known)
        (unfold bytes_eq in rw (states_within c cwd, record_states))

-- The replay counts a command twice behind the one before it, in whatever directory: once by the
-- generalized states, and once more on its own.
pub count_at-learn :
    (prev1 prev2 cwd actual : Bytes) (at_time : ℕ) (g : Graph)
    → prev2 ≢ []
    → actual ≢ []
    → count_at (learn prev1 prev2 cwd actual at_time g) (prev2 ∷ []) actual
      ≡ count_at g (prev2 ∷ []) actual + 2
count_at-learn prev1 prev2 [] actual at_time g known named =
    let pair = plain (prev1 ∷ prev2 ∷ []) actual at_time in
    ap (λ (l : Graph). count_at l (prev2 ∷ []) actual)
      (learn-without prev1 prev2 actual at_time known named g)
    ∙ omega (
      arith,
      count_at-twice prev1 prev2 actual at_time known named (record_obs pair g),
      counts_nothing prev1 prev2 actual at_time known named (prev1 ∷ prev2 ∷ []) g
          (long_key prev1 prev2 actual at_time known named prev1),
    )
count_at-learn prev1 prev2 (c ∷ cwd) actual at_time g known named =
    let pair = plain (prev1 ∷ prev2 ∷ []) actual at_time in
    let full = plain ((c ∷ cwd) ∷ prev1 ∷ prev2 ∷ []) actual at_time in
    ap (λ (l : Graph). count_at l (prev2 ∷ []) actual)
      (learn-within prev1 prev2 actual at_time known named c cwd g)
    ∙ omega (
      arith,
      count_at-twice prev1 prev2 actual at_time known named (record_obs pair (record_obs full g)),
      counts_nothing prev1 prev2 actual at_time known named (prev1 ∷ prev2 ∷ []) (record_obs full g)
          (long_key prev1 prev2 actual at_time known named prev1),
      counts_nothing prev1 prev2 actual at_time known named ((c ∷ cwd) ∷ prev1 ∷ prev2 ∷ []) g
          (longer_key prev1 prev2 actual at_time known named (c ∷ cwd) prev1),
    )
