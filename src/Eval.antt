-- ===== src/Eval.antt =====
-- core/eval/eval.go: the replay of a command history, where each command is predicted by what was
-- learned from the ones before it. A time is in nanoseconds since Go's zero time, so the replay
-- starts at the Unix epoch. The predictor holds a pointer to the graph, so it is built here over the
-- graph as it is at each query; the loop over ancestors runs on the length of the directory's name.
pub mod Tallies
pub mod Mirror
pub mod Twice
mod Examples
use hunch.Base.{
  ℕ, zero, suc, ◌+◌, ◌*◌, Bool, true, false, not, ◌&&◌, List, [], ◌∷◌, Bytes, if◌then◌else◌, ltb,
  leb, ◌==◌, bytes_eq, length,
}
use hunch.Base.Assoc.{Assoc, lookup, insert}
use hunch.Floats.{Float64}
use hunch.Graph.{Graph, Outcome, unknown, count_or_zero, record_obs, record_plain, new}
use hunch.Backoff.{backoff_states}
use hunch.Predict.{State, Predictor, Suggestion, predict}
use hunch.Daemon.Paths.{dir}

pub record Options (fl : Float64) : Type 0 where
  pub half_life : ℕ
  pub alpha : fl.F
  pub beta : fl.F
  pub gamma : fl.F
  pub delta : fl.F
  pub epsilon : fl.F
  pub min_confidence : fl.F
  pub min_count : ℕ
  pub warmup : ℕ
  pub interval : ℕ

pub record Command : Type 0 where
  pub template : Bytes
  pub cwd : Bytes
  pub prior_outcome : Outcome

pub record Result : Type 0 where
  pub scored : ℕ
  pub offered : ℕ
  pub top1 : ℕ
  pub top3 : ℕ
  pub top5 : ℕ
  pub baseline_top1 : ℕ

abbrev pub no_result : Result
no_result = record { scored = 0; offered = 0; top1 = 0; top3 = 0; top5 = 0; baseline_top1 = 0 }

-- The variables of the loop of `Run`.
pub record Replay : Type 0 where
  pub g : Graph
  pub freq : Assoc ℕ
  pub most_frequent : Bytes
  pub result : Result
  pub prev1 : Bytes
  pub prev2 : Bytes

abbrev pub max_rank : ℕ
max_rank = 5

abbrev pub unix_epoch : ℕ
unix_epoch = 62135596800000000000

-- A command that is found at the index `i` of the suggestions.
count_rank : ℕ → Result → Result
count_rank i r =
    if ltb i 1
    then record r { top1 = r.top1 + 1; top3 = r.top3 + 1; top5 = r.top5 + 1 }
    else if ltb i 3
    then record r { top3 = r.top3 + 1; top5 = r.top5 + 1 }
    else if ltb i max_rank
    then record r { top5 = r.top5 + 1 }
    else r

module _ (fl : Float64) where
  -- In nanoseconds: 720 hours and a minute.
  default_options : Options fl
  default_options = record {
    half_life = 2592000000000000;
    alpha = fl.decimal 5 1;
    beta = fl.decimal 75 2;
    gamma = fl.decimal 5 1;
    delta = fl.decimal 5 1;
    epsilon = fl.decimal 5 1;
    min_confidence = fl.decimal 10 2;
    min_count = 2;
    warmup = 50;
    interval = 60000000000;
  }

  rate : Result → ℕ → fl.F
  rate r n = if r.scored == 0 then fl.of_int 0 else fl.div (fl.of_int n) (fl.of_int r.scored)

  predictor : Options fl → Graph → Predictor fl
  predictor opts g = record {
    g = g;
    half_life = opts.half_life;
    alpha = opts.alpha;
    beta = opts.beta;
    gamma = opts.gamma;
    delta = opts.delta;
    epsilon = opts.epsilon;
  }

  keep_counted : ℕ → List (Suggestion fl) → List (Suggestion fl)
  keep_counted min_count [] = []
  keep_counted min_count (s ∷ sugs) =
      let rest = keep_counted min_count sugs in if leb min_count s.count then s ∷ rest else rest

  with_min_count : List (Suggestion fl) → ℕ → List (Suggestion fl)
  unfolding keep_counted
  with_min_count sugs min_count = if leb min_count 1 then sugs else keep_counted min_count sugs

  -- The closures `query`, with no directory, and `queryWithCWD`.
  pub query_with_cwd : Options fl → Graph → ℕ → List Bytes → Bytes → List (Suggestion fl)
  unfolding predictor with_min_count
  query_with_cwd opts g at_time previous directory =
      with_min_count
        (predict fl (predictor opts g)
          (record { previous = previous; cwd = directory; prior_outcome = unknown }) at_time
          max_rank)
        opts.min_count

  confident : fl.F → List (Suggestion fl) → Bool
  confident min_confidence [] = false
  confident min_confidence (s ∷ sugs) = fl.le min_confidence s.score

  -- `if s := …; confident(s) { return s }`, and what follows.
  if_confident : fl.F → List (Suggestion fl) → List (Suggestion fl) → List (Suggestion fl)
  unfolding confident
  if_confident min_confidence s rest = if confident min_confidence s then s else rest

  module _ (ask : List Bytes → Bytes → List (Suggestion fl)) (min_confidence : fl.F) where
    try_ancestors : ℕ → List Bytes → Bytes → Bytes → List (Suggestion fl) → List (Suggestion fl)
    unfolding if_confident dir
    try_ancestors zero prev cwd parent rest = rest
    try_ancestors (suc fuel) prev cwd parent rest =
        let further = try_ancestors fuel prev cwd (dir parent) rest in
        if not (bytes_eq parent cwd) && not (bytes_eq parent (dir parent))
        then if_confident min_confidence (ask prev parent) further
        else rest

    try_above : List Bytes → Bytes → List (Suggestion fl) → List (Suggestion fl)
    unfolding try_ancestors
    try_above prev [] rest = rest
    try_above prev (c ∷ cwd) rest =
        try_ancestors (suc (length (c ∷ cwd))) prev (c ∷ cwd) (dir (c ∷ cwd)) rest

    try_shorter : List Bytes → List (Suggestion fl)
    unfolding if_confident
    try_shorter [] = []
    try_shorter (t ∷ prev) = if_confident min_confidence (ask prev []) (try_shorter prev)

    climb : List Bytes → Bytes → List (Suggestion fl)
    unfolding try_above try_shorter if_confident
    climb prev cwd = elim (ask prev cwd) [
      | s ∷ sugs ↦ s ∷ sugs
      | [] ↦ try_above prev cwd (if_confident min_confidence (ask prev []) (try_shorter prev))
    ]

  -- predictWithFallback; the outcome that it is given is not used.
  pub predict_with_fallback :
      Options fl → Graph → Bytes → Bytes → Bytes → Outcome → ℕ → List (Suggestion fl)
  unfolding query_with_cwd climb
  predict_with_fallback opts g prev1 prev2 cwd prior_outcome at_time =
      climb (query_with_cwd opts g at_time) opts.min_confidence (prev1 ∷ prev2 ∷ []) cwd

  -- The loop of `score`.
  find_rank : ℕ → List (Suggestion fl) → Bytes → Result → Result
  unfolding count_rank
  find_rank i [] actual r = r
  find_rank i (s ∷ sugs) actual r =
      let rest = find_rank (i + 1) sugs actual r in
      if bytes_eq s.template actual then count_rank i r else rest

  score : Result → List (Suggestion fl) → Bytes → Result
  unfolding find_rank
  score r [] actual = r
  score r (s ∷ sugs) actual = find_rank 0 (s ∷ sugs) actual (record r { offered = r.offered + 1 })

  -- The prediction of one command, if it is behind the warmup and not empty.
  measure : Options fl → ℕ → Command → Replay → Result
  unfolding score predict_with_fallback
  measure opts i cmd st =
      if leb opts.warmup i && not (bytes_eq cmd.template [])
      then score
          (record st.result {
            scored = st.result.scored + 1;
            baseline_top1 =
                if bytes_eq st.most_frequent cmd.template
                then st.result.baseline_top1 + 1
                else st.result.baseline_top1;
          })
          (predict_with_fallback opts st.g st.prev1 st.prev2 cmd.cwd cmd.prior_outcome
            (unix_epoch + i * opts.interval))
          cmd.template
      else st.result

-- The states of one command: `[]string{prev1, prev2}`, behind a directory that is known.
state_of : Bytes → Bytes → Bytes → List Bytes
state_of prev1 prev2 [] = prev1 ∷ prev2 ∷ []
state_of prev1 prev2 (c ∷ cwd) = (c ∷ cwd) ∷ prev1 ∷ prev2 ∷ []

record_states : Bytes → ℕ → List (List Bytes) → Graph → Graph
unfolding record_obs
record_states actual at_time [] g = g
record_states actual at_time (st ∷ states) g = record_states actual at_time states (
    record_obs
      (record {
        state = st;
        next = actual;
        at_time = at_time;
        cwd = [];
        next_outcome = unknown;
        prior_outcome = unknown;
        accepted = false;
      })
      g)

-- What the graph learns from one command that is not empty.
pub learn : Bytes → Bytes → Bytes → Bytes → ℕ → Graph → Graph
unfolding record_states backoff_states state_of record_plain
learn prev1 prev2 cwd actual at_time g =
    let known =
      record_states actual at_time
        (backoff_states (state_of prev1 prev2 cwd) (not (bytes_eq cwd []))) g in
    if bytes_eq prev2 [] then known else record_plain (prev2 ∷ []) actual at_time known

-- `freq[actual]++`, and the test for the most frequent command; a missing key counts 0.
count_frequency : Bytes → Assoc ℕ → Assoc ℕ
count_frequency actual freq = insert actual (count_or_zero (lookup actual freq) + 1) freq

more_frequent : Bytes → Bytes → Assoc ℕ → Bytes
more_frequent most actual freq =
    if ltb (count_or_zero (lookup most freq)) (count_or_zero (lookup actual freq))
    then actual
    else most

abbrev fresh_replay : Replay
fresh_replay = record {
  g = new 2;
  freq = [];
  most_frequent = [];
  result = no_result;
  prev1 = [];
  prev2 = [];
}

module _ (fl : Float64) where
  -- One round of the loop of `Run`.
  replay_one : Options fl → ℕ → Command → Replay → Replay
  unfolding measure learn count_frequency more_frequent
  replay_one opts i cmd st =
      let freq = count_frequency cmd.template st.freq in
      let result = measure fl opts i cmd st in
      if bytes_eq cmd.template []
      then record st { result = result; prev1 = st.prev2; prev2 = cmd.template }
      else record {
        g = learn st.prev1 st.prev2 cmd.cwd cmd.template (unix_epoch + i * opts.interval) st.g;
        freq = freq;
        most_frequent = more_frequent st.most_frequent cmd.template freq;
        result = result;
        prev1 = st.prev2;
        prev2 = cmd.template;
      }

  replay_from : Options fl → ℕ → List Command → Replay → Replay
  unfolding replay_one
  replay_from opts i [] st = st
  replay_from opts i (cmd ∷ commands) st =
      replay_from opts (i + 1) commands (replay_one opts i cmd st)

  unfoldable pub run : Options fl → List Command → Result
  unfolding replay_from new
  run opts commands = (replay_from opts 0 commands fresh_replay).result
