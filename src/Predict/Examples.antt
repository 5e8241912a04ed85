-- ===== src/Predict/Examples.antt =====
-- The theorems at a small graph.
use hunch.Base.{◌≡◌, List, [], ◌∷◌, Bytes, codes, map}
use hunch.Floats.Examples.{naturals}
use hunch.Graph.{Graph, Transition, unknown, new, record_plain}
use hunch.Predict.{State, Predictor, predict, explain}
use hunch.Predict.Score.{ScoreParams}
use hunch.Predict.Agreement.{summary, predict-explain}

abbrev pulled : List Bytes
pulled = codes "git pull" ∷ []

abbrev learned : Graph
learned = record_plain pulled (codes "ls") 4 (record_plain pulled (codes "make") 3 (new 2))

abbrev predictor : Predictor naturals
predictor = record {
  g = learned;
  half_life = 10;
  alpha = 1;
  beta = 1;
  gamma = 1;
  delta = 1;
  epsilon = 1;
}

abbrev after_pull : State
after_pull = record { previous = pulled; cwd = []; prior_outcome = unknown }

predict-explain_example :
    predict naturals predictor after_pull 9 1
    ≡ map (summary naturals) (explain naturals predictor after_pull 9 1)
predict-explain_example = predict-explain naturals predictor after_pull 9 1

abbrev make_run : Transition
make_run = record {
  state = pulled;
  next = codes "make";
  count = 2;
  last_seen = 3;
  cwds = [];
  next_success = 0;
  next_failure = 0;
  prior_success = 0;
  prior_failure = 0;
  accepted = 0;
}

abbrev runs : List Transition
runs = make_run ∷ record make_run { next = codes "ls"; count = 5 } ∷ []

abbrev params : ScoreParams naturals
params = record {
  half_life = 10;
  alpha = 1;
  beta = 1;
  gamma = 1;
  delta = 1;
  epsilon = 1;
  cwd = [];
  prior_outcome = unknown;
  at_time = 9;
}
