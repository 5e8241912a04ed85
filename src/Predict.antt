-- ===== src/Predict.antt =====
-- core/predict/predict.go and core/predict/score.go: scoring and ranking the transitions of a state.
-- `sort.Slice` is an insertion sort by the same comparison.
pub mod Score
pub mod Agreement
pub mod Offered
mod Examples
use hunch.Base.{
  ℕ, zero, suc, Bool, true, false, not, ◌&&◌, ◌||◌, List, [], ◌∷◌, ◌++◌, Bytes, if◌then◌else◌, ltb,
  take, length, map,
}
use hunch.Floats.{Float64}
use hunch.Graph.{Graph, Outcome, Transition, transitions}
use hunch.Predict.Score.{ScoreParams, ScoreBreakdown, score_transitions_detailed}

-- core/types/types.go, `State`: the templates of the commands before, most recent last.
pub record State : Type 0 where
  pub previous : List Bytes
  pub cwd : Bytes
  pub prior_outcome : Outcome

pub record Predictor (fl : Float64) : Type 0 where
  pub g : Graph
  pub half_life : ℕ
  pub alpha : fl.F
  pub beta : fl.F
  pub gamma : fl.F
  pub delta : fl.F
  pub epsilon : fl.F

-- core/types/types.go, `Suggestion`
pub record Suggestion (fl : Float64) : Type 0 where
  pub template : Bytes
  pub raw : Bytes
  pub score : fl.F
  pub count : ℕ

unfoldable pub state_templates : State → List Bytes
state_templates state = elim state.cwd [
  | [] ↦ state.previous
  | c ∷ cwd ↦ (c ∷ cwd) ∷ state.previous
]

-- `if limit > 0 && len(l) > limit { l = l[:limit] }`
unfoldable pub cap {ℓ} : {A : Type ℓ} → ℕ → List A → List A
cap limit l = if ltb 0 limit && ltb limit (length l) then take limit l else l

-- core/predict/score.go, `scoredTransition`
pub record ScoredTransition (fl : Float64) : Type 0 where
  pub next : Bytes
  pub count : ℕ
  pub score : fl.F

module _ (fl : Float64) where
  unfoldable pub score_params : Predictor fl → State → ℕ → ScoreParams fl
  score_params p state at_time = record {
    half_life = p.half_life;
    alpha = p.alpha;
    beta = p.beta;
    gamma = p.gamma;
    delta = p.delta;
    epsilon = p.epsilon;
    cwd = state.cwd;
    prior_outcome = state.prior_outcome;
    at_time = at_time;
  }

  to_scored : ScoreBreakdown fl → ScoredTransition fl
  to_scored b = record { next = b.next; count = b.count; score = b.score }

  -- scoreTransitions
  score_transitions : List Transition → ScoreParams fl → List (ScoredTransition fl)
  unfolding to_scored
  score_transitions ts p = map to_scored (score_transitions_detailed fl ts p)

  to_suggestion : ScoredTransition fl → Suggestion fl
  to_suggestion s = record { template = s.next; raw = []; score = s.score; count = s.count }

  unfoldable pub predict : Predictor fl → State → ℕ → ℕ → List (Suggestion fl)
  unfolding score_params score_transitions to_suggestion
  predict p state at_time limit = elim (transitions p.g (state_templates state)) [
    | [] ↦ []
    | t ∷ ts ↦
        map to_suggestion (cap limit (score_transitions (t ∷ ts) (score_params p state at_time)))
  ]

  unfoldable pub explain : Predictor fl → State → ℕ → ℕ → List (ScoreBreakdown fl)
  unfolding score_params
  explain p state at_time limit = elim (transitions p.g (state_templates state)) [
    | [] ↦ []
    | t ∷ ts ↦ cap limit (score_transitions_detailed fl (t ∷ ts) (score_params p state at_time))
  ]
