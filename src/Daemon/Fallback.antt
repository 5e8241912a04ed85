-- ===== src/Daemon/Fallback.antt =====
-- daemon/handlers.go, predictFallback: the ladder of ever more general contexts that a prediction
-- climbs. The predictor holds a pointer to the graph of the daemon, so it is built here over the
-- graph as it is at the request. The loop over the ancestors of a directory runs on fuel, the length
-- of the directory's name and one.
pub mod Rungs
pub mod Ladder
use hunch.Base.{
  ℕ, zero, suc, ◌+◌, Bool, true, false, not, ◌&&◌, List, [], ◌∷◌, Option, none, some, Bytes,
  if◌then◌else◌, bytes_eq, length,
}
use hunch.Floats.{Float64}
use hunch.Graph.{Graph, Outcome}
use hunch.Predict.{State, Predictor, Suggestion, predict}
use hunch.Config.{Options, half_life}
use hunch.Daemon.Paths.{dir}
use hunch.Daemon.Filters.{with_min_count}

-- The labels of the rungs; the last has the number of commands that were dropped.
pub data Level : Type 0 where
  exact_directory ancestor_directory no_directory no_match : Level
  shorter_history : ℕ → Level

pub record FallbackResult (fl : Float64) : Type 0 where
  pub suggestions : List (Suggestion fl)
  pub level : Level
  pub state : List Bytes
  pub cwd : Bytes

module _ (fl : Float64) where
  -- newPredictor
  unfoldable pub new_predictor : Options fl → Graph → Predictor fl
  unfolding half_life
  new_predictor opts g = record {
    g = g;
    half_life = half_life fl opts;
    alpha = opts.alpha;
    beta = opts.beta;
    gamma = opts.gamma;
    delta = opts.delta;
    epsilon = opts.epsilon;
  }

  -- The closure `query`.
  unfoldable pub query :
      Options fl → Graph → Outcome → ℕ → List Bytes → Bytes → List (Suggestion fl)
  unfolding new_predictor
  query opts g prior at_time previous directory =
      with_min_count fl
        (predict fl (new_predictor opts g)
          (record { previous = previous; cwd = directory; prior_outcome = prior }) at_time 0)
        opts.min_count

  -- The closure `confident`.
  unfoldable pub confident : fl.F → List (Suggestion fl) → Bool
  confident min_confidence [] = false
  confident min_confidence (s ∷ sugs) = fl.le min_confidence s.score

  -- An answer of one of the broader rungs.
  unfoldable pub answer_if_confident :
      fl.F → List (Suggestion fl) → Level → List Bytes → Bytes → Option (FallbackResult fl)
  unfolding confident
  answer_if_confident min_confidence sugs level state cwd =
      if confident min_confidence sugs
      then some (record { suggestions = sugs; level = level; state = state; cwd = cwd })
      else none

  -- The first of two answers that is there.
  unfoldable pub or_else :
      Option (FallbackResult fl) → Option (FallbackResult fl) → Option (FallbackResult fl)
  or_else none second = second
  or_else (some r) second = some r

  unfoldable pub or_result : Option (FallbackResult fl) → FallbackResult fl → FallbackResult fl
  or_result none last = last
  or_result (some r) last = r

  module _ (ask : List Bytes → Bytes → List (Suggestion fl)) (min_confidence : fl.F) where
    unfoldable pub exact_answer : List Bytes → Bytes → Option (FallbackResult fl)
    exact_answer prev cwd = elim (ask prev cwd) [
      | [] ↦ none
      | s ∷ sugs ↦
          some (record { suggestions = s ∷ sugs; level = exact_directory; state = prev; cwd = cwd })
    ]

    -- The loop's test is `parent != cwd && parent != filepath.Dir(parent)`.
    unfoldable pub ancestor_answer : ℕ → List Bytes → Bytes → Bytes → Option (FallbackResult fl)
    unfolding answer_if_confident or_else dir
    ancestor_answer zero prev cwd parent = none
    ancestor_answer (suc fuel) prev cwd parent =
        let next = ancestor_answer fuel prev cwd (dir parent) in
        if not (bytes_eq parent cwd) && not (bytes_eq parent (dir parent))
        then or_else
            (answer_if_confident min_confidence (ask prev parent) ancestor_directory prev parent)
            next
        else none

    -- `trim` is the number of commands dropped so far, and one.
    unfoldable pub shorter_answer : ℕ → List Bytes → Option (FallbackResult fl)
    unfolding answer_if_confident or_else
    shorter_answer trim [] = none
    shorter_answer trim (t ∷ prev) =
        or_else (answer_if_confident min_confidence (ask prev []) (shorter_history trim) prev [])
          (shorter_answer (suc trim) prev)

    -- `if cwd != "" { … }` around the loop.
    unfoldable pub ancestors_answer : List Bytes → Bytes → Option (FallbackResult fl)
    unfolding ancestor_answer
    ancestors_answer prev [] = none
    ancestors_answer prev (c ∷ cwd) =
        ancestor_answer (suc (length (c ∷ cwd))) prev (c ∷ cwd) (dir (c ∷ cwd))

    unfoldable pub climb : List Bytes → Bytes → FallbackResult fl
    unfolding exact_answer ancestors_answer shorter_answer or_result
    climb prev cwd =
        or_result
          (or_else (exact_answer prev cwd) (
            or_else (ancestors_answer prev cwd) (
              or_else (answer_if_confident min_confidence (ask prev []) no_directory prev [])
                (shorter_answer 1 prev))))
          (record { suggestions = []; level = no_match; state = prev; cwd = cwd })

  -- predictFallback
  unfoldable pub predict_fallback :
      Options fl → Graph → List Bytes → Bytes → Outcome → ℕ → FallbackResult fl
  unfolding query climb
  predict_fallback opts g prev cwd prior at_time =
      climb (query opts g prior at_time) opts.min_confidence prev cwd

  -- predictWithFallback
  unfoldable pub predict_with_fallback :
      Options fl → Graph → List Bytes → Bytes → Outcome → ℕ → List (Suggestion fl)
  unfolding predict_fallback
  predict_with_fallback opts g prev cwd prior at_time =
      (predict_fallback opts g prev cwd prior at_time).suggestions
