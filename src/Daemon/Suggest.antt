-- ===== src/Daemon/Suggest.antt =====
-- daemon/handlers.go, handlePredict and handleExplain: the suggestions for a prompt, and the reasons
-- for them. Neither changes the daemon.
pub mod Shown
pub mod Unsuppressed
mod Examples
use hunch.Base.{
  ℕ, zero, suc, Bool, true, false, List, [], ◌∷◌, Option, none, some, Bytes, if◌then◌else◌, ltb,
  length,
}
use hunch.Floats.{Float64}
use hunch.Predict.{State, Suggestion, cap, explain}
use hunch.Predict.Score.{ScoreBreakdown}
use hunch.RawStore.{RawStore, non_empty, collect_arg_tokens}
use hunch.RawStore.Hydrate.{RawScore, max_hydration_candidates, top_n, hydrate}
use hunch.Config.{Options}
use hunch.Daemon.Paths.{clean}
use hunch.Daemon.Filters.{filter_by_prefix, suppress_cd_to_current}
use hunch.Daemon.Fallback.{
  Level, FallbackResult, new_predictor, predict_fallback, predict_with_fallback,
}
use hunch.Daemon.{Daemon, Request, normalize_all}

-- ipc/ipc.go, `ScoreBreakdownJSON`: a breakdown with the commands that compete for its template.
pub record Explained (fl : Float64) : Type 0 where
  pub breakdown : ScoreBreakdown fl
  pub hydration_candidates : List (RawScore fl)

pub record ExplainResponse (fl : Float64) : Type 0 where
  pub level : Level
  pub state : List Bytes
  pub cwd : Bytes
  pub min_confidence : fl.F
  pub min_count : ℕ
  pub breakdown : List (Explained fl)

-- `if cwd != "" { cwd = filepath.Clean(cwd) }`
unfoldable pub clean_cwd : Bytes → Bytes
unfolding clean
clean_cwd [] = []
clean_cwd (c ∷ cwd) = clean (c ∷ cwd)

module _ (fl : Float64) where
  pub filter_if_prefixed : Bytes → List Bytes → List (Suggestion fl) → List (Suggestion fl)
  filter_if_prefixed [] parents sugs = sugs
  filter_if_prefixed (c ∷ prefix) parents sugs = filter_by_prefix fl sugs (c ∷ prefix) parents

  -- The suggestions before their commands are filled in.
  candidates : Options fl → Daemon → Request → ℕ → List (Suggestion fl)
  unfolding filter_if_prefixed suppress_cd_to_current cap normalize_all clean_cwd
  candidates opts d req at_time =
      let prev = normalize_all d.parents req.state in
      let cwd = clean_cwd req.cwd in
      cap req.limit (
        suppress_cd_to_current fl
          (filter_if_prefixed req.prefix d.parents
            (predict_with_fallback fl opts d.g prev cwd req.prior_outcome at_time))
          cwd)

  -- `none` is the error of a bad time.
  unfoldable pub handle_predict :
      Options fl → (Bytes → Option ℕ) → Request → Daemon → Option (List (Suggestion fl))
  unfolding candidates
  handle_predict opts request_time req d = elim (request_time req.at_text) [
    | none ↦ none
    | some at_time ↦ some (
        hydrate fl d.raws (candidates opts d req at_time)
          (non_empty (normalize_all d.parents req.state)) req.prefix
          (collect_arg_tokens req.state (some d.parents)) at_time req.limit)
  ]

  -- A single candidate, or none, is not ambiguous.
  ambiguous : List (RawScore fl) → List (RawScore fl)
  ambiguous ranked = if ltb (length ranked) 2 then [] else ranked

  explain_one : RawStore → List Bytes → Bytes → List Bytes → ℕ → ScoreBreakdown fl → Explained fl
  unfolding ambiguous
  explain_one raws state prefix arg_tokens at_time b = record {
    breakdown = b;
    hydration_candidates =
        ambiguous (top_n fl raws state b.next prefix arg_tokens at_time max_hydration_candidates);
  }

  explain_all :
      RawStore
      → List Bytes
      → Bytes
      → List Bytes
      → ℕ
      → List (ScoreBreakdown fl)
      → List (Explained fl)
  unfolding explain_one
  explain_all raws state prefix arg_tokens at_time [] = []
  explain_all raws state prefix arg_tokens at_time (b ∷ bs) =
      explain_one raws state prefix arg_tokens at_time b
      ∷ explain_all raws state prefix arg_tokens at_time bs

  limit_or_five : ℕ → ℕ
  limit_or_five zero = 5
  limit_or_five (suc limit) = suc limit

  explain_at : Options fl → Daemon → Request → ℕ → FallbackResult fl → ExplainResponse fl
  unfolding explain_all limit_or_five
  explain_at opts d req at_time fr =
      let state = non_empty fr.state in
      record {
        level = fr.level;
        state = state;
        cwd = fr.cwd;
        min_confidence = opts.min_confidence;
        min_count = opts.min_count;
        breakdown =
            explain_all d.raws state req.prefix (collect_arg_tokens req.state (some d.parents))
              at_time
              (explain fl (new_predictor fl opts d.g)
                (record { previous = fr.state; cwd = fr.cwd; prior_outcome = req.prior_outcome })
                at_time (limit_or_five req.limit));
      }

  unfoldable pub handle_explain :
      Options fl → (Bytes → Option ℕ) → Request → Daemon → Option (ExplainResponse fl)
  unfolding explain_at normalize_all clean_cwd
  handle_explain opts request_time req d = elim (request_time req.at_text) [
    | none ↦ none
    | some at_time ↦ some (
        explain_at opts d req at_time (
          predict_fallback fl opts d.g (normalize_all d.parents req.state) (clean_cwd req.cwd)
            req.prior_outcome at_time))
  ]
