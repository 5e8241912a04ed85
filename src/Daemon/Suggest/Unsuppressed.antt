-- ===== src/Daemon/Suggest/Unsuppressed.antt =====
-- handlePredict suppresses nothing, since it fills in the raw commands afterwards.
use hunch.Base.{
  ℕ, zero, suc, ◌≡◌, ap, inl, inr, not, ◌&&◌, Bool-cases, List, [], ◌∷◌, Option, none, some, Bytes,
  bytes_eq, length, All,
}
use hunch.Floats.{Float64}
use hunch.Graph.{Graph, Outcome}
use hunch.Normalize.{normalize}
use hunch.Predict.{Suggestion, cap}
use hunch.RawStore.{non_empty, collect_arg_tokens}
use hunch.RawStore.Hydrate.{hydrate}
use hunch.Config.{Options}
use hunch.Daemon.Paths.{dir}
use hunch.Daemon.Filters.{filter_by_prefix}
use hunch.Daemon.Filters.Order.{
  IsTemplate, counted-IsTemplate, keep_prefixed-IsTemplate, suppress-IsTemplate,
}
use hunch.Daemon.Fallback.{
  Level, FallbackResult, exact_directory, no_match, new_predictor, query, confident,
  answer_if_confident, or_else, or_result, exact_answer, ancestor_answer, ancestors_answer,
  shorter_answer, climb, predict_fallback, predict_with_fallback,
}
use hunch.Daemon.{Daemon, Request, normalize_all}
use hunch.Daemon.Suggest.{clean_cwd, filter_if_prefixed, candidates, handle_predict}

module _ (fl : Float64) where
  abbrev AllBare : List (Suggestion fl) → Type 0
  AllBare sugs = All (IsTemplate fl) sugs

  -- No answer, or one without raw commands.
  abbrev IsBare : Option (FallbackResult fl) → Type 0
  IsBare none = Unit
  IsBare (some r) = AllBare r.suggestions

  or_else-IsBare :
      (first second : Option (FallbackResult fl))
      → IsBare first
      → IsBare second
      → IsBare (or_else fl first second)
  unfolding or_else
  or_else-IsBare none second a b = b
  or_else-IsBare (some r) second a b = a

  answer_if_confident-IsBare :
      (least : fl.F) (sugs : List (Suggestion fl)) (level : Level) (state : List Bytes)
      (cwd : Bytes)
      → AllBare sugs
      → IsBare (answer_if_confident fl least sugs level state cwd)
  unfolding answer_if_confident
  answer_if_confident-IsBare least sugs level state cwd h =
      elim (Bool-cases (confident fl least sugs)) [ inl e ↦ rw e h | inr e ↦ rw e tt ]

  module _ (ask : List Bytes → Bytes → List (Suggestion fl)) (least : fl.F)
      (bare : (previous : List Bytes) (directory : Bytes) → AllBare (ask previous directory)) where
    exact_answer-IsBare :
        (prev : List Bytes) (cwd : Bytes) → IsBare (exact_answer fl ask least prev cwd)
    unfolding exact_answer
    exact_answer-IsBare prev cwd = by_list (ask prev cwd) (bare prev cwd)
      where
        by_list :
            (l : List (Suggestion fl))
            → AllBare l
            → IsBare (elim l as (λ _. Option (FallbackResult fl)) [
              | [] ↦ none
              | s ∷ sugs ↦ some (record {
                suggestions = s ∷ sugs;
                level = exact_directory;
                state = prev;
                cwd = cwd;
              })
            ])
        by_list [] h = tt
        by_list (s ∷ l) h = h

    ancestor_answer-IsBare :
        (fuel : ℕ) (prev : List Bytes) (cwd parent : Bytes)
        → IsBare (ancestor_answer fl ask least fuel prev cwd parent)
    unfolding ancestor_answer
    ancestor_answer-IsBare zero prev cwd parent = tt
    ancestor_answer-IsBare (suc fuel) prev cwd parent =
        elim (Bool-cases (not (bytes_eq parent cwd) && not (bytes_eq parent (dir parent)))) [
          | inl e ↦ rw e (
              or_else-IsBare _ _
                (answer_if_confident-IsBare least _ _ prev parent (bare prev parent))
                (ancestor_answer-IsBare fuel prev cwd (dir parent)))
          | inr e ↦ rw e tt
        ]

    ancestors_answer-IsBare :
        (prev : List Bytes) (cwd : Bytes) → IsBare (ancestors_answer fl ask least prev cwd)
    unfolding ancestors_answer
    ancestors_answer-IsBare prev [] = tt
    ancestors_answer-IsBare prev (c ∷ cwd) =
        ancestor_answer-IsBare (suc (length (c ∷ cwd))) prev (c ∷ cwd) (dir (c ∷ cwd))

    shorter_answer-IsBare :
        (trim : ℕ) (prev : List Bytes) → IsBare (shorter_answer fl ask least trim prev)
    unfolding shorter_answer
    shorter_answer-IsBare trim [] = tt
    shorter_answer-IsBare trim (t ∷ prev) =
        or_else-IsBare _ _ (answer_if_confident-IsBare least _ _ prev [] (bare prev []))
          (shorter_answer-IsBare (suc trim) prev)

    climb-bare :
        (prev : List Bytes) (cwd : Bytes) → AllBare (climb fl ask least prev cwd).suggestions
    unfolding climb or_result
    climb-bare prev cwd = by_result _ (
        or_else-IsBare _ _ (exact_answer-IsBare prev cwd) (
          or_else-IsBare _ _ (ancestors_answer-IsBare prev cwd) (
            or_else-IsBare _ _ (answer_if_confident-IsBare least _ _ prev [] (bare prev []))
              (shorter_answer-IsBare 1 prev))))
      where
        by_result :
            (r : Option (FallbackResult fl))
            → IsBare r
            → AllBare
                (or_result fl r (record {
                  suggestions = [];
                  level = no_match;
                  state = prev;
                  cwd = cwd;
                })).suggestions
        by_result none h = tt
        by_result (some r) h = h

  offered-bare :
      (opts : Options fl) (g : Graph) (prev : List Bytes) (cwd : Bytes) (prior : Outcome)
      (at_time : ℕ)
      → AllBare (predict_with_fallback fl opts g prev cwd prior at_time)
  unfolding predict_with_fallback predict_fallback query
  offered-bare opts g prev cwd prior at_time =
      climb-bare (query fl opts g prior at_time) opts.min_confidence
        (λ previous directory.
          counted-IsTemplate fl (new_predictor fl opts g)
            (record { previous = previous; cwd = directory; prior_outcome = prior }) at_time 0
            opts.min_count)
        prev cwd

  filter_if_prefixed-bare :
      (prefix : Bytes) (parents : List Bytes) (l : List (Suggestion fl))
      → AllBare l
      → AllBare (filter_if_prefixed fl prefix parents l)
  unfolding filter_if_prefixed filter_by_prefix
  filter_if_prefixed-bare [] parents l h = h
  filter_if_prefixed-bare (c ∷ prefix) parents l h =
      keep_prefixed-IsTemplate fl (normalize (c ∷ prefix) (some parents)) l h

-- handlePredict answers a request with a good time, in whatever directory, as if it did not
-- suppress the changes to the current directory at all: its answer is what the ladder offers,
-- tested against the prefix, cut to the limit, and only then given the raw commands that the
-- suppression looks at.
pub handle_predict-unsuppressed :
    (fl : Float64) (opts : Options fl) (request_time : Bytes → Option ℕ) (req : Request)
    (d : Daemon) (at_time : ℕ)
    → request_time req.at_text ≡ some at_time
    → handle_predict fl opts request_time req d
      ≡ some (
          hydrate fl d.raws
            (cap req.limit (
              filter_if_prefixed fl req.prefix d.parents (
                predict_with_fallback fl opts d.g
                  (normalize_all d.parents req.state)
                  (clean_cwd req.cwd)
                  req.prior_outcome
                  at_time)))
            (non_empty (normalize_all d.parents req.state))
            req.prefix
            (collect_arg_tokens req.state (some d.parents))
            at_time
            req.limit)
unfolding handle_predict candidates
handle_predict-unsuppressed fl opts request_time req d at_time good =
    let typed = filter_if_prefixed fl req.prefix d.parents (
      predict_with_fallback fl opts d.g (normalize_all d.parents req.state) (clean_cwd req.cwd)
        req.prior_outcome at_time) in
    let bare = filter_if_prefixed-bare fl req.prefix d.parents _ (
      offered-bare fl opts d.g (normalize_all d.parents req.state) (clean_cwd req.cwd)
        req.prior_outcome at_time) in
    rw (good, handle_predict)
      (ap
        (λ (l : List (Suggestion fl)). some (
          hydrate fl d.raws (cap req.limit l) (non_empty (normalize_all d.parents req.state))
            req.prefix (collect_arg_tokens req.state (some d.parents)) at_time req.limit))
        (suppress-IsTemplate fl (clean_cwd req.cwd) typed bare))
