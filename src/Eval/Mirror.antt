-- ===== src/Eval/Mirror.antt =====
-- The replay asks the contexts of a command in the daemon's order.
use hunch.Base.{
  ℕ, zero, suc, ◌≡◌, refl, sym, ap, ◌∙◌, inl, inr, not, ◌&&◌, Bool-cases, List, [], ◌∷◌, Option,
  none, some, Bytes, bytes_eq, length,
}
use hunch.Floats.{Float64}
use hunch.Graph.{Graph, Outcome}
use hunch.Predict.{Suggestion}
use hunch.Daemon.Paths.{dir}
use hunch.Daemon.Fallback.{
  Level, FallbackResult, no_match, no_directory, ancestor_directory, shorter_history,
  exact_directory, answer_if_confident, or_else, or_result, exact_answer, ancestor_answer,
  shorter_answer, ancestors_answer,
}
use hunch.Daemon.Fallback
use hunch.Eval.{
  Options, confident, if_confident, try_ancestors, try_above, try_shorter, climb, query_with_cwd,
  predict_with_fallback,
}

module _ (fl : Float64) where
  confident-daemon :
      (c : fl.F) (l : List (Suggestion fl)) → confident fl c l ≡ Fallback.confident fl c l
  unfolding confident Fallback.confident
  confident-daemon c [] = refl
  confident-daemon c (s ∷ l) = refl

  -- One rung, in front of what follows.
  if_confident-daemon :
      (c : fl.F) (l : List (Suggestion fl)) (level : Level) (state : List Bytes) (cwd : Bytes)
      (behind : Option (FallbackResult fl)) (last : FallbackResult fl)
      → (or_result fl
          (or_else fl (answer_if_confident fl c l level state cwd) behind)
          last).suggestions
        ≡ if_confident fl c l (or_result fl behind last).suggestions
  unfolding if_confident answer_if_confident or_else or_result
  if_confident-daemon c l level state cwd behind last =
      elim (Bool-cases (Fallback.confident fl c l)) [
        | inl e ↦ rw (confident-daemon c l, e)
        | inr e ↦ rw (confident-daemon c l, e)
      ]

  or_else_assoc :
      (a b c : Option (FallbackResult fl))
      → or_else fl (or_else fl a b) c ≡ or_else fl a (or_else fl b c)
  unfolding or_else
  or_else_assoc none b c = refl
  or_else_assoc (some r) b c = refl

  module _ (ask : List Bytes → Bytes → List (Suggestion fl)) (c : fl.F) (last : FallbackResult fl)
      (unmatched : last.suggestions ≡ []) where
    try_ancestors-daemon :
        (fuel : ℕ) (prev : List Bytes) (cwd parent : Bytes) (behind : Option (FallbackResult fl))
        → (or_result fl
            (or_else fl (ancestor_answer fl ask c fuel prev cwd parent) behind)
            last).suggestions
          ≡ try_ancestors fl ask c fuel prev cwd parent (or_result fl behind last).suggestions
    unfolding ancestor_answer try_ancestors
    try_ancestors-daemon zero prev cwd parent behind = unfold or_else in refl
    try_ancestors-daemon (suc fuel) prev cwd parent behind =
        let further = try_ancestors-daemon fuel prev cwd (dir parent) behind in
        elim (Bool-cases (not (bytes_eq parent cwd) && not (bytes_eq parent (dir parent)))) [
          | inr e ↦ rw e (unfold or_else in refl)
          | inl e ↦
              rw (e, or_else_assoc)
                (if_confident-daemon c (ask prev parent) ancestor_directory prev parent
                    (or_else fl (ancestor_answer fl ask c fuel prev cwd (dir parent)) behind) last
                  ∙ ap (if_confident fl c (ask prev parent)) further)
        ]

    try_above-daemon :
        (prev : List Bytes) (cwd : Bytes) (behind : Option (FallbackResult fl))
        → (or_result fl (or_else fl (ancestors_answer fl ask c prev cwd) behind) last).suggestions
          ≡ try_above fl ask c prev cwd (or_result fl behind last).suggestions
    unfolding ancestors_answer try_above
    try_above-daemon prev [] behind = unfold or_else in refl
    try_above-daemon prev (x ∷ cwd) behind =
        try_ancestors-daemon (suc (length (x ∷ cwd))) prev (x ∷ cwd) (dir (x ∷ cwd)) behind

    try_shorter-daemon :
        (n : ℕ) (prev : List Bytes)
        → (or_result fl (shorter_answer fl ask c n prev) last).suggestions
          ≡ try_shorter fl ask c prev
    unfolding shorter_answer try_shorter
    try_shorter-daemon n [] = unfold or_result in unmatched
    try_shorter-daemon n (t ∷ prev) =
        if_confident-daemon c (ask prev []) (shorter_history n) prev []
          (shorter_answer fl ask c (suc n) prev) last
        ∙ ap (if_confident fl c (ask prev [])) (try_shorter-daemon (suc n) prev)

  climb-daemon :
      (ask : List Bytes → Bytes → List (Suggestion fl)) (c : fl.F) (prev : List Bytes) (cwd : Bytes)
      → climb fl ask c prev cwd ≡ (Fallback.climb fl ask c prev cwd).suggestions
  unfolding climb Fallback.climb exact_answer
  climb-daemon ask c prev cwd =
      elim (ask prev cwd)
        as (λ sugs.
          (elim sugs as (λ _. List (Suggestion fl)) [
            | s ∷ l ↦ s ∷ l
            | [] ↦
                try_above fl ask c prev cwd
                  (if_confident fl c (ask prev []) (try_shorter fl ask c prev))
          ])
          ≡ (or_result fl
              (or_else fl
                (elim sugs as (λ _. Option (FallbackResult fl)) [
                  | [] ↦ none
                  | s ∷ l ↦ some (record {
                    suggestions = s ∷ l;
                    level = exact_directory;
                    state = prev;
                    cwd = cwd;
                  })
                ])
                broader)
              last).suggestions) [
                | s ∷ l ↦ unfold or_else or_result in refl
                | [] ↦
                    unfold or_else in
                    sym (
                      try_above-daemon ask c last refl prev cwd nowhere_on
                      ∙ ap (try_above fl ask c prev cwd) (
                          if_confident-daemon c (ask prev []) no_directory prev []
                            (shorter_answer fl ask c 1 prev) last
                          ∙ ap (if_confident fl c (ask prev []))
                              (try_shorter-daemon ask c last refl 1 prev)))
              ]
    where
      last : FallbackResult fl
      last = record { suggestions = []; level = no_match; state = prev; cwd = cwd }

      nowhere_on : Option (FallbackResult fl)
      nowhere_on =
          or_else fl (answer_if_confident fl c (ask prev []) no_directory prev [])
            (shorter_answer fl ask c 1 prev)

      broader : Option (FallbackResult fl)
      broader = or_else fl (ancestors_answer fl ask c prev cwd) nowhere_on

-- The evaluator's prediction is what the daemon's ladder yields for the history of two commands and
-- the directory, when the ladder is climbed with the evaluator's own queries, in whatever graph.
pub predict_with_fallback-daemon :
    (fl : Float64) (opts : Options fl) (g : Graph) (prev1 prev2 cwd : Bytes) (prior : Outcome)
    (at_time : ℕ)
    → predict_with_fallback fl opts g prev1 prev2 cwd prior at_time
      ≡ (Fallback.climb fl
          (query_with_cwd fl opts g at_time)
          opts.min_confidence
          (prev1 ∷ prev2 ∷ [])
          cwd).suggestions
unfolding predict_with_fallback
predict_with_fallback-daemon fl opts g prev1 prev2 cwd prior at_time =
    climb-daemon fl (query_with_cwd fl opts g at_time) opts.min_confidence (prev1 ∷ prev2 ∷ []) cwd
