-- ===== src/Daemon/Fallback/Ladder.antt =====
-- The ladder climbs its rungs in order.
use hunch.Base.{
  ℕ, zero, suc, ◌+◌, ◌≤◌, ◌≡◌, ◌≢◌, refl, ap, inl, inr, not, Bool-cases, List, [], ◌∷◌, ◌++◌,
  Option, none, some, Bytes, arith, if◌then◌else◌, bytes_eq, bytes_eq_refl, and_false,
  bytes_eq-shorter, bytes_eq-longer, length, All,
}
use hunch.Floats.{Float64}
use hunch.Graph.{Graph, Outcome}
use hunch.Predict.{Suggestion}
use hunch.Config.{Options}
use hunch.Daemon.Paths.{dir}
use hunch.Daemon.Paths.Elements.{IsName, path_of, dir-path_of, dir-root, length-path_of}
use hunch.Daemon.Fallback.{
  exact_directory, no_directory, no_match, FallbackResult, query, confident, answer_if_confident,
  or_else, or_result, exact_answer, ancestor_answer, shorter_answer, ancestors_answer, climb,
  predict_fallback,
}
use hunch.Daemon.Fallback.Rungs.{
  Place, nowhere, inside, cwd_of, HasNames, directories_up, ancestors, Rung, ancestor_rungs,
  shorter_rungs, rungs, is_some_answer, first_usable,
}

module _ (fl : Float64) where
  module _ (ask : List Bytes → Bytes → List (Suggestion fl)) (min_confidence : fl.F)
      (last : FallbackResult fl) where
    abbrev found : List Rung → FallbackResult fl
    found = first_usable fl ask min_confidence last

    shorter_answer-rungs :
        (n : ℕ) (prev : List Bytes)
        → or_result fl (shorter_answer fl ask min_confidence n prev) last
          ≡ found (shorter_rungs n prev)
    unfolding shorter_answer or_result or_else answer_if_confident
    shorter_answer-rungs n [] = refl
    shorter_answer-rungs n (t ∷ prev) =
        elim (Bool-cases (confident fl min_confidence (ask prev []))) [
          | inl e ↦ rw e
          | inr e ↦ rw e (shorter_answer-rungs (suc n) prev)
        ]

    -- The loop over the ancestors, in front of what follows it.
    ancestor_answer-rungs :
        (fuel : ℕ) (prev : List Bytes) (cwd : Bytes) (es : List Bytes) (rest : List Rung)
        (behind : Option (FallbackResult fl))
        → or_result fl behind last ≡ found rest
        → All IsName es
        → length (path_of es) + 1 ≤ length cwd
        → length (path_of es) ≤ fuel
        → or_result fl
            (or_else fl (ancestor_answer fl ask min_confidence fuel prev cwd (path_of es)) behind)
            last
          ≡ found (ancestor_rungs prev (directories_up es) ++ rest)
    unfolding ancestor_answer
    ancestor_answer-rungs zero prev cwd [] rest behind h names shorter enough =
        absurd (unfold path_of in omega arith)
    ancestor_answer-rungs zero prev cwd (e ∷ es) rest behind h (he, names) shorter enough =
        absurd (omega (arith, length-path_of e es he))
    ancestor_answer-rungs (suc fuel) prev cwd [] rest behind h names shorter enough =
        rw (dir-root, bytes_eq_refl (path_of []), and_false (not (bytes_eq (path_of []) cwd))) h
    ancestor_answer-rungs (suc fuel) prev cwd (e ∷ es) rest behind h (he, names) shorter enough =
        let grows = length-path_of e es he in
        let ih =
          ancestor_answer-rungs fuel prev cwd es rest behind h names (omega arith) (omega arith) in
        rw
          (
            dir-path_of e es (he, names),
            bytes_eq-shorter (path_of (e ∷ es)) cwd shorter,
            bytes_eq-longer (path_of (e ∷ es)) (path_of es) grows,
          )
          (elim (Bool-cases (confident fl min_confidence (ask prev (path_of (e ∷ es))))) [
            | inl c ↦ unfold or_result or_else answer_if_confident in rw c
            | inr c ↦ unfold or_else answer_if_confident in rw c ih
          ])

    ancestors_answer_loop :
        (prev : List Bytes) (cwd : Bytes)
        → cwd ≢ []
        → ancestors_answer fl ask min_confidence prev cwd
          ≡ ancestor_answer fl ask min_confidence (suc (length cwd)) prev cwd (dir cwd)
    unfolding ancestors_answer
    ancestors_answer_loop prev [] h = absurd (h refl)
    ancestors_answer_loop prev (c ∷ cwd) h = refl

    ancestors_answer-rungs :
        (prev : List Bytes) (place : Place) (rest : List Rung) (behind : Option (FallbackResult fl))
        → or_result fl behind last ≡ found rest
        → HasNames place
        → or_result fl
            (or_else fl (ancestors_answer fl ask min_confidence prev (cwd_of place)) behind)
            last
          ≡ found (ancestor_rungs prev (ancestors place) ++ rest)
    unfolding ancestors_answer
    ancestors_answer-rungs prev nowhere rest behind h names = unfold or_else in h
    ancestors_answer-rungs prev (inside []) rest behind h names =
        rw (ancestors_answer_loop prev (path_of []) (unfold path_of in cc))
          (unfold ancestor_answer or_else in rw (dir-root, bytes_eq_refl (path_of [])) h)
    ancestors_answer-rungs prev (inside (e ∷ es)) rest behind h names =
        let grows = length-path_of e es names.0 in
        let there : path_of (e ∷ es) ≢ [] =
          λ k. absurd (omega (arith, ap (λ (u : Bytes). length u) k)) in
        rw (ancestors_answer_loop prev (path_of (e ∷ es)) there, dir-path_of e es names)
          (ancestor_answer-rungs (suc (length (path_of (e ∷ es)))) prev (path_of (e ∷ es)) es rest
            behind h names.1 grows (omega arith))

    nowhere_confident :
        (n : ℕ) (prev : List Bytes)
        → or_result fl
            (or_else fl
              (answer_if_confident fl min_confidence (ask prev []) no_directory prev [])
              (shorter_answer fl ask min_confidence n prev))
            last
          ≡ found (record { level = no_directory; state = prev; cwd = [] } ∷ shorter_rungs n prev)
    unfolding or_result or_else answer_if_confident
    nowhere_confident n prev = elim (Bool-cases (confident fl min_confidence (ask prev []))) [
      | inl e ↦ rw e
      | inr e ↦ rw e (shorter_answer-rungs n prev)
    ]

    exact_answer-rungs :
        (prev : List Bytes) (cwd : Bytes) (rest : List Rung) (behind : Option (FallbackResult fl))
        → or_result fl behind last ≡ found rest
        → or_result fl (or_else fl (exact_answer fl ask min_confidence prev cwd) behind) last
          ≡ found (record { level = exact_directory; state = prev; cwd = cwd } ∷ rest)
    unfolding exact_answer or_else or_result
    exact_answer-rungs prev cwd rest behind h =
        elim (ask prev cwd)
          as (λ sugs.
            or_result fl
              (or_else fl
                (elim sugs as (λ _. Option (FallbackResult fl)) [
                  | [] ↦ none
                  | s ∷ l ↦ some (record {
                    suggestions = s ∷ l;
                    level = exact_directory;
                    state = prev;
                    cwd = cwd;
                  })
                ])
                behind)
              last
            ≡ (if is_some_answer fl sugs
                then record { suggestions = sugs; level = exact_directory; state = prev; cwd = cwd }
                else found rest)) [ [] ↦ h | s ∷ l ↦ refl ]

-- The prediction is the answer of the first rung that is usable: the exact directory with any
-- answer, then each of its ancestors below the root from the nearest, then no directory, then ever
-- shorter histories from which the oldest commands are dropped, where each of these broader rungs
-- needs a top score that reaches the least confidence. If there is none, the result says so.
pub predict_fallback-rungs :
    (fl : Float64) (opts : Options fl) (g : Graph) (prev : List Bytes) (place : Place)
    (prior : Outcome) (at_time : ℕ)
    → HasNames place
    → predict_fallback fl opts g prev (cwd_of place) prior at_time
      ≡ first_usable fl
          (query fl opts g prior at_time)
          opts.min_confidence
          (record { suggestions = []; level = no_match; state = prev; cwd = cwd_of place })
          (rungs prev place)
unfolding predict_fallback climb
predict_fallback-rungs fl opts g prev place prior at_time names =
    let ask = query fl opts g prior at_time in
    let last : FallbackResult fl = record {
      suggestions = [];
      level = no_match;
      state = prev;
      cwd = cwd_of place;
    } in
    exact_answer-rungs fl ask opts.min_confidence last prev (cwd_of place) _ _ (
      ancestors_answer-rungs fl ask opts.min_confidence last prev place _ _
        (nowhere_confident fl ask opts.min_confidence last 1 prev) names)
