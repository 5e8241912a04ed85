-- ===== src/Daemon/Filters/Order.antt =====
-- Suggestions whose commands are not filled in yet, at the tests of the handler.
use hunch.Base.{
  ◌≡◌, refl, ap, ℕ, false, inl, inr, Bool-cases, List, [], ◌∷◌, Bytes, arith, leb, starts_with, map,
  All, bytes_eq,
}
use hunch.Floats.{Float64}
use hunch.Predict.{State, Predictor, Suggestion, predict, explain}
use hunch.Predict.Score.{ScoreBreakdown}
use hunch.Predict.Agreement.{predict-explain, summary}
use hunch.Daemon.Filters.{
  with_min_count, keep_counted, keep_prefixed, suppress_cd_to_current, keep_moving, goes_nowhere,
}

module _ (fl : Float64) where
  -- No command has been chosen for the suggestion.
  abbrev pub IsTemplate : Suggestion fl → Type 0
  IsTemplate s = s.raw ≡ []

  keep_counted-IsTemplate :
      (n : ℕ) (l : List (Suggestion fl)) → All IsTemplate l → All IsTemplate (keep_counted fl n l)
  unfolding keep_counted
  keep_counted-IsTemplate n [] h = h
  keep_counted-IsTemplate n (s ∷ l) h = elim (Bool-cases (leb n s.count)) [
    | inl e ↦ rw e (h.0, keep_counted-IsTemplate n l h.1)
    | inr e ↦ rw e (keep_counted-IsTemplate n l h.1)
  ]

  with_min_count-IsTemplate :
      (n : ℕ) (l : List (Suggestion fl)) → All IsTemplate l → All IsTemplate (with_min_count fl l n)
  unfolding with_min_count
  with_min_count-IsTemplate n l h = elim (Bool-cases (leb n 1)) [
    | inl e ↦ rw e h
    | inr e ↦ rw e (keep_counted-IsTemplate n l h)
  ]

  pub keep_prefixed-IsTemplate :
      (p : Bytes) (l : List (Suggestion fl))
      → All IsTemplate l
      → All IsTemplate (keep_prefixed fl p l)
  unfolding keep_prefixed
  keep_prefixed-IsTemplate p [] h = h
  keep_prefixed-IsTemplate p (s ∷ l) h = elim (Bool-cases (starts_with p s.template)) [
    | inl e ↦ rw e (h.0, keep_prefixed-IsTemplate p l h.1)
    | inr e ↦ rw e (keep_prefixed-IsTemplate p l h.1)
  ]

  summaries-IsTemplate : (l : List (ScoreBreakdown fl)) → All IsTemplate (map (summary fl) l)
  summaries-IsTemplate [] = tt
  summaries-IsTemplate (b ∷ l) = (refl, summaries-IsTemplate l)

  moving-IsTemplate :
      (cwd : Bytes) (s : Suggestion fl) → IsTemplate s → goes_nowhere fl cwd s ≡ false
  unfolding goes_nowhere
  moving-IsTemplate cwd s h = rw h (unfold bytes_eq in ground arith)

  keep_moving-IsTemplate :
      (cwd : Bytes) (l : List (Suggestion fl)) → All IsTemplate l → keep_moving fl cwd l ≡ l
  unfolding keep_moving
  keep_moving-IsTemplate cwd [] h = refl
  keep_moving-IsTemplate cwd (s ∷ l) h =
      rw (moving-IsTemplate cwd s h.0)
        (ap (λ (t : List (Suggestion fl)). s ∷ t) (keep_moving-IsTemplate cwd l h.1))

  pub suppress-IsTemplate :
      (cwd : Bytes) (l : List (Suggestion fl))
      → All IsTemplate l
      → suppress_cd_to_current fl l cwd ≡ l
  unfolding suppress_cd_to_current
  suppress-IsTemplate [] l h = refl
  suppress-IsTemplate (c ∷ cwd) l h = keep_moving-IsTemplate (c ∷ cwd) l h

-- A prediction has no raw command, and the test of the count adds none.
pub counted-IsTemplate :
    (fl : Float64) (p : Predictor fl) (state : State) (at_time limit min_count : ℕ)
    → All (IsTemplate fl) (with_min_count fl (predict fl p state at_time limit) min_count)
counted-IsTemplate fl p state at_time limit min_count = rw predict-explain (
    with_min_count-IsTemplate fl min_count (map (summary fl) (explain fl p state at_time limit))
      (summaries-IsTemplate fl (explain fl p state at_time limit)))
