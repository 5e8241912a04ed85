-- ===== src/Predict/Offered.antt =====
-- A transition of the graph is among the suggestions of its state.
use hunch.Base.{
  ℕ, ◌≤◌, ◌≡◌, ◌≢◌, refl, ap, ◌∙◌, inl, inr, Bool, true, ◌&&◌, ◌||◌, Bool-cases, List, [], ◌∷◌,
  Bytes, arith, leb, bytes_eq, any, map,
}
use hunch.Base.Assoc.{Assoc, lookup}
use hunch.Floats.{Float64}
use hunch.Graph.{
  Entry, transitions, transitions_of, entry_to_transition, entry_at, or_zero, state_key,
}
use hunch.Predict.Score.{ScoreBreakdown, score_transitions_detailed}
use hunch.Predict.Score.Candidates.{is_counted, is_scored, any-score_transitions_detailed}
use hunch.Predict.{
  State, Predictor, Suggestion, state_templates, score_params, cap, predict, explain,
}
use hunch.Predict.Agreement.{summary, predict-explain}

-- A suggestion of the template that was counted so often.
abbrev pub is_suggested : (fl : Float64) → Bytes → ℕ → Suggestion fl → Bool
is_suggested fl next n s = bytes_eq s.template next && leb n s.count

-- The scores of the state have a positive denominator, so the state has scored candidates.
abbrev pub HasScores : (fl : Float64) → Predictor fl → State → ℕ → Type 0
HasScores fl p state at_time =
    score_transitions_detailed fl (transitions p.g (state_templates state))
      (score_params fl p state at_time)
    ≢ []

any-transitions_of :
    (state : List Bytes) (next : Bytes) (n : ℕ) (inner : Assoc Entry)
    → 1 ≤ n
    → n ≤ (or_zero (lookup next inner)).count
    → any (is_counted next n) (transitions_of state inner) ≡ true
unfolding transitions_of lookup entry_to_transition
any-transitions_of state next n [] positive enough = absurd (omega arith)
any-transitions_of state next n ((other, e) ∷ inner) positive enough =
    elim (Bool-cases (bytes_eq other next)) [
      | inl k ↦
          let here : n ≤ e.count = rw k at enough in
          let counted : leb n e.count ≡ true = ground arith in rw (k, counted)
      | inr k ↦
          let further : n ≤ (or_zero (lookup next inner)).count = rw k at enough in
          rw k (any-transitions_of state next n inner positive further)
    ]

module _ (fl : Float64) (p : Predictor fl) (state : State) (at_time : ℕ) where
  any-map-summary :
      (next : Bytes) (n : ℕ) (l : List (ScoreBreakdown fl))
      → any (is_suggested fl next n) (map (summary fl) l) ≡ any (is_scored fl next n) l
  any-map-summary next n [] = refl
  any-map-summary next n (b ∷ l) =
      ap (λ (c : Bool). (bytes_eq b.next next && leb n b.count) || c) (any-map-summary next n l)

  explain-scored :
      explain fl p state at_time 0
      ≡ score_transitions_detailed fl
          (transitions p.g (state_templates state))
          (score_params fl p state at_time)
  unfolding explain cap score_transitions_detailed
  explain-scored =
      elim (transitions p.g (state_templates state))
        as (λ ts.
          (elim ts as (λ _. List (ScoreBreakdown fl)) [
            | [] ↦ []
            | t ∷ l ↦
                cap 0 (score_transitions_detailed fl (t ∷ l) (score_params fl p state at_time))
          ])
          ≡ score_transitions_detailed fl ts (score_params fl p state at_time)) [
            | [] ↦ refl
            | t ∷ l ↦ refl
          ]

  -- What was counted so often at the state is suggested, if there is no limit.
  pub predict-any :
      (next : Bytes) (n : ℕ)
      → 1 ≤ n
      → n ≤ (or_zero (entry_at p.g (state_key (state_templates state)) next)).count
      → HasScores fl p state at_time
      → any (is_suggested fl next n) (predict fl p state at_time 0) ≡ true
  unfolding transitions
  predict-any next n positive enough scores =
      rw (predict-explain fl p state at_time 0, explain-scored)
        (any-map-summary next n _
          ∙ any-score_transitions_detailed fl next n _ _ scores
          ∙ any-transitions_of (state_templates state) next n _ positive enough)
