-- ===== src/Predict/Score/Candidates.antt =====
-- A transition keeps its next command and its count through scoring and sorting.
use hunch.Base.{
  ℕ, ◌≡◌, ◌≢◌, refl, ap, ◌∙◌, inl, inr, Bool, true, false, ◌&&◌, ◌||◌, Bool-cases, List, [], ◌∷◌,
  Bytes, leb, bytes_eq, any, length,
}
use hunch.Floats.{Float64}
use hunch.Graph.{Transition}
use hunch.Predict.Score.{
  ScoreParams, ScoreBreakdown, weigh, weigh_all, total_eff, set_scores, ranks_before, place,
  sort_breakdowns, score_transitions_detailed,
}

-- A transition to the command that was counted so often, and a scored one.
abbrev pub is_counted : Bytes → ℕ → Transition → Bool
is_counted next n t = bytes_eq t.next next && leb n t.count

abbrev pub is_scored : (fl : Float64) → Bytes → ℕ → ScoreBreakdown fl → Bool
is_scored fl next n b = bytes_eq b.next next && leb n b.count

or_swap : (a b c : Bool) → (a || (b || c)) ≡ (b || (a || c))
or_swap true true c = refl
or_swap true false c = refl
or_swap false b c = refl

module _ (fl : Float64) (next : Bytes) (n : ℕ) where
  any-weigh_all :
      (p : ScoreParams fl) (ts : List Transition)
      → any (is_scored fl next n) (weigh_all fl p ts) ≡ any (is_counted next n) ts
  unfolding weigh_all weigh
  any-weigh_all p [] = refl
  any-weigh_all p (t ∷ ts) =
      ap (λ (b : Bool). (bytes_eq t.next next && leb n t.count) || b) (any-weigh_all p ts)

  any-set_scores :
      (alpha denom : fl.F) (bs : List (ScoreBreakdown fl))
      → any (is_scored fl next n) (set_scores fl alpha denom bs) ≡ any (is_scored fl next n) bs
  unfolding set_scores
  any-set_scores alpha denom [] = refl
  any-set_scores alpha denom (b ∷ bs) =
      ap (λ (c : Bool). (bytes_eq b.next next && leb n b.count) || c)
        (any-set_scores alpha denom bs)

  any-place :
      (x : ScoreBreakdown fl) (l : List (ScoreBreakdown fl))
      → any (is_scored fl next n) (place fl x l) ≡ any (is_scored fl next n) (x ∷ l)
  unfolding place
  any-place x [] = refl
  any-place x (y ∷ l) = elim (Bool-cases (ranks_before fl x y)) [
    | inl e ↦ rw e
    | inr e ↦ rw e (
        ap (λ (c : Bool). is_scored fl next n y || c) (any-place x l)
        ∙ or_swap (is_scored fl next n y) (is_scored fl next n x) (any (is_scored fl next n) l))
  ]

  any-sort_breakdowns :
      (l : List (ScoreBreakdown fl))
      → any (is_scored fl next n) (sort_breakdowns fl l) ≡ any (is_scored fl next n) l
  unfolding sort_breakdowns
  any-sort_breakdowns [] = refl
  any-sort_breakdowns (x ∷ l) =
      any-place x (sort_breakdowns fl l)
      ∙ ap (λ (c : Bool). is_scored fl next n x || c) (any-sort_breakdowns l)

  pub any-score_transitions_detailed :
      (ts : List Transition) (p : ScoreParams fl)
      → score_transitions_detailed fl ts p ≢ []
      → any (is_scored fl next n) (score_transitions_detailed fl ts p) ≡ any (is_counted next n) ts
  unfolding score_transitions_detailed
  any-score_transitions_detailed [] p scores = absurd (scores refl)
  any-score_transitions_detailed (t ∷ ts) p scores =
      let bs = weigh_all fl p (t ∷ ts) in
      let zero_f = fl.of_int 0 in
      let denom = fl.add (total_eff fl zero_f bs) (fl.mul p.alpha (fl.of_int (length bs))) in
      elim (Bool-cases (fl.le denom zero_f)) [
        | inl e ↦ absurd (scores (rw e))
        | inr e ↦ rw e (
            any-sort_breakdowns (set_scores fl p.alpha denom bs)
            ∙ any-set_scores p.alpha denom bs
            ∙ any-weigh_all p (t ∷ ts))
      ]
