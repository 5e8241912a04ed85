-- ===== src/Predict/Agreement.antt =====
-- `hunch why` explains what is predicted.
use hunch.Base.{
  ℕ, zero, suc, ◌≤◌, ◌≡◌, refl, ap, ◌∙◌, inl, inr, Bool-cases, ◌&&◌, List, [], ◌∷◌, arith, ltb,
  take, length, length-take_le, map,
}
use hunch.Floats.{Float64}
use hunch.Graph.{Transition, transitions}
use hunch.Predict.Score.{ScoreBreakdown, score_transitions_detailed}
use hunch.Predict.{
  State, Predictor, Suggestion, state_templates, cap, score_params, score_transitions, to_scored,
  to_suggestion, predict, explain,
}

take-map {ℓ κ} :
    {A : Type ℓ} {B : Type κ} (f : A → B) (n : ℕ) (l : List A) → take n (map f l) ≡ map f (take n l)
take-map f zero l = refl
take-map f (suc n) [] = refl
take-map f (suc n) (x ∷ l) = ap (λ t. f x ∷ t) (take-map f n l)

length-map {ℓ κ} : {A : Type ℓ} {B : Type κ} (f : A → B) (l : List A) → length (map f l) ≡ length l
length-map f [] = refl
length-map f (x ∷ l) = ap suc (length-map f l)

cap-map {ℓ κ} :
    {A : Type ℓ} {B : Type κ} (f : A → B) (n : ℕ) (l : List A) → cap n (map f l) ≡ map f (cap n l)
unfolding cap
cap-map f n l = rw length-map (elim (Bool-cases (ltb 0 n && ltb n (length l))) [
  | inl e ↦ rw e (take-map f n l)
  | inr e ↦ rw e
])

pub length-cap {ℓ} : {A : Type ℓ} (n : ℕ) (l : List A) → 1 ≤ n → length (cap n l) ≤ n
unfolding cap
length-cap n l h = ground (arith, length-take_le n l)

-- What a suggestion says of a candidate.
abbrev pub summary : (fl : Float64) → ScoreBreakdown fl → Suggestion fl
summary fl b = record { template = b.next; raw = []; score = b.score; count = b.count }

map-map-summary :
    (fl : Float64) (l : List (ScoreBreakdown fl))
    → map (to_suggestion fl) (map (to_scored fl) l) ≡ map (summary fl) l
unfolding to_suggestion to_scored
map-map-summary fl [] = refl
map-map-summary fl (b ∷ l) =
    ap (λ (t : List (Suggestion fl)). summary fl b ∷ t) (map-map-summary fl l)

-- For every state, time and limit the prediction is the explanation with its components left out:
-- the same candidates in the same order, with the same scores and counts, and no raw command yet.
pub predict-explain :
    (fl : Float64) (p : Predictor fl) (state : State) (at_time limit : ℕ)
    → predict fl p state at_time limit ≡ map (summary fl) (explain fl p state at_time limit)
unfolding predict explain score_transitions
predict-explain fl p state at_time limit = by_transitions (transitions p.g (state_templates state))
  where
    by_transitions :
        (ts : List Transition)
        → (elim ts [
          | [] ↦ []
          | t ∷ l ↦ map (to_suggestion fl) (
              cap limit (
                map
                  (to_scored fl)
                  (score_transitions_detailed fl (t ∷ l) (score_params fl p state at_time))))
        ])
          ≡ map (summary fl) (elim ts [
            | [] ↦ []
            | t ∷ l ↦
                cap limit (score_transitions_detailed fl (t ∷ l) (score_params fl p state at_time))
          ])
    by_transitions [] = refl
    by_transitions (t ∷ l) =
        let bs = score_transitions_detailed fl (t ∷ l) (score_params fl p state at_time) in
        ap (map (to_suggestion fl)) (cap-map (to_scored fl) limit bs)
        ∙ map-map-summary fl (cap limit bs)

-- A positive limit bounds the number of suggestions.
pub predict_bounds :
    (fl : Float64) (p : Predictor fl) (state : State) (at_time limit : ℕ)
    → 1 ≤ limit
    → length (predict fl p state at_time limit) ≤ limit
unfolding predict score_transitions
predict_bounds fl p state at_time limit h =
    elim (transitions p.g (state_templates state))
      as (λ ts.
        length (elim ts as (λ _. List (Suggestion fl)) [
          | [] ↦ []
          | t ∷ l ↦ map (to_suggestion fl) (
              cap limit (
                map (to_scored fl)
                  (score_transitions_detailed fl (t ∷ l) (score_params fl p state at_time))))
        ])
        ≤ limit) [
          | [] ↦ omega arith
          | t ∷ l ↦ rw length-map (
              length-cap limit
                (map (to_scored fl)
                  (score_transitions_detailed fl (t ∷ l) (score_params fl p state at_time)))
                h)
        ]
