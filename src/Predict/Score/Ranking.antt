-- ===== src/Predict/Score/Ranking.antt =====
-- The order and the completeness of a ranking.
use mathlib.Core.List.{Perm}
use mathlib.Core.List.Perm
use hunch.Base.{◌+◌, ◌≤◌, All, ◌≡◌, ◌⊎◌, true, false, List, [], ◌∷◌, Bytes, bytes_lt}
use hunch.Floats.{Float64}
use hunch.Graph.{Transition}
use hunch.Predict.Score.{ScoreBreakdown}

abbrev pub nexts : List Transition → List Bytes
nexts [] = []
nexts (t ∷ ts) = t.next ∷ nexts ts

module _ (fl : Float64) where
  -- A score that is a number.
  abbrev pub IsNumber : ScoreBreakdown fl → Type 0
  IsNumber b = fl.eq b.score b.score ≡ true

  -- One candidate stands above another: by a higher score, then by a higher count, then by a text
  -- that is not later.
  abbrev pub Above : ScoreBreakdown fl → ScoreBreakdown fl → Type 0
  Above x y =
      (fl.lt y.score x.score ≡ true)
      ⊎ ((fl.eq y.score x.score ≡ true)
          × ((y.count + 1 ≤ x.count) ⊎ ((y.count ≡ x.count) × (bytes_lt y.next x.next ≡ false))))

  -- Each candidate stands above every one to its right.
  abbrev pub IsRanked : List (ScoreBreakdown fl) → Type 0
  IsRanked [] = Unit
  IsRanked (x ∷ l) = All (Above x) l × IsRanked l

  abbrev pub names : List (ScoreBreakdown fl) → List Bytes
  names [] = []
  names (b ∷ bs) = b.next ∷ names bs
