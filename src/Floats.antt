-- ===== src/Floats.antt =====
-- The floating-point operations that the scoring code uses. Their values are not modelled: a
-- definition that computes with them takes them as this record.
pub mod Examples
use hunch.Base.{ℕ, Bool, true, ◌≡◌, ◌⊎◌}

pub record Float64 : Type 1 where
  pub F : Type 0
  -- float64(n)
  pub of_int : ℕ → F
  -- float64(at.Sub(t)), negative when t lies after at
  pub elapsed : ℕ → ℕ → F
  -- decimal n k is the constant n / 10^k
  pub decimal : ℕ → ℕ → F
  pub ln2 : F
  pub neg : F → F
  pub exp : F → F
  pub add : F → F → F
  pub sub : F → F → F
  pub mul : F → F → F
  pub div : F → F → F
  pub lt : F → F → Bool
  pub le : F → F → Bool
  pub eq : F → F → Bool

-- What IEEE 754 says of its comparisons, NaN included.
pub record ComparisonLaws (fl : Float64) : Type 0 where
  pub lt_trans : (x y z : fl.F) → fl.lt x y ≡ true → fl.lt y z ≡ true → fl.lt x z ≡ true
  pub eq_trans : (x y z : fl.F) → fl.eq x y ≡ true → fl.eq y z ≡ true → fl.eq x z ≡ true
  pub lt_eq : (x y z : fl.F) → fl.lt x y ≡ true → fl.eq y z ≡ true → fl.lt x z ≡ true
  pub eq_lt : (x y z : fl.F) → fl.eq x y ≡ true → fl.lt y z ≡ true → fl.lt x z ≡ true
  pub eq_symm : (x y : fl.F) → fl.eq x y ≡ fl.eq y x
  -- Two numbers, that is, values that equal themselves, are comparable.
  pub connected :
      (x y : fl.F)
      → fl.eq x x ≡ true
      → fl.eq y y ≡ true
      → (fl.lt x y ≡ true) ⊎ ((fl.eq x y ≡ true) ⊎ (fl.lt y x ≡ true))
