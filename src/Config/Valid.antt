-- ===== src/Config/Valid.antt =====
-- The options that the daemon can work with.
use hunch.Base.{◌≢◌, ◌⊎◌, ℕ, ◌≤◌, ◌≡◌, true, [], some, Bytes, codes}
use hunch.Floats.{Float64}
use hunch.Config.Numbers.{pos, atoi}
use hunch.Config.{Options, Platform}

-- The variable holds this number, and it is at least `least`.
abbrev pub IsGood : ℕ → Bytes → ℕ → Type 0
IsGood least v n = (atoi v ≡ some (pos n)) × (least ≤ n)

-- An option takes the number of its variable if that is good, and keeps its value if none is.
abbrev pub IsNumberOr : ℕ → Bytes → ℕ → ℕ → Type 0
IsNumberOr least v old new = IsGood least v new ⊎ (((n : ℕ) → ¬ IsGood least v n) × (new ≡ old))

module _ (fl : Float64) where
  -- The half-life and the least count are positive, and no weight is negative or not a number.
  pub record IsValid (o : Options fl) : Type 0 where
    pub half_life_hours : 1 ≤ o.half_life_hours
    pub min_count : 1 ≤ o.min_count
    pub alpha : fl.le (fl.of_int 0) o.alpha ≡ true
    pub beta : fl.le (fl.of_int 0) o.beta ≡ true
    pub gamma : fl.le (fl.of_int 0) o.gamma ≡ true
    pub delta : fl.le (fl.of_int 0) o.delta ≡ true
    pub epsilon : fl.le (fl.of_int 0) o.epsilon ≡ true
    pub min_confidence : fl.le (fl.of_int 0) o.min_confidence ≡ true

  -- The variable holds this number, and it is not negative.
  abbrev pub IsWeight : Platform fl → Bytes → fl.F → Type 0
  IsWeight pf v f = (v ≢ []) × (pf.parse_float v ≡ some f) × (fl.le (fl.of_int 0) f ≡ true)

  abbrev pub IsWeightOr : Platform fl → Bytes → fl.F → fl.F → Type 0
  IsWeightOr pf v old new = IsWeight pf v new ⊎ (((f : fl.F) → ¬ IsWeight pf v f) × (new ≡ old))

  -- What the environment makes of the numbers of the options.
  pub record IsOverridden (pf : Platform fl) (old new : Options fl) : Type 0 where
    pub half_life_hours :
        IsNumberOr 1
          (pf.env (codes "HUNCH_HALF_LIFE_HOURS"))
          old.half_life_hours
          new.half_life_hours
    pub max_idle_days :
        IsNumberOr 0 (pf.env (codes "HUNCH_MAX_IDLE_DAYS")) old.max_idle_days new.max_idle_days
    pub min_count : IsNumberOr 1 (pf.env (codes "HUNCH_MIN_COUNT")) old.min_count new.min_count
    pub alpha : IsWeightOr pf (pf.env (codes "HUNCH_ALPHA")) old.alpha new.alpha
    pub beta : IsWeightOr pf (pf.env (codes "HUNCH_BETA")) old.beta new.beta
    pub gamma : IsWeightOr pf (pf.env (codes "HUNCH_GAMMA")) old.gamma new.gamma
    pub delta : IsWeightOr pf (pf.env (codes "HUNCH_DELTA")) old.delta new.delta
    pub epsilon : IsWeightOr pf (pf.env (codes "HUNCH_EPSILON")) old.epsilon new.epsilon
    pub min_confidence :
        IsWeightOr pf (pf.env (codes "HUNCH_MIN_CONFIDENCE")) old.min_confidence new.min_confidence
