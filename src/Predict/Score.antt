-- ===== src/Predict/Score.antt =====
-- core/predict/score.go: the score of a transition and the order of the scores.
pub mod Candidates
pub mod Ranking
use hunch.Base.{
  ℕ, zero, suc, ◌+◌, min, Bool, true, false, not, ◌&&◌, ◌||◌, List, [], ◌∷◌, ◌++◌, Bytes, codes,
  if◌then◌else◌, ltb, ◌==◌, length, bytes_eq, bytes_lt, starts_with,
}
use hunch.Base.Assoc.{Assoc}
use hunch.Floats.{Float64}
use hunch.Graph.{Outcome, unknown, success, failure, other, Transition}

pub record ScoreParams (fl : Float64) : Type 0 where
  pub half_life : ℕ
  pub alpha : fl.F
  pub beta : fl.F
  pub gamma : fl.F
  pub delta : fl.F
  pub epsilon : fl.F
  pub cwd : Bytes
  pub prior_outcome : Outcome
  pub at_time : ℕ

pub record ScoreBreakdown (fl : Float64) : Type 0 where
  pub next : Bytes
  pub count : ℕ
  pub decay_weight : fl.F
  pub cwd_affinity : fl.F
  pub prior_affinity : fl.F
  pub accept_rate : fl.F
  pub failure_rate : fl.F
  pub eff_count : fl.F
  pub score : fl.F

-- `cwd == queryCWD || strings.HasPrefix(queryCWD, cwd+"/")`
unfoldable pub covers_cwd : Bytes → Bytes → Bool
covers_cwd cwd query = bytes_eq cwd query || starts_with (cwd ++ codes "/") query

unfoldable pub matched_cwds : Assoc ℕ → Bytes → ℕ
unfolding covers_cwd
matched_cwds [] query = 0
matched_cwds ((cwd, c) ∷ cwds) query =
    (if covers_cwd cwd query then c else 0) + matched_cwds cwds query

module _ (fl : Float64) where
  open fl use {F}

  abbrev zero_f : F
  zero_f = fl.of_int 0

  abbrev one_f : F
  one_f = fl.of_int 1

  -- Clamped to the whole, as a fraction of `count`.
  fraction : ℕ → ℕ → F
  fraction n count = fl.div (fl.of_int (if ltb count n then count else n)) (fl.of_int count)

  cwd_affinity : Assoc ℕ → ℕ → Bytes → F
  unfolding fraction
  cwd_affinity cwds count query =
      if bytes_eq query [] || count == 0 || length cwds == 0
      then zero_f
      else fraction (matched_cwds cwds query) count

  prior_affinity : Transition → Outcome → F
  unfolding fraction
  prior_affinity t success = if t.count == 0 then zero_f else fraction t.prior_success t.count
  prior_affinity t failure = if t.count == 0 then zero_f else fraction t.prior_failure t.count
  prior_affinity t unknown = zero_f
  prior_affinity t other = zero_f

  failure_rate : Transition → F
  failure_rate t =
      let total = t.next_success + t.next_failure in
      if total == 0 then zero_f else fl.div (fl.of_int t.next_failure) (fl.of_int total)

  accept_rate : Transition → F
  accept_rate t =
      let rate = fl.div (fl.of_int t.accepted) (fl.of_int t.count) in
      if fl.lt one_f rate then one_f else rate

  is_known : Outcome → Bool
  is_known unknown = false
  is_known _ = true

  -- A boost or a suppression that applies: the signal is 0, and the count unchanged, if not.
  boost : Bool → F → F → F → F
  boost on strength signal eff =
      if on then fl.mul eff (fl.add one_f (fl.mul strength signal)) else eff

  suppress : Bool → F → F → F → F
  suppress on strength signal eff =
      if on then fl.mul eff (fl.sub one_f (fl.mul strength signal)) else eff

  signal_if : Bool → F → F
  signal_if on signal = if on then signal else zero_f

  -- The first loop's body.
  weigh : ScoreParams fl → Transition → ScoreBreakdown fl
  unfolding cwd_affinity prior_affinity failure_rate accept_rate is_known boost suppress signal_if
  weigh p t =
      let age = fl.elapsed p.at_time t.last_seen in
      let weight = fl.exp (fl.div (fl.mul (fl.neg fl.ln2) age) (fl.of_int p.half_life)) in
      let eff0 = fl.mul (fl.of_int t.count) weight in
      let on_cwd = fl.lt zero_f p.beta in
      let by_cwd = cwd_affinity t.cwds t.count p.cwd in
      let eff1 = boost on_cwd p.beta by_cwd eff0 in
      let on_prior = fl.lt zero_f p.delta && is_known p.prior_outcome in
      let by_prior = prior_affinity t p.prior_outcome in
      let eff2 = boost on_prior p.delta by_prior eff1 in
      let on_accept = fl.lt zero_f p.epsilon && ltb 0 t.count in
      let by_accept = accept_rate t in
      let eff3 = boost on_accept p.epsilon by_accept eff2 in
      let on_failure = fl.lt zero_f p.gamma in
      let by_failure = failure_rate t in
      let eff4 = suppress on_failure p.gamma by_failure eff3 in
      record {
        next = t.next;
        count = t.count;
        decay_weight = weight;
        cwd_affinity = signal_if on_cwd by_cwd;
        prior_affinity = signal_if on_prior by_prior;
        accept_rate = signal_if on_accept by_accept;
        failure_rate = signal_if on_failure by_failure;
        eff_count = eff4;
        score = zero_f;
      }

  weigh_all : ScoreParams fl → List Transition → List (ScoreBreakdown fl)
  unfolding weigh
  weigh_all p [] = []
  weigh_all p (t ∷ ts) = weigh p t ∷ weigh_all p ts

  total_eff : F → List (ScoreBreakdown fl) → F
  total_eff total [] = total
  total_eff total (b ∷ bs) = total_eff (fl.add total b.eff_count) bs

  set_scores : F → F → List (ScoreBreakdown fl) → List (ScoreBreakdown fl)
  set_scores alpha denom [] = []
  set_scores alpha denom (b ∷ bs) =
      record b { score = fl.div (fl.add b.eff_count alpha) denom } ∷ set_scores alpha denom bs

  -- The comparison of the sort: the score, then the count, both falling, then the text.
  pub ranks_before : ScoreBreakdown fl → ScoreBreakdown fl → Bool
  ranks_before a b =
      if not (fl.eq a.score b.score)
      then fl.lt b.score a.score
      else if not (a.count == b.count)
      then ltb b.count a.count
      else bytes_lt a.next b.next

  place : ScoreBreakdown fl → List (ScoreBreakdown fl) → List (ScoreBreakdown fl)
  unfolding ranks_before
  place x [] = x ∷ []
  place x (y ∷ ys) = let rest = place x ys in if ranks_before x y then x ∷ y ∷ ys else y ∷ rest

  sort_breakdowns : List (ScoreBreakdown fl) → List (ScoreBreakdown fl)
  unfolding place
  sort_breakdowns [] = []
  sort_breakdowns (x ∷ xs) = place x (sort_breakdowns xs)

  -- scoreTransitionsDetailed
  unfoldable pub score_transitions_detailed :
      List Transition → ScoreParams fl → List (ScoreBreakdown fl)
  unfolding weigh_all total_eff set_scores sort_breakdowns
  score_transitions_detailed [] p = []
  score_transitions_detailed (t ∷ ts) p =
      let bs = weigh_all p (t ∷ ts) in
      let denom = fl.add (total_eff zero_f bs) (fl.mul p.alpha (fl.of_int (length bs))) in
      if fl.le denom zero_f then [] else sort_breakdowns (set_scores p.alpha denom bs)
