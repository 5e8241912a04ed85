-- ===== src/Eval/Tallies.antt =====
-- The numbers that a replay reports.
use hunch.Base.{
  ℕ, ◌+◌, ◌≤◌, ◌≡◌, refl, ◌*◌, sym, ap, subst, inl, inr, not, ◌&&◌, Bool-cases, List, [], ◌∷◌,
  Bytes, arith, if◌then◌else◌, leb, bytes_eq,
}
use hunch.Floats.{Float64}
use hunch.Predict.{Suggestion}
use hunch.Eval.{
  Options, Command, Result, Replay, count_rank, find_rank, score, measure, replay_one, replay_from,
  run, predict_with_fallback, fresh_replay, unix_epoch,
}

-- The commands that are behind the warmup and not empty.
abbrev pub measured : ℕ → ℕ → List Command → ℕ
measured warmup i [] = 0
measured warmup i (cmd ∷ commands) =
    (if leb warmup i && not (bytes_eq cmd.template []) then 1 else 0)
    + measured warmup (i + 1) commands

-- A hit in the top ranks is one in the wider ones, and only what was offered can be hit.
pub record IsTallied (r : Result) : Type 0 where
  pub top1 : r.top1 ≤ r.top3
  pub top3 : r.top3 ≤ r.top5
  pub top5 : r.top5 ≤ r.offered
  pub offered : r.offered ≤ r.scored
  pub baseline_top1 : r.baseline_top1 ≤ r.scored

-- Between the counting of an offer and of its rank there is room for a hit.
record HasRoom (r : Result) : Type 0 where
  top1 : r.top1 ≤ r.top3
  top3 : r.top3 ≤ r.top5
  top5 : r.top5 + 1 ≤ r.offered
  offered : r.offered ≤ r.scored
  baseline_top1 : r.baseline_top1 ≤ r.scored

count_rank-IsTallied : (i : ℕ) (r : Result) → HasRoom r → IsTallied (count_rank i r)
unfolding count_rank
count_rank-IsTallied i r h = ground arith

count_rank-scored : (i : ℕ) (r : Result) → (count_rank i r).scored ≡ r.scored
unfolding count_rank
count_rank-scored i r = ground arith

module _ (fl : Float64) where
  find_rank-IsTallied :
      (i : ℕ) (l : List (Suggestion fl)) (actual : Bytes) (r : Result)
      → HasRoom r
      → IsTallied (find_rank fl i l actual r) × ((find_rank fl i l actual r).scored ≡ r.scored)
  unfolding find_rank
  find_rank-IsTallied i [] actual r h = (omega arith, refl)
  find_rank-IsTallied i (s ∷ l) actual r h = elim (Bool-cases (bytes_eq s.template actual)) [
    | inl e ↦ rw e (count_rank-IsTallied i r h, count_rank-scored i r)
    | inr e ↦ rw e (find_rank-IsTallied (i + 1) l actual r h)
  ]

  score-IsTallied :
      (r : Result) (l : List (Suggestion fl)) (actual : Bytes)
      → IsTallied r
      → r.offered + 1 ≤ r.scored
      → IsTallied (score fl r l actual) × ((score fl r l actual).scored ≡ r.scored)
  unfolding score
  score-IsTallied r [] actual h room = (h, refl)
  score-IsTallied r (s ∷ l) actual h room =
      find_rank-IsTallied 0 (s ∷ l) actual (record r { offered = r.offered + 1 }) (omega arith)

  measure-IsTallied :
      (opts : Options fl) (i : ℕ) (cmd : Command) (st : Replay)
      → IsTallied st.result
      → IsTallied (measure fl opts i cmd st)
        × ((measure fl opts i cmd st).scored
            ≡ st.result.scored
              + (if leb opts.warmup i && not (bytes_eq cmd.template []) then 1 else 0))
  unfolding measure
  measure-IsTallied opts i cmd st h =
      elim (Bool-cases (leb opts.warmup i && not (bytes_eq cmd.template []))) [
        | inr e ↦ rw e (h, omega arith)
        | inl e ↦
            let counted : Result = record st.result {
              scored = st.result.scored + 1;
              baseline_top1 =
                  if bytes_eq st.most_frequent cmd.template
                  then st.result.baseline_top1 + 1
                  else st.result.baseline_top1;
            } in
            let fine : IsTallied counted = ground arith in
            rw e (
              score-IsTallied counted
                (predict_with_fallback fl opts st.g st.prev1 st.prev2 cmd.cwd cmd.prior_outcome
                  (unix_epoch + i * opts.interval))
                cmd.template fine (omega arith))
      ]

  replay_one-result :
      (opts : Options fl) (i : ℕ) (cmd : Command) (st : Replay)
      → (replay_one fl opts i cmd st).result ≡ measure fl opts i cmd st
  unfolding replay_one
  replay_one-result opts i cmd st = elim (Bool-cases (bytes_eq cmd.template [])) [
    | inl e ↦ rw e
    | inr e ↦ rw e
  ]

  replay_from-IsTallied :
      (opts : Options fl) (i : ℕ) (commands : List Command) (st : Replay)
      → IsTallied st.result
      → IsTallied (replay_from fl opts i commands st).result
        × ((replay_from fl opts i commands st).result.scored
            ≡ st.result.scored + measured opts.warmup i commands)
  unfolding replay_from
  replay_from-IsTallied opts i [] st h = (h, omega arith)
  replay_from-IsTallied opts i (cmd ∷ commands) st h =
      let same = replay_one-result opts i cmd st in
      let (fine, counted) = measure-IsTallied opts i cmd st h in
      let (kept, sum) =
        replay_from-IsTallied opts (i + 1) commands (replay_one fl opts i cmd st)
          (subst IsTallied (sym same) fine) in
      (kept, omega (arith, sum, counted, ap (λ (r : Result). r.scored) same))

-- A replay scores exactly the commands behind the warmup that are not empty, and what it counts is
-- nested: the top one among the top three, these among the top five, these among the offers, and
-- the offers and the hits of the baseline among the scored commands.
pub run-IsTallied :
    (fl : Float64) (opts : Options fl) (commands : List Command)
    → IsTallied (run fl opts commands)
      × ((run fl opts commands).scored ≡ measured opts.warmup 0 commands)
unfolding run
run-IsTallied fl opts commands =
    let (fine, counted) = replay_from-IsTallied fl opts 0 commands fresh_replay (omega arith) in
    (fine, omega (arith, counted))
