-- ===== src/RawStore/Hydrate.antt =====
-- daemon/rawstore.go, hydrate and what it calls: the concrete commands shown for a suggestion.
pub mod Slots
use hunch.Base.{
  ℕ, zero, suc, ◌+◌, ◌-◌, min, Bool, true, false, ◌&&◌, List, [], ◌∷◌, ◌++◌, Bytes, ◌==◌, ltb,
  if◌then◌else◌, contains, take, length, starts_with,
}
use hunch.Base.Assoc.{Assoc, lookup}
use hunch.Floats.{Float64}
use hunch.Tokenize.{tokenize}
use hunch.Predict.{Suggestion}
use hunch.RawStore.{RawStore, RawEntry, raw_outer_key, or_empty}

pub record RawScore (fl : Float64) : Type 0 where
  pub raw : Bytes
  pub score : fl.F

abbrev pub max_hydration_candidates : ℕ
max_hydration_candidates = 3

module _ (fl : Float64) where
  -- One boost for each argument token that the raw command has.
  boosts : List Bytes → List Bytes → fl.F → fl.F
  boosts raw_tokens [] score = score
  boosts raw_tokens (tok ∷ toks) score =
      boosts raw_tokens toks
        (if contains raw_tokens tok then fl.add score (fl.of_int 100) else score)

  recency : RawStore → RawEntry → ℕ → fl.F
  recency s e at_time =
      if e.last_seen == 0
      then fl.decimal 1 1
      else fl.exp
          (fl.div (fl.mul (fl.neg fl.ln2) (fl.elapsed at_time e.last_seen)) (fl.of_int s.half_life))

  score_raw : RawStore → RawEntry → Bytes → List Bytes → ℕ → fl.F
  unfolding boosts recency tokenize
  score_raw s e raw arg_tokens at_time =
      boosts (tokenize raw) arg_tokens (fl.mul (fl.of_int e.count) (recency s e at_time))

  score_bucket : RawStore → List Bytes → ℕ → Assoc RawEntry → List (RawScore fl)
  unfolding score_raw
  score_bucket s arg_tokens at_time [] = []
  score_bucket s arg_tokens at_time ((raw, e) ∷ inner) =
      record { raw = raw; score = score_raw s e raw arg_tokens at_time }
      ∷ score_bucket s arg_tokens at_time inner

  with_prefix : Bytes → List (RawScore fl) → List (RawScore fl)
  with_prefix prefix [] = []
  with_prefix prefix (r ∷ rs) =
      let rest = with_prefix prefix rs in if starts_with prefix r.raw then r ∷ rest else rest

  -- `if prefix != "" && len(prefixScored) > 0 { scored = prefixScored }`
  prefer_prefix : Bytes → List (RawScore fl) → List (RawScore fl)
  unfolding with_prefix
  prefer_prefix [] scored = scored
  prefer_prefix (c ∷ prefix) scored = elim (with_prefix (c ∷ prefix) scored) [
    | [] ↦ scored
    | r ∷ rs ↦ r ∷ rs
  ]

  place_raw : RawScore fl → List (RawScore fl) → List (RawScore fl)
  place_raw x [] = x ∷ []
  place_raw x (y ∷ ys) =
      let rest = place_raw x ys in if fl.lt x.score y.score then y ∷ rest else x ∷ y ∷ ys

  sort_raws : List (RawScore fl) → List (RawScore fl)
  unfolding place_raw
  sort_raws [] = []
  sort_raws (x ∷ xs) = place_raw x (sort_raws xs)

  rank_bucket : RawStore → Assoc RawEntry → Bytes → List Bytes → ℕ → ℕ → List (RawScore fl)
  unfolding score_bucket prefer_prefix sort_raws
  rank_bucket s inner prefix arg_tokens at_time n =
      let sorted = sort_raws (prefer_prefix prefix (score_bucket s arg_tokens at_time inner)) in
      if ltb 0 n && ltb n (length sorted) then take n sorted else sorted

  -- One round of `topNLocked`, at one window of the state; an empty result goes on.
  ranked_at : RawStore → List Bytes → Bytes → Bytes → List Bytes → ℕ → ℕ → List (RawScore fl)
  unfolding rank_bucket raw_outer_key
  ranked_at s state template prefix arg_tokens at_time n =
      elim (or_empty (lookup (raw_outer_key state template) s.m)) [
        | [] ↦ []
        | x ∷ inner ↦ rank_bucket s (x ∷ inner) prefix arg_tokens at_time n
      ]

  unfoldable pub top_n :
      RawStore → List Bytes → Bytes → Bytes → List Bytes → ℕ → ℕ → List (RawScore fl)
  unfolding ranked_at
  top_n s [] template prefix arg_tokens at_time n =
      ranked_at s [] template prefix arg_tokens at_time n
  top_n s (t ∷ state) template prefix arg_tokens at_time n =
      let shorter = top_n s state template prefix arg_tokens at_time n in
      elim (ranked_at s (t ∷ state) template prefix arg_tokens at_time n) [
        | [] ↦ shorter
        | r ∷ rs ↦ r ∷ rs
      ]

  -- bestLocked
  best : RawStore → List Bytes → Bytes → Bytes → List Bytes → ℕ → Bytes
  unfolding top_n
  best s state template prefix arg_tokens at_time =
      elim (top_n s state template prefix arg_tokens at_time 1) [ [] ↦ [] | r ∷ rs ↦ r.raw ]

  -- `extra`: the runners-up in a row that are close to the best one, as far as there is room.
  count_ties : fl.F → ℕ → List (RawScore fl) → ℕ
  count_ties best_score zero rest = 0
  count_ties best_score (suc room) [] = 0
  count_ties best_score (suc room) (r ∷ rest) =
      let more = count_ties best_score room rest in
      if fl.le (fl.mul best_score (fl.decimal 5 1)) r.score then suc more else 0

  headroom : ℕ → ℕ → ℕ
  headroom zero n = max_hydration_candidates - 1
  headroom (suc limit) n = min (max_hydration_candidates - 1) (suc limit - n)

  -- The copies of the top suggestion, one for each literal command.
  fill_top : Suggestion fl → List (RawScore fl) → List (Suggestion fl)
  fill_top top [] = []
  fill_top top (r ∷ rs) = record top { raw = r.raw } ∷ fill_top top rs

  top_slots : Suggestion fl → ℕ → List (RawScore fl) → List (Suggestion fl)
  unfolding count_ties fill_top
  top_slots top room [] = top ∷ []
  top_slots top room (r ∷ rs) = fill_top top (r ∷ take (count_ties r.score room rs) rs)

  set_raw : Bytes → Suggestion fl → Suggestion fl
  set_raw [] sug = sug
  set_raw (c ∷ raw) sug = record sug { raw = c ∷ raw }

  fill_rest :
      RawStore → List Bytes → Bytes → List Bytes → ℕ → List (Suggestion fl) → List (Suggestion fl)
  unfolding set_raw best
  fill_rest s state prefix arg_tokens at_time [] = []
  fill_rest s state prefix arg_tokens at_time (sug ∷ sugs) =
      set_raw (best s state sug.template prefix arg_tokens at_time) sug
      ∷ fill_rest s state prefix arg_tokens at_time sugs

  unfoldable pub hydrate :
      RawStore
      → List (Suggestion fl)
      → List Bytes
      → Bytes
      → List Bytes
      → ℕ
      → ℕ
      → List (Suggestion fl)
  unfolding top_slots fill_rest headroom
  hydrate s [] state prefix arg_tokens at_time limit = []
  hydrate s (top ∷ sugs) state prefix arg_tokens at_time limit =
      top_slots top (headroom limit (length (top ∷ sugs)))
        (top_n s state top.template prefix arg_tokens at_time max_hydration_candidates)
      ++ fill_rest s state prefix arg_tokens at_time sugs
