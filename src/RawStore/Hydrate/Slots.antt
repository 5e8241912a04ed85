-- ===== src/RawStore/Hydrate/Slots.antt =====
-- Which suggestions hydration shows, and how many.
use hunch.Base.{
  ◌≡◌, refl, sym, ap, ℕ, zero, suc, ◌-◌, ◌≤◌, List, [], ◌∷◌, ◌++◌, Bytes, arith, take, length,
  length-append, length-take_le,
}
use hunch.Floats.{Float64}
use hunch.Predict.{Suggestion}
use hunch.RawStore.{RawStore}
use hunch.RawStore.Hydrate.{
  RawScore, hydrate, top_n, top_slots, fill_top, fill_rest, headroom, count_ties, set_raw, best,
  max_hydration_candidates,
}

-- The templates of a list of suggestions, in order.
abbrev pub templates : (fl : Float64) → List (Suggestion fl) → List Bytes
templates fl [] = []
templates fl (sug ∷ sugs) = sug.template ∷ templates fl sugs

abbrev pub copies : ℕ → Bytes → List Bytes
copies zero t = []
copies (suc n) t = t ∷ copies n t

module _ (fl : Float64) where
  templates-append :
      (xs ys : List (Suggestion fl)) → templates fl (xs ++ ys) ≡ templates fl xs ++ templates fl ys
  templates-append [] ys = refl
  templates-append (x ∷ xs) ys = ap (λ l. x.template ∷ l) (templates-append xs ys)

  length-templates : (xs : List (Suggestion fl)) → length (templates fl xs) ≡ length xs
  length-templates [] = refl
  length-templates (x ∷ xs) = ap suc (length-templates xs)

  templates-fill_top :
      (top : Suggestion fl) (rs : List (RawScore fl))
      → templates fl (fill_top fl top rs) ≡ copies (length rs) top.template
  unfolding fill_top
  templates-fill_top top [] = refl
  templates-fill_top top (r ∷ rs) = ap (λ l. top.template ∷ l) (templates-fill_top top rs)

  template-set_raw :
      (raw : Bytes) (sug : Suggestion fl) → (set_raw fl raw sug).template ≡ sug.template
  unfolding set_raw
  template-set_raw [] sug = refl
  template-set_raw (c ∷ raw) sug = refl

  templates-fill_rest :
      (s : RawStore) (state : List Bytes) (prefix : Bytes) (arg_tokens : List Bytes) (at_time : ℕ)
      (sugs : List (Suggestion fl))
      → templates fl (fill_rest fl s state prefix arg_tokens at_time sugs) ≡ templates fl sugs
  unfolding fill_rest
  templates-fill_rest s state prefix arg_tokens at_time [] = refl
  templates-fill_rest s state prefix arg_tokens at_time (sug ∷ sugs) =
      rw (template-set_raw (best fl s state sug.template prefix arg_tokens at_time) sug)
        (ap (λ l. sug.template ∷ l) (templates-fill_rest s state prefix arg_tokens at_time sugs))

  count_ties_le : (b : fl.F) (room : ℕ) (rs : List (RawScore fl)) → count_ties fl b room rs ≤ room
  unfolding count_ties
  count_ties_le b zero rs = omega arith
  count_ties_le b (suc room) [] = omega arith
  count_ties_le b (suc room) (r ∷ rs) = ground (arith, count_ties_le b room rs)

  -- The top suggestion has its own slot and no more extra ones than there is room.
  top_slots_lem :
      (top : Suggestion fl) (room : ℕ) (ranked : List (RawScore fl))
      → (extra : ℕ) × ((extra ≤ room)
          × (templates fl (top_slots fl top room ranked) ≡ copies (suc extra) top.template))
  unfolding top_slots
  top_slots_lem top room [] = (0, (omega arith, refl))
  top_slots_lem top room (r ∷ rs) =
      let shown = take (count_ties fl r.score room rs) rs in
      (
        length shown,
        (
          omega (
            arith,
            length-take_le (count_ties fl r.score room rs) rs,
            count_ties_le r.score room rs,
          ),
          templates-fill_top top (r ∷ shown),
        ),
      )

  headroom_le_two : (limit n : ℕ) → headroom fl limit n ≤ 2
  unfolding headroom
  headroom_le_two zero n = omega arith
  headroom_le_two (suc limit) n = omega arith

  headroom_le_room : (limit n : ℕ) → 1 ≤ limit → headroom fl limit n ≤ limit - n
  unfolding headroom
  headroom_le_room zero n h = omega arith
  headroom_le_room (suc limit) n h = omega arith

  hydrate-copies :
      (s : RawStore) (top : Suggestion fl) (sugs : List (Suggestion fl)) (state : List Bytes)
      (prefix : Bytes) (arg_tokens : List Bytes) (at_time limit : ℕ)
      → (extra : ℕ) × ((extra ≤ headroom fl limit (length (top ∷ sugs)))
          × (templates fl (hydrate fl s (top ∷ sugs) state prefix arg_tokens at_time limit)
              ≡ copies (suc extra) top.template ++ templates fl sugs))
  unfolding hydrate
  hydrate-copies s top sugs state prefix arg_tokens at_time limit =
      let slots =
        top_slots_lem top (headroom fl limit (length (top ∷ sugs)))
          (top_n fl s state top.template prefix arg_tokens at_time max_hydration_candidates) in
      (
        slots.0,
        (
          slots.1.0,
          rw (
            templates-append,
            slots.1.1,
            templates-fill_rest s state prefix arg_tokens at_time sugs,
          ),
        ),
      )

-- Hydration shows every suggestion in its place, and only the top one more than once: it gets at
-- most two extra slots.
pub hydrate-templates :
    (fl : Float64) (s : RawStore) (top : Suggestion fl) (sugs : List (Suggestion fl))
    (state : List Bytes) (prefix : Bytes) (arg_tokens : List Bytes) (at_time limit : ℕ)
    → (extra : ℕ) × ((extra ≤ 2)
        × (templates fl (hydrate fl s (top ∷ sugs) state prefix arg_tokens at_time limit)
            ≡ copies (suc extra) top.template ++ templates fl sugs))
hydrate-templates fl s top sugs state prefix arg_tokens at_time limit =
    let h = hydrate-copies fl s top sugs state prefix arg_tokens at_time limit in
    (h.0, (omega (arith, h.1.0, headroom_le_two fl limit (length (top ∷ sugs))), h.1.1))

length-copies : (n : ℕ) (t : Bytes) → length (copies n t) ≡ n
length-copies zero t = refl
length-copies (suc n) t = ap suc (length-copies n t)

-- Under a positive limit that the suggestions respect, what hydration shows respects it too.
pub hydrate_bounds :
    (fl : Float64) (s : RawStore) (sugs : List (Suggestion fl)) (state : List Bytes)
    (prefix : Bytes) (arg_tokens : List Bytes) (at_time limit : ℕ)
    → 1 ≤ limit
    → length sugs ≤ limit
    → length (hydrate fl s sugs state prefix arg_tokens at_time limit) ≤ limit
hydrate_bounds fl s [] state prefix arg_tokens at_time limit h fits = unfold hydrate in omega arith
hydrate_bounds fl s (top ∷ sugs) state prefix arg_tokens at_time limit h fits =
    let shown = hydrate-copies fl s top sugs state prefix arg_tokens at_time limit in
    omega (
      arith,
      shown.1.0,
      headroom_le_room fl limit (length (top ∷ sugs)) h,
      sym (length-templates fl (hydrate fl s (top ∷ sugs) state prefix arg_tokens at_time limit)),
      ap length shown.1.1,
      length-append (copies (suc shown.0) top.template) (templates fl sugs),
      length-copies (suc shown.0) top.template,
      length-templates fl sugs,
    )
