-- ===== src/Graph/Decay/Survivors.antt =====
-- What a sweep keeps.
use hunch.Base.{
  ℕ, ◌≡◌, refl, sym, ap, ◌∙◌, inl, inr, Bool, true, false, Bool-cases, [], ◌∷◌, Option, none, some,
  Bytes, arith, if◌then◌else◌, bytes_eq, bytes_eq_sound,
}
use hunch.Base.Assoc.{Assoc, lookup}
use hunch.Floats.{Float64}
use hunch.Graph.{Graph, Entry, entry_at, or_empty}
use hunch.Graph.Distinct.{HasDistinctKeys, InnersDistinct, IsDistinct}
use hunch.Graph.Decay.{keep_inner, keep_outer, put_back, sweep, decay, is_expired}

-- An entry that has not expired, as it was.
abbrev pub survivor : (Entry → Bool) → Option Entry → Option Entry
survivor expired none = none
survivor expired (some e) = if expired e then none else some e

abbrev or_rest : Assoc Entry → Assoc Entry → Assoc Entry
or_rest [] rest = rest
or_rest (x ∷ l) rest = x ∷ l

or_rest-nil : (l rest : Assoc Entry) → rest ≡ [] → or_rest l rest ≡ l
or_rest-nil [] rest h = h
or_rest-nil (x ∷ l) rest h = refl

put_back-IsDistinct :
    (expired : Entry → Bool) (sk : Bytes) (inner : Assoc Entry) (m : Assoc (Assoc Entry))
    → lookup sk m ≡ none
    → HasDistinctKeys inner
    → HasDistinctKeys m × InnersDistinct m
    → HasDistinctKeys (put_back expired sk inner m) × InnersDistinct (put_back expired sk inner m)
unfolding put_back
put_back-IsDistinct expired sk [] m fresh hi h = h
put_back-IsDistinct expired sk (x ∷ inner) m fresh hi h = ((fresh, h.0), (hi, h.1))

module _ (expired : Entry → Bool) where
  lookup-keep_inner :
      (next : Bytes) (inner : Assoc Entry)
      → HasDistinctKeys inner
      → lookup next (keep_inner expired inner) ≡ survivor expired (lookup next inner)
  unfolding lookup keep_inner
  lookup-keep_inner next [] h = refl
  lookup-keep_inner next ((j, e) ∷ inner) (fresh, h) =
      let ih = lookup-keep_inner next inner h in
      elim (Bool-cases (bytes_eq j next)) [
        | inl k ↦
            let gone : lookup next inner ≡ none = rw (← bytes_eq_sound j next k) fresh in
            let rest : lookup next (keep_inner expired inner) ≡ none =
              ih ∙ ap (survivor expired) gone in
            ground (arith, k, rest)
        | inr k ↦ ground (arith, k, ih)
      ]

  lookup-put_back :
      (sk sk' : Bytes) (inner : Assoc Entry) (m : Assoc (Assoc Entry))
      → or_empty (lookup sk' (put_back expired sk inner m)) ≡ (
          if bytes_eq sk sk'
          then or_rest inner (or_empty (lookup sk' m))
          else or_empty (lookup sk' m))
  unfolding lookup put_back
  lookup-put_back sk sk' [] m = ground arith
  lookup-put_back sk sk' (x ∷ inner) m = ground arith

  no_entries :
      (sk : Bytes) (m : Assoc (Assoc Entry))
      → lookup sk m ≡ none
      → lookup sk (keep_outer expired m) ≡ none
  unfolding lookup keep_outer put_back
  no_entries sk [] h = refl
  no_entries sk ((j, inner) ∷ m) h = elim (Bool-cases (bytes_eq j sk)) [
    | inl k ↦ absurd (cc (k))
    | inr k ↦ dropped (keep_inner expired inner) k (no_entries sk m (rw k at h))
  ]
    where
      dropped :
          (l : Assoc Entry)
          → bytes_eq j sk ≡ false
          → lookup sk (keep_outer expired m) ≡ none
          → lookup sk (put_back expired j l (keep_outer expired m)) ≡ none
      dropped [] k e = e
      dropped (x ∷ l) k e = rw k e

  lookup-keep_outer :
      (sk : Bytes) (m : Assoc (Assoc Entry))
      → HasDistinctKeys m
      → or_empty (lookup sk (keep_outer expired m)) ≡ keep_inner expired (or_empty (lookup sk m))
  unfolding keep_outer
  lookup-keep_outer sk [] h = unfold lookup keep_inner in refl
  lookup-keep_outer sk ((j, inner) ∷ m) (fresh, h) =
      rw (lookup-put_back j sk (keep_inner expired inner) (keep_outer expired m))
        (elim (Bool-cases (bytes_eq j sk)) [
          | inl k ↦
              let gone : or_empty (lookup sk (keep_outer expired m)) ≡ [] =
                ap or_empty (no_entries sk m (rw (← bytes_eq_sound j sk k) fresh)) in
              rw k (
                or_rest-nil (keep_inner expired inner) _ gone
                ∙ ap (λ (o : Option (Assoc Entry)). keep_inner expired (or_empty o))
                    (sym (found k)))
          | inr k ↦ rw k (
              lookup-keep_outer sk m h
              ∙ ap (λ (o : Option (Assoc Entry)). keep_inner expired (or_empty o)) (sym (passed k)))
        ])
    where
      found : bytes_eq j sk ≡ true → lookup sk ((j, inner) ∷ m) ≡ some inner
      found k = unfold lookup in rw k

      passed : bytes_eq j sk ≡ false → lookup sk ((j, inner) ∷ m) ≡ lookup sk m
      passed k = unfold lookup in rw k

  lookup_distinct :
      (sk : Bytes) (m : Assoc (Assoc Entry))
      → InnersDistinct m
      → HasDistinctKeys (or_empty (lookup sk m))
  unfolding lookup
  lookup_distinct sk [] h = tt
  lookup_distinct sk ((j, inner) ∷ m) (hi, h) = elim (Bool-cases (bytes_eq j sk)) [
    | inl k ↦ rw k hi
    | inr k ↦ rw k (lookup_distinct sk m h)
  ]

  sweep-survivor :
      (g : Graph) (sk next : Bytes)
      → IsDistinct g
      → entry_at (sweep expired g).0 sk next ≡ survivor expired (entry_at g sk next)
  unfolding sweep
  sweep-survivor g sk next h =
      ap (lookup next) (lookup-keep_outer sk g.m h.outer)
      ∙ lookup-keep_inner next (or_empty (lookup sk g.m)) (lookup_distinct sk g.m h.inner)

  keep_inner-HasDistinctKeys :
      (inner : Assoc Entry) → HasDistinctKeys inner → HasDistinctKeys (keep_inner expired inner)
  unfolding keep_inner
  keep_inner-HasDistinctKeys [] h = tt
  keep_inner-HasDistinctKeys ((j, e) ∷ inner) (fresh, h) = elim (Bool-cases (expired e)) [
    | inl k ↦ rw k (keep_inner-HasDistinctKeys inner h)
    | inr k ↦ rw k (
      lookup-keep_inner j inner h ∙ ap (survivor expired) fresh,
      keep_inner-HasDistinctKeys inner h,
    )
  ]

  keep_outer-IsDistinct :
      (m : Assoc (Assoc Entry))
      → HasDistinctKeys m
      → InnersDistinct m
      → HasDistinctKeys (keep_outer expired m) × InnersDistinct (keep_outer expired m)
  unfolding keep_outer
  keep_outer-IsDistinct [] h inners = (tt, tt)
  keep_outer-IsDistinct ((j, inner) ∷ m) (fresh, h) (hi, inners) =
      put_back-IsDistinct expired j (keep_inner expired inner) (keep_outer expired m)
        (no_entries j m fresh) (keep_inner-HasDistinctKeys inner hi)
        (keep_outer-IsDistinct m h inners)

-- A sweep removes exactly the entries whose weight has faded or that have been idle too long, and
-- leaves every other entry with its counters and times as they were.
pub decay-survivor :
    (fl : Float64) (at_time half_life max_idle : ℕ) (g : Graph) (sk next : Bytes)
    → IsDistinct g
    → entry_at (decay fl at_time half_life max_idle g).0 sk next
      ≡ survivor (is_expired fl at_time half_life max_idle) (entry_at g sk next)
unfolding decay
decay-survivor fl at_time half_life max_idle g sk next h =
    sweep-survivor (is_expired fl at_time half_life max_idle) g sk next h

pub decay-IsDistinct :
    (fl : Float64) (at_time half_life max_idle : ℕ) (g : Graph)
    → IsDistinct g
    → IsDistinct (decay fl at_time half_life max_idle g).0
unfolding decay sweep
decay-IsDistinct fl at_time half_life max_idle g h =
    let kept =
      keep_outer-IsDistinct (is_expired fl at_time half_life max_idle) g.m h.outer h.inner in
    record { outer = kept.0; inner = kept.1 }
