-- ===== src/Graph/Distinct.antt =====
-- The maps of a graph hold each key once, and every operation keeps that so.
use hunch.Base.{
  ◌≡◌, refl, inl, inr, Bool-cases, List, [], ◌∷◌, none, Bytes, arith, bytes_eq, bytes_eq_iff,
  bytes_eq_sound, All,
}
use hunch.Base.Assoc.{Assoc, lookup, insert, lookup-insert}
use hunch.Graph.{
  Graph, Entry, Observation, Transition, or_empty, update_entry, observe, record_obs, state_key,
}
use hunch.Graph.Seed.{merge_entry, merge_one, merge_loop}

module _ {ℓ} {V : Type ℓ} where
  abbrev pub HasDistinctKeys : Assoc V → Type ℓ
  HasDistinctKeys [] = Unit
  HasDistinctKeys ((k, v) ∷ m) = (lookup k m ≡ none) × HasDistinctKeys m

  pub insert-HasDistinctKeys :
      (k : Bytes) (v : V) (m : Assoc V) → HasDistinctKeys m → HasDistinctKeys (insert k v m)
  unfolding insert lookup
  insert-HasDistinctKeys k v [] h = (refl, tt)
  insert-HasDistinctKeys k v ((j, w) ∷ m) (fresh, h) = elim (Bool-cases (bytes_eq j k)) [
    | inl e ↦ rw e (rw (← bytes_eq_sound j k e) fresh, h)
    | inr e ↦ rw e (
      rw (lookup-insert k j) (ground (arith, bytes_eq_iff k j, bytes_eq_iff j k)),
      insert-HasDistinctKeys k v m h,
    )
  ]

-- Each inner map has distinct keys.
abbrev pub InnersDistinct : Assoc (Assoc Entry) → Type 0
InnersDistinct m = All (λ (entry : Bytes × Assoc Entry). HasDistinctKeys entry.1) m

pub record IsDistinct (g : Graph) : Type 0 where
  pub outer : HasDistinctKeys g.m
  pub inner : InnersDistinct g.m

insert-InnersDistinct :
    (sk : Bytes) (v : Assoc Entry) (m : Assoc (Assoc Entry))
    → HasDistinctKeys v
    → InnersDistinct m
    → InnersDistinct (insert sk v m)
unfolding insert
insert-InnersDistinct sk v [] hv h = (hv, tt)
insert-InnersDistinct sk v ((j, w) ∷ m) hv (hw, h) = elim (Bool-cases (bytes_eq j sk)) [
  | inl e ↦ rw e (hv, h)
  | inr e ↦ rw e (hw, insert-InnersDistinct sk v m hv h)
]

lookup-InnersDistinct :
    (sk : Bytes) (m : Assoc (Assoc Entry))
    → InnersDistinct m
    → HasDistinctKeys (or_empty (lookup sk m))
unfolding lookup
lookup-InnersDistinct sk [] h = tt
lookup-InnersDistinct sk ((j, w) ∷ m) (hw, h) = elim (Bool-cases (bytes_eq j sk)) [
  | inl e ↦ rw e hw
  | inr e ↦ rw e (lookup-InnersDistinct sk m h)
]

update-IsDistinct :
    (sk next : Bytes) (change : Entry → Entry) (g : Graph)
    → IsDistinct g
    → IsDistinct (update_entry sk next change g)
unfolding update_entry
update-IsDistinct sk next change g h =
    let inner = or_empty (lookup sk g.m) in
    let distinct = lookup-InnersDistinct sk g.m h.inner in
    record {
      outer = insert-HasDistinctKeys sk _ g.m h.outer;
      inner = insert-InnersDistinct sk _ g.m (insert-HasDistinctKeys next _ inner distinct) h.inner;
    }

-- Recording an observation keeps the graph a map of maps: no state key occurs twice, and no next
-- command occurs twice under one key.
pub record_obs-IsDistinct :
    (obs : Observation) (g : Graph) → IsDistinct g → IsDistinct (record_obs obs g)
unfolding record_obs
record_obs-IsDistinct obs g h = elim (Bool-cases (bytes_eq obs.next [])) [
  | inl e ↦ rw e h
  | inr e ↦ rw e (update-IsDistinct (state_key obs.state) obs.next (observe obs) g h)
]

-- Merging the transitions of a seed, in whatever order they stand, keeps the graph a map of maps:
-- no key occurs twice at either level.
pub merge_loop-IsDistinct :
    (seed : List Transition) (g : Graph) → IsDistinct g → IsDistinct (merge_loop seed g)
unfolding merge_loop merge_one
merge_loop-IsDistinct [] g h = h
merge_loop-IsDistinct (t ∷ seed) g h =
    merge_loop-IsDistinct seed (merge_one t g)
      (update-IsDistinct (state_key t.state) t.next (merge_entry t) g h)
