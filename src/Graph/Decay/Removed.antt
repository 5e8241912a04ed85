-- ===== src/Graph/Decay/Removed.antt =====
-- The entries that a sweep takes out, and those that it leaves, by their next commands.
use hunch.Base.{
  ◌≡◌, ◌↔◌, refl, ap, ◌∙◌, inl, inr, true, ◌||◌, Bool-cases, List, [], ◌∷◌, ◌++◌, Bool, Option,
  none, some, Bytes, arith, bytes_eq, bytes_eq_sound, bytes_eq_refl, contains, split,
}
use hunch.Base.Assoc.{Assoc, lookup}
use hunch.Graph.{Entry, Transition, or_empty}
use hunch.Graph.Distinct.{HasDistinctKeys, InnersDistinct}
use hunch.Graph.Decay.{keys_of, remaining, prune_inner, prune_outer}

abbrev pub nexts : List Transition → List Bytes
nexts [] = []
nexts (t ∷ ts) = t.next ∷ nexts ts

pub contains-append :
    (xs ys : List Bytes) (t : Bytes) → contains (xs ++ ys) t ≡ (contains xs t || contains ys t)
unfolding contains
contains-append [] ys t = refl
contains-append (x ∷ xs) ys t = ground (arith, contains-append xs ys t)

contains-key :
    (inner : Assoc Entry) (t : Bytes) {e : Entry}
    → lookup t inner ≡ some e
    → contains (keys_of inner) t ≡ true
unfolding contains keys_of lookup
contains-key [] t h = cc
contains-key ((j, e') ∷ inner) t h = elim (Bool-cases (bytes_eq j t)) [
  | inl k ↦ rw k
  | inr k ↦ rw k (contains-key inner t (rw k at h))
]

removed-prune_inner :
    (expired : Entry → Bool) (state : List Bytes) (inner : Assoc Entry) (t : Bytes)
    → HasDistinctKeys inner
    → contains (nexts (prune_inner expired state inner)) t ≡ true
    → (e : Entry) × (lookup t inner ≡ some e) × (expired e ≡ true)
unfolding prune_inner lookup contains
removed-prune_inner expired state [] t d k = absurd (cc k)
removed-prune_inner expired state ((j, e) ∷ inner) t (fresh, d) k =
    elim (Bool-cases (bytes_eq j t)) [
      | inl same ↦ elim (Bool-cases (expired e)) [
        | inl x ↦ rw same (e, refl, x)
        | inr x ↦
            let (e', found, x') = removed-prune_inner expired state inner t d (rw x at k) in
            let gone : lookup t inner ≡ none = rw (← bytes_eq_sound j t same) fresh in
            absurd (cc (found, gone))
      ]
      | inr other ↦ elim (Bool-cases (expired e)) [
        | inl x ↦ rw other (removed-prune_inner expired state inner t d (rw (x, other) at k))
        | inr x ↦ rw other (removed-prune_inner expired state inner t d (rw x at k))
      ]
    ]

reported-prune_inner :
    (expired : Entry → Bool) (state : List Bytes) (inner : Assoc Entry) (t : Bytes)
    → (e : Entry) × (lookup t inner ≡ some e) × (expired e ≡ true)
    → contains (nexts (prune_inner expired state inner)) t ≡ true
unfolding prune_inner lookup contains
reported-prune_inner expired state [] t (e, found, x) = absurd (cc found)
reported-prune_inner expired state ((j, e') ∷ inner) t (e, found, x) =
    elim (Bool-cases (bytes_eq j t)) [
      | inl same ↦
          let own : some e' ≡ some e = rw same at found in
          let entry : e' ≡ e = cc in rw (entry, x, same) refl
      | inr other ↦
          let rest = reported-prune_inner expired state inner t (e, rw other at found, x) in
          elim (Bool-cases (expired e')) [ inl x' ↦ rw (x', other) rest | inr x' ↦ rw x' rest ]
    ]

-- The next commands of the entries that a sweep takes out of one map.
contains-prune_inner :
    (expired : Entry → Bool) (state : List Bytes) (inner : Assoc Entry) (t : Bytes)
    → HasDistinctKeys inner
    → (contains (nexts (prune_inner expired state inner)) t ≡ true)
      ↔ ((e : Entry) × (lookup t inner ≡ some e) × (expired e ≡ true))
contains-prune_inner expired state inner t d =
    (removed-prune_inner expired state inner t d, reported-prune_inner expired state inner t)

nexts-append : (xs ys : List Transition) → nexts (xs ++ ys) ≡ nexts xs ++ nexts ys
nexts-append [] ys = refl
nexts-append (x ∷ xs) ys = ap (λ (l : List Bytes). x.next ∷ l) (nexts-append xs ys)

-- An entry of the other maps stays where it is behind a map with a new key.
entry-behind :
    (j : Bytes) (inner : Assoc Entry) (m : Assoc (Assoc Entry)) (sk t : Bytes) (e : Entry)
    → lookup j m ≡ none
    → lookup t (or_empty (lookup sk m)) ≡ some e
    → lookup t (or_empty (lookup sk ((j, inner) ∷ m))) ≡ some e
unfolding lookup
entry-behind j inner m sk t e fresh found = elim (Bool-cases (bytes_eq j sk)) [
  | inr other ↦ rw other found
  | inl same ↦
      let gone : lookup sk m ≡ none = rw (← bytes_eq_sound j sk same) fresh in
      let empty : lookup t (or_empty (lookup sk m)) ≡ none =
        ap (λ (o : Option (Assoc Entry)). lookup t (or_empty o)) gone in
      absurd (cc (empty, found))
]

entry-front :
    (j : Bytes) (inner : Assoc Entry) (m : Assoc (Assoc Entry)) (t : Bytes)
    → lookup t (or_empty (lookup j ((j, inner) ∷ m))) ≡ lookup t inner
unfolding lookup
entry-front j inner m t = rw (bytes_eq_refl j)

-- An entry for the next command that a sweep takes out.
abbrev pub WasRemoved : (Entry → Bool) → Assoc (Assoc Entry) → Bytes → Type 0
WasRemoved expired m t =
    (sk : Bytes) × (e : Entry) × (lookup t (or_empty (lookup sk m)) ≡ some e) × (expired e ≡ true)

pub removed-prune_outer :
    (expired : Entry → Bool) (m : Assoc (Assoc Entry)) (t : Bytes)
    → HasDistinctKeys m
    → InnersDistinct m
    → contains (nexts (prune_outer expired m)) t ≡ true
    → WasRemoved expired m t
unfolding prune_outer
removed-prune_outer expired [] t d i k = absurd (unfold contains in cc k)
removed-prune_outer expired ((j, inner) ∷ m) t (fresh, d) (di, i) k =
    let here = nexts (prune_inner expired (split 0 j) inner) in
    let both : (contains here t || contains (nexts (prune_outer expired m)) t) ≡ true =
      rw (nexts-append, contains-append) at k in
    elim (Bool-cases (contains here t)) [
      | inl own ↦
          let (e, found, x) = (contains-prune_inner expired (split 0 j) inner t di).0 own in
          (j, e, entry-front j inner m t ∙ found, x)
      | inr none_here ↦
          let (sk, e, found, x) =
            removed-prune_outer expired m t d i (ground (arith, both, none_here)) in
          (sk, e, entry-behind j inner m sk t e fresh found, x)
    ]

pub reported-prune_outer :
    (expired : Entry → Bool) (m : Assoc (Assoc Entry)) (t : Bytes)
    → InnersDistinct m
    → WasRemoved expired m t
    → contains (nexts (prune_outer expired m)) t ≡ true
unfolding prune_outer
reported-prune_outer expired [] t i (sk, e, found, x) = absurd (unfold lookup in cc found)
reported-prune_outer expired ((j, inner) ∷ m) t (di, i) (sk, e, found, x) =
    rw (nexts-append, contains-append)
      (elim (Bool-cases (bytes_eq j sk)) [
        | inl same ↦
            let own : lookup t inner ≡ some e = unfold lookup in rw same at found in
            rw ((contains-prune_inner expired (split 0 j) inner t di).1 (e, own, x))
        | inr other ↦
            let further : lookup t (or_empty (lookup sk m)) ≡ some e =
              unfold lookup in rw other at found in
            rw (reported-prune_outer expired m t i (sk, e, further, x)) (ground arith)
      ])

key-found :
    (inner : Assoc Entry) (t : Bytes)
    → contains (keys_of inner) t ≡ true
    → (e : Entry) × (lookup t inner ≡ some e)
unfolding contains keys_of lookup
key-found [] t h = absurd (cc)
key-found ((j, e) ∷ inner) t h = elim (Bool-cases (bytes_eq j t)) [
  | inl k ↦ rw k (e, refl)
  | inr k ↦ rw k (key-found inner t (rw k at h))
]

pub remaining-found :
    (m : Assoc (Assoc Entry)) (t : Bytes)
    → HasDistinctKeys m
    → contains (remaining m) t ≡ true
    → (sk : Bytes) × (e : Entry) × (lookup t (or_empty (lookup sk m)) ≡ some e)
unfolding remaining
remaining-found [] t d h = absurd (unfold contains in cc h)
remaining-found ((j, inner) ∷ m) t (fresh, d) h =
    let both : (contains (keys_of inner) t || contains (remaining m) t) ≡ true =
      rw contains-append at h in
    elim (Bool-cases (contains (keys_of inner) t)) [
      | inl own ↦ let (e, found) = key-found inner t own in (j, e, entry-front j inner m t ∙ found)
      | inr none_here ↦
          let (sk, e, found) = remaining-found m t d (ground (arith, both, none_here)) in
          (sk, e, entry-behind j inner m sk t e fresh found)
    ]

pub contains-remaining :
    (m : Assoc (Assoc Entry)) (sk t : Bytes) {e : Entry}
    → lookup t (or_empty (lookup sk m)) ≡ some e
    → contains (remaining m) t ≡ true
unfolding remaining lookup
contains-remaining [] sk t h = cc
contains-remaining ((j, inner) ∷ m) sk t h = elim (Bool-cases (bytes_eq j sk)) [
  | inl k ↦ rw (contains-append, contains-key inner t (rw k at h))
  | inr k ↦ rw (contains-append, contains-remaining m sk t (rw k at h)) (ground arith)
]
