-- ===== src/Graph/Export/Rebuilt.antt =====
-- A line rebuilds the entry that it was taken from.
use hunch.Base.{
  ℕ, max, ◌≡◌, refl, sym, ap, ◌∙◌, inl, inr, false, Bool-cases, [], ◌∷◌, ◌++◌, none, some, Bytes,
  arith, bytes_eq, bytes_eq-sym, append-nil, append_assoc,
}
use hunch.Base.Assoc.{Assoc, lookup, insert}
use hunch.Graph.{Entry, entry_to_transition, zero_entry, count_or_zero}
use hunch.Graph.Distinct.{HasDistinctKeys}
use hunch.Graph.Seed.{merge_cwds, merge_entry}
use hunch.Graph.Export.{keyed}

lookup-middle :
    (j k : Bytes) (c : ℕ) (cwds done : Assoc ℕ)
    → lookup j (done ++ (k, c) ∷ cwds) ≡ none
    → bytes_eq k j ≡ false
unfolding lookup
lookup-middle j k c cwds [] h = ground arith
lookup-middle j k c cwds ((i, n) ∷ done) h = elim (Bool-cases (bytes_eq i j)) [
  | inl e ↦ let wrong : some n ≡ none = rw e at h in absurd (cc)
  | inr e ↦ lookup-middle j k c cwds done (rw e at h)
]

lookup-front :
    (k : Bytes) (c : ℕ) (cwds done : Assoc ℕ)
    → HasDistinctKeys (done ++ (k, c) ∷ cwds)
    → lookup k done ≡ none
unfolding lookup
lookup-front k c cwds [] h = refl
lookup-front k c cwds ((j, n) ∷ done) (fresh, h) =
    let apart = lookup-middle j k c cwds done fresh in
    rw (bytes_eq-sym j k, apart) (lookup-front k c cwds done h)

insert-fresh :
    (k : Bytes) (c : ℕ) (done : Assoc ℕ)
    → lookup k done ≡ none
    → insert k c done ≡ done ++ (k, c) ∷ []
unfolding lookup insert
insert-fresh k c [] h = refl
insert-fresh k c ((j, n) ∷ done) h = elim (Bool-cases (bytes_eq j k)) [
  | inl e ↦ let wrong : some n ≡ none = rw e at h in absurd (cc)
  | inr e ↦ rw e (ap (λ (l : Assoc ℕ). (j, n) ∷ l) (insert-fresh k c done (rw e at h)))
]

-- A histogram is rebuilt from nothing.
merge_cwds-append :
    (cwds done : Assoc ℕ) → HasDistinctKeys (done ++ cwds) → merge_cwds cwds done ≡ done ++ cwds
unfolding merge_cwds
merge_cwds-append [] done h = sym (append-nil done)
merge_cwds-append ((k, c) ∷ cwds) done h =
    let fresh = lookup-front k c cwds done h in
    let line : Assoc ℕ = (k, c) ∷ [] in
    let longer : insert k (max (count_or_zero (lookup k done)) c) done ≡ done ++ line =
      rw fresh
        (insert-fresh k (max 0 c) done fresh ∙ ap (λ (n : ℕ). done ++ (k, n) ∷ []) (omega arith)) in
    ap (merge_cwds cwds) longer
    ∙ merge_cwds-append cwds (done ++ line) (rw (← append_assoc done line cwds) at h)
    ∙ append_assoc done line cwds

pub merge_entry-keyed :
    (sk next : Bytes) (e : Entry)
    → HasDistinctKeys e.cwds
    → merge_entry (keyed sk next e).tr zero_entry ≡ e
unfolding merge_entry entry_to_transition
merge_entry-keyed sk next e h = rw (merge_cwds-append e.cwds [] h) (ground arith)
