-- ===== src/Graph/Export/Restored.antt =====
-- An export restores the graph that it was taken from.
use hunch.Base.{
  ℕ, ◌≤◌, ◌≡◌, ◌≢◌, refl, sym, ap, ◌∙◌, inl, inr, Bool-cases, List, [], ◌∷◌, Option, none, some,
  Bytes, bytes_eq_refl, subst, split-ne-nil, All, map,
}
use hunch.Base.Assoc.{lookup}
use hunch.Graph.{Graph, Entry, Transition, entry_to_transition, entry_at, new}
use hunch.Graph.Distinct.{HasDistinctKeys, IsDistinct}
use hunch.Graph.Seed.{merge_loop, merge, merged, merge_checked}
use hunch.Graph.Export.{Keyed, keyed, collect, sort_keyed, tr_of, all, transition_from_graph}
use hunch.Graph.Export.Listed.{
  is_at, find, find-at, IsUnique, sort_keyed-lists, listed, find-collect, collect-IsUnique,
}
use hunch.Graph.Export.Lines.{
  merged_by, IsLine, state_key-split, entry_at-merge_loop, validate_from-valid, whole_entry,
  map_entry, written, written_at, written-all, find-written, written-IsUnique, written-IsLine,
}
use hunch.Graph.Export.Rebuilt.{merge_entry-keyed}

-- An entry that was counted, under a next command that is not empty, and that names each directory
-- once.
pub record IsSound (next : Bytes) (e : Entry) : Type 0 where
  pub named : next ≢ []
  pub counted : 1 ≤ e.count
  pub placed : HasDistinctKeys e.cwds

-- A graph that can be exported: a map of maps with sound entries.
pub record IsExportable (g : Graph) : Type 0 where
  pub distinct : IsDistinct g
  pub entries : (sk next : Bytes) (e : Entry) → entry_at g sk next ≡ some e → IsSound next e

-- What holds of all that is found holds of a list.
All-found {ℓ} :
    (P : Keyed → Type ℓ) (l : List Keyed)
    → IsUnique l
    → ((sk next : Bytes) (x : Keyed) → find sk next l ≡ some x → P x)
    → All P l
All-found P [] u h = tt
All-found P (x ∷ l) (fresh, u) h = (
  h x.state_key x.tr.next x (rw (bytes_eq_refl x.state_key, bytes_eq_refl x.tr.next)),
  All-found P l u (λ sk next y found. h sk next y (later sk next y found)),
)
  where
    later : (sk next : Bytes) (y : Keyed) → find sk next l ≡ some y → find sk next (x ∷ l) ≡ some y
    later sk next y found = elim (Bool-cases (is_at sk next x)) [
      | inl e ↦ let gone = find-at sk next x l fresh e in cc
      | inr e ↦ rw e found
    ]

keyed-IsLine : (sk next : Bytes) (e : Entry) → IsSound next e → IsLine (keyed sk next e)
unfolding entry_to_transition
keyed-IsLine sk next e h = record {
  own_key = state_key-split sk;
  has_state = split-ne-nil 0 sk;
  has_next = h.named;
  has_count = h.counted;
}

module _ (g : Graph) (h : IsExportable g) where
  sorted : List Keyed
  sorted = sort_keyed (collect g.m)

  sorted-finds : (sk next : Bytes) → find sk next sorted ≡ listed sk next (entry_at g sk next)
  unfolding sorted
  sorted-finds sk next =
      (sort_keyed-lists (collect g.m) (collect-IsUnique g.m h.distinct.outer h.distinct.inner)).1 sk
        next
      ∙ find-collect sk next g.m h.distinct.outer

  sorted-IsUnique : IsUnique sorted
  unfolding sorted
  sorted-IsUnique =
      (sort_keyed-lists (collect g.m) (collect-IsUnique g.m h.distinct.outer h.distinct.inner)).0

  sorted-lines : All IsLine sorted
  sorted-lines = All-found IsLine sorted sorted-IsUnique (λ sk next x found.
      line sk next x (entry_at g sk next) refl (sym (sorted-finds sk next) ∙ found))
    where
      line :
          (sk next : Bytes) (x : Keyed) (o : Option Entry)
          → entry_at g sk next ≡ o
          → listed sk next o ≡ some x
          → IsLine x
      line sk next x none e found = absurd (cc)
      line sk next x (some entry) e found =
          let same : keyed sk next entry ≡ x = cc in
          subst IsLine same (keyed-IsLine sk next entry (h.entries sk next entry e))

  restored :
      (sk next : Bytes)
      → merged_by (find sk next (map written sorted)) none
        ≡ map_entry whole_entry (entry_at g sk next)
  unfolding transition_from_graph entry_to_transition
  restored sk next =
      rw (find-written sk next sorted, sorted-finds sk next) (rebuilt (entry_at g sk next) refl)
    where
      rebuilt :
          (o : Option Entry)
          → entry_at g sk next ≡ o
          → merged_by (written_at (listed sk next o)) none ≡ map_entry whole_entry o
      rebuilt none e = refl
      rebuilt (some entry) e =
          ap some (merge_entry-keyed sk next (whole_entry entry) (h.entries sk next entry e).placed)

-- What an export writes is a seed that a new graph accepts, and merging it there gives every state
-- and next command the entry that the exported graph has, with its time cut to whole seconds.
pub merge-all :
    (g : Graph) (n : ℕ)
    → IsExportable g
    → (g' : Graph) × (merge (map transition_from_graph (all g)) (new n) ≡ merged g')
      × ((sk next : Bytes) → entry_at g' sk next ≡ map_entry whole_entry (entry_at g sk next))
unfolding merge all sorted new lookup
merge-all g n h =
    let lines = map written (sorted g h) in
    let unique = written-IsUnique (sorted g h) (sorted-IsUnique g h) in
    let sound = written-IsLine (sorted g h) (sorted-lines g h) in
    (
      merge_loop (map tr_of lines) (new n),
      ap (λ (l : List Transition). merge l (new n)) (written-all (sorted g h))
          ∙ ap (λ v. merge_checked v (map tr_of lines) (new n)) (validate_from-valid 0 lines sound),
      λ sk next. entry_at-merge_loop lines (new n) sk next unique sound ∙ restored g h sk next,
    )
