-- ===== src/Graph/Export/Kept.antt =====
-- Every operation of a graph keeps it exportable.
use hunch.Base.{
  ℕ, ◌≡◌, ◌≢◌, refl, sym, ◌∙◌, inl, inr, Bool, true, false, Bool-cases, Option-cases, List, [], ◌∷◌,
  Option, none, some, Bytes, arith, if◌then◌else◌, bytes_eq, bytes_eq_sound, bytes_eq_refl,
  and-eq_true, subst, All, ◌&&◌, not,
}
use hunch.Base.Assoc.{Assoc, lookup}
use hunch.Floats.{Float64}
use hunch.Graph.{
  Graph, Entry, Observation, Transition, entry_at, or_zero, count_cwd, observe, record_obs,
  state_key, new,
}
use hunch.Graph.Observed.{entry_at-update, entry_at-record_obs, concerns}
use hunch.Graph.Distinct.{
  HasDistinctKeys, insert-HasDistinctKeys, record_obs-IsDistinct, merge_loop-IsDistinct,
}
use hunch.Graph.Seed.{
  merge_cwds, merge_entry, merge_one, merge_loop, merge, merge_checked, graph_of, Validation, valid,
  invalid, validate_transitions,
}
use hunch.Graph.Seed.Refusal.{IsImportable, Reports, merge-Reports}
use hunch.Graph.Decay.{decay, is_expired}
use hunch.Graph.Decay.Survivors.{survivor, decay-survivor, decay-IsDistinct}
use hunch.Graph.Export.Restored.{IsSound, IsExportable}

pub new-IsExportable : (n : ℕ) → IsExportable (new n)
unfolding new lookup
new-IsExportable n = record {
  distinct = record { outer = tt; inner = tt };
  entries = λ sk next e h. absurd (cc);
}

-- What an entry was before, a missing one included.
or_zero-placed :
    (g : Graph) (sk next : Bytes)
    → IsExportable g
    → HasDistinctKeys (or_zero (entry_at g sk next)).cwds
or_zero-placed g sk next h = elim (Option-cases (entry_at g sk next)) [
  | inl e ↦ rw e tt
  | inr (e, found) ↦ rw found (h.entries sk next e found).placed
]

count_cwd-HasDistinctKeys :
    (cwd : Bytes) (cwds : Assoc ℕ) → HasDistinctKeys cwds → HasDistinctKeys (count_cwd cwd cwds)
unfolding count_cwd
count_cwd-HasDistinctKeys [] cwds h = h
count_cwd-HasDistinctKeys (c ∷ cwd) cwds h = insert-HasDistinctKeys (c ∷ cwd) _ cwds h

concerns-named : (sk next : Bytes) (obs : Observation) → concerns sk next obs ≡ true → next ≢ []
concerns-named sk next obs k empty =
    let (there, here) =
      and-eq_true (not (bytes_eq obs.next []))
        (bytes_eq (state_key obs.state) sk && bytes_eq obs.next next) k in
    let same =
      bytes_eq_sound obs.next next
        (and-eq_true (bytes_eq (state_key obs.state) sk) (bytes_eq obs.next next) here).1 in
    let wrong : bytes_eq obs.next [] ≡ true = rw (same, empty) (bytes_eq_refl []) in cc

pub record_obs-IsExportable :
    (obs : Observation) (g : Graph) → IsExportable g → IsExportable (record_obs obs g)
record_obs-IsExportable obs g h = record {
  distinct = record_obs-IsDistinct obs g h.distinct;
  entries = λ sk next e found.
      entry sk next e (concerns sk next obs) refl (sym (entry_at-record_obs obs g sk next) ∙ found);
}
  where
    entry :
        (sk next : Bytes) (e : Entry) (c : Bool)
        → concerns sk next obs ≡ c
        → (if c then some (observe obs (or_zero (entry_at g sk next))) else entry_at g sk next)
          ≡ some e
        → IsSound next e
    entry sk next e false k found = h.entries sk next e found
    entry sk next e true k found =
        let same : observe obs (or_zero (entry_at g sk next)) ≡ e = cc in
        subst (IsSound next) same (record {
          named = concerns-named sk next obs k;
          counted = unfold observe in omega arith;
          placed =
              unfold observe in count_cwd-HasDistinctKeys obs.cwd _ (or_zero-placed g sk next h);
        })

merge_cwds-HasDistinctKeys :
    (more cwds : Assoc ℕ) → HasDistinctKeys cwds → HasDistinctKeys (merge_cwds more cwds)
unfolding merge_cwds
merge_cwds-HasDistinctKeys [] cwds h = h
merge_cwds-HasDistinctKeys ((cwd, c) ∷ more) cwds h =
    merge_cwds-HasDistinctKeys more _ (insert-HasDistinctKeys cwd _ cwds h)

merge_one-IsExportable :
    (t : Transition) (g : Graph) → IsImportable t → IsExportable g → IsExportable (merge_one t g)
unfolding merge_one merge_loop
merge_one-IsExportable t g (s, n, c) h = record {
  distinct = merge_loop-IsDistinct (t ∷ []) g h.distinct;
  entries = λ sk next e found.
      entry sk next e (bytes_eq (state_key t.state) sk) (bytes_eq t.next next) refl refl
        (sym (entry_at-update (state_key t.state) t.next (merge_entry t) g sk next) ∙ found);
}
  where
    entry :
        (sk next : Bytes) (e : Entry) (a b : Bool)
        → bytes_eq (state_key t.state) sk ≡ a
        → bytes_eq t.next next ≡ b
        → (if a && b
            then some (merge_entry t (or_zero (entry_at g (state_key t.state) t.next)))
            else entry_at g sk next)
          ≡ some e
        → IsSound next e
    entry sk next e false b ea eb found = h.entries sk next e found
    entry sk next e true false ea eb found = h.entries sk next e found
    entry sk next e true true ea eb found =
        let same : merge_entry t (or_zero (entry_at g (state_key t.state) t.next)) ≡ e = cc in
        subst (IsSound next) same (record {
          named = rw (← bytes_eq_sound t.next next eb) n;
          counted = unfold merge_entry in omega arith;
          placed =
              unfold merge_entry in
              merge_cwds-HasDistinctKeys t.cwds _ (or_zero-placed g (state_key t.state) t.next h);
        })

merge_loop-IsExportable :
    (seed : List Transition) (g : Graph)
    → All IsImportable seed
    → IsExportable g
    → IsExportable (merge_loop seed g)
unfolding merge_loop
merge_loop-IsExportable [] g fine h = h
merge_loop-IsExportable (t ∷ seed) g (ft, fine) h =
    merge_loop-IsExportable seed (merge_one t g) fine (merge_one-IsExportable t g ft h)

pub merge-IsExportable :
    (seed : List Transition) (g : Graph) → IsExportable g → IsExportable (graph_of (merge seed g))
unfolding merge merge_checked
merge-IsExportable seed g h = by_check (validate_transitions seed) (merge-Reports seed g)
  where
    by_check :
        (v : Validation)
        → Reports seed g (merge_checked v seed g)
        → IsExportable (graph_of (merge_checked v seed g))
    by_check valid fine = merge_loop-IsExportable seed g fine h
    by_check (invalid e) why = h

pub decay-IsExportable :
    (fl : Float64) (at_time half_life max_idle : ℕ) (g : Graph)
    → IsExportable g
    → IsExportable (decay fl at_time half_life max_idle g).0
decay-IsExportable fl at_time half_life max_idle g h = record {
  distinct = decay-IsDistinct fl at_time half_life max_idle g h.distinct;
  entries = λ sk next e found. h.entries sk next e (
      was (entry_at g sk next) e
        (sym (decay-survivor fl at_time half_life max_idle g sk next h.distinct) ∙ found));
}
  where
    was :
        (o : Option Entry) (e : Entry)
        → survivor (is_expired fl at_time half_life max_idle) o ≡ some e
        → o ≡ some e
    was none e found = found
    was (some x) e found = elim (Bool-cases (is_expired fl at_time half_life max_idle x)) [
      | inl k ↦ let wrong : none ≡ some e = rw k at found in absurd (cc)
      | inr k ↦ rw k at found
    ]
