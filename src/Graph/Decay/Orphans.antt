-- ===== src/Graph/Decay/Orphans.antt =====
-- Which next commands a sweep reports as gone for good.
use hunch.Base.{
  ◌↔◌, Bool, ℕ, ◌≡◌, refl, ◌∙◌, inl, inr, true, false, not, ◌&&◌, ◌||◌, Bool-cases, Option-cases,
  List, [], ◌∷◌, ◌++◌, none, some, Bytes, arith, bytes_eq, bytes_eq_sound, contains,
}
use hunch.Base.Assoc.{lookup}
use hunch.Floats.{Float64}
use hunch.Graph.{Graph, Entry, Transition, entry_at, or_empty}
use hunch.Graph.Distinct.{IsDistinct}
use hunch.Graph.Decay.Survivors.{decay-IsDistinct}
use hunch.Graph.Decay.Removed.{
  nexts, contains-append, contains-remaining, removed-prune_outer, reported-prune_outer,
  remaining-found,
}
use hunch.Graph.Decay.{
  remaining, orphans, decay_result, sweep, decay, is_expired, prune_outer, keep_outer,
}

-- The loop adds the pruned next commands that are neither kept nor there already.
contains-orphans :
    (kept seen : List Bytes) (pruned : List Transition) (t : Bytes)
    → contains (orphans kept seen pruned) t
      ≡ (contains seen t || (contains (nexts pruned) t && not (contains kept t)))
unfolding orphans
contains-orphans kept seen [] t = unfold contains in ground arith
contains-orphans kept seen (p ∷ pruned) t =
    elim (Bool-cases (contains kept p.next || contains seen p.next)) [
      | inl k ↦ rw k (contains-orphans kept seen pruned t ∙ skipped k)
      | inr k ↦ rw k (contains-orphans kept (seen ++ p.next ∷ []) pruned t ∙ added k)
    ]
  where
    same : bytes_eq p.next t ≡ true → p.next ≡ t
    same e = bytes_eq_sound p.next t e

    skipped :
        (contains kept p.next || contains seen p.next) ≡ true
        → (contains seen t || (contains (nexts pruned) t && not (contains kept t)))
          ≡ (contains seen t || (contains (p.next ∷ nexts pruned) t && not (contains kept t)))
    skipped k = elim (Bool-cases (bytes_eq p.next t)) [
      | inl e ↦ unfold contains in ground (arith, e, (rw (same e) at k))
      | inr e ↦ unfold contains in ground (arith, e)
    ]

    added :
        (contains kept p.next || contains seen p.next) ≡ false
        → (contains (seen ++ p.next ∷ []) t || (contains (nexts pruned) t && not (contains kept t)))
          ≡ (contains seen t || (contains (p.next ∷ nexts pruned) t && not (contains kept t)))
    added k = elim (Bool-cases (bytes_eq p.next t)) [
      | inl e ↦ rw contains-append (unfold contains in ground (arith, e, (rw (same e) at k)))
      | inr e ↦ rw contains-append (unfold contains in ground (arith, e))
    ]

contains-decay_result :
    (kept : List Bytes) (pruned : List Transition) (t : Bytes)
    → contains (decay_result kept pruned).orphaned t
      ≡ (contains (nexts pruned) t && not (contains kept t))
unfolding decay_result
contains-decay_result kept [] t = unfold contains in refl
contains-decay_result kept (p ∷ pruned) t =
    contains-orphans kept [] (p ∷ pruned) t ∙ unfold contains in refl

orphaned-reports :
    (fl : Float64) (at_time half_life max_idle : ℕ) (g : Graph) (t : Bytes)
    → contains (decay fl at_time half_life max_idle g).1.orphaned t ≡ (
        contains (nexts (prune_outer (is_expired fl at_time half_life max_idle) g.m)) t
        && not (contains (remaining (decay fl at_time half_life max_idle g).0.m) t))
unfolding decay sweep
orphaned-reports fl at_time half_life max_idle g t =
    let expired = is_expired fl at_time half_life max_idle in
    contains-decay_result (remaining (keep_outer expired g.m)) (prune_outer expired g.m) t

pub decay-orphaned_gone :
    (fl : Float64) (at_time half_life max_idle : ℕ) (g : Graph) (t : Bytes)
    → contains (decay fl at_time half_life max_idle g).1.orphaned t ≡ true
    → (sk : Bytes) → entry_at (decay fl at_time half_life max_idle g).0 sk t ≡ none
decay-orphaned_gone fl at_time half_life max_idle g t orphan sk =
    let left = (decay fl at_time half_life max_idle g).0.m in
    let exact = orphaned-reports fl at_time half_life max_idle g t in
    elim (Option-cases (lookup t (or_empty (lookup sk left)))) [
      | inl missing ↦ missing
      | inr found ↦ absurd (ground (arith, contains-remaining left sk t found.1))
    ]

-- In a graph that is a map of maps, a next command is reported as orphaned exactly if the sweep
-- takes out one of its entries, an expired one at some state, and no state of the graph that is
-- left has an entry for it.
pub decay-orphaned :
    (fl : Float64) (at_time half_life max_idle : ℕ) (g : Graph) (t : Bytes)
    → IsDistinct g
    → (contains (decay fl at_time half_life max_idle g).1.orphaned t ≡ true) ↔ (
        ((sk : Bytes) × (e : Entry) × (entry_at g sk t ≡ some e)
          × (is_expired fl at_time half_life max_idle e ≡ true))
        × ((sk : Bytes) → entry_at (decay fl at_time half_life max_idle g).0 sk t ≡ none))
decay-orphaned fl at_time half_life max_idle g t d = (
  λ orphan. (
    removed-prune_outer expired g.m t d.outer d.inner (ground (arith, exact, orphan)),
    decay-orphaned_gone fl at_time half_life max_idle g t orphan,
  ),
  λ h. elim (Bool-cases (contains (remaining left.m) t)) [
    | inl kept ↦
        let (sk, e, found) =
          remaining-found left.m t (decay-IsDistinct fl at_time half_life max_idle g d).outer
            kept in
        absurd (cc (h.1 sk, found))
    | inr gone ↦ ground (arith, exact, gone, reported-prune_outer expired g.m t d.inner h.0)
  ],
)
  where
    expired : Entry → Bool
    expired = is_expired fl at_time half_life max_idle

    left : Graph
    left = (decay fl at_time half_life max_idle g).0

    exact :
        contains (decay fl at_time half_life max_idle g).1.orphaned t
        ≡ (contains (nexts (prune_outer expired g.m)) t && not (contains (remaining left.m) t))
    exact = orphaned-reports fl at_time half_life max_idle g t
