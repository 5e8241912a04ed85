-- ===== src/Daemon/Lifecycle/Restores.antt =====
-- At any time the graph of the daemon can be saved and read back.
use hunch.Base.{
  ℕ, ◌≡◌, refl, map, codes, bytes_eq, Bool, List, [], ◌∷◌, Option, none, some, Bytes, subst,
}
use hunch.Floats.{Float64}
use hunch.Graph.{Graph, Transition, entry_at, new}
use hunch.Graph.Seed.{MergeResult, merged, rejected, merge, graph_of}
use hunch.Graph.Export.{all, transition_from_graph}
use hunch.Graph.Export.Lines.{whole_entry, map_entry}
use hunch.Graph.Export.Restored.{IsExportable, merge-all}
use hunch.Graph.Export.Kept.{new-IsExportable, merge-IsExportable}
use hunch.RawStore.{RawExample, load}
use hunch.Config.{Options}
use hunch.Daemon.{Daemon, Request}
use hunch.Daemon.Seeding.{decay_daemon, import_seed}
use hunch.Daemon.Seeding.Answers.{import_seed-AllOrError}
use hunch.Daemon.Serve.{Surroundings, serve, transitions}
use hunch.Daemon.Lifecycle.{start, start_with, initial, seed_first_run, Reach}
use hunch.Daemon.Lifecycle.Kept.{Holds, decay_daemon-Holds, AllOrError-Holds, Reach-Holds}

module _ (fl : Float64) (opts : Options fl) where
  seed_first_run-Holds :
      (s : Surroundings) (rows : List Transition) (d : Daemon)
      → Holds d
      → Holds (seed_first_run fl opts s rows d)
  unfolding seed_first_run
  seed_first_run-Holds s (t ∷ rows) d h = h
  seed_first_run-Holds s [] d h =
      elim opts.seed_path
        as (λ path. Holds (elim path as (λ _. Daemon) [
          | [] ↦ d
          | c ∷ p ↦ (import_seed s.files s.decode s.save (c ∷ p) d).0
        ])) [
          | [] ↦ h
          | c ∷ p ↦
              AllOrError-Holds s.files s.decode s.save d h (s.files.read (c ∷ p))
                (import_seed s.files s.decode s.save (c ∷ p) d)
                (import_seed-AllOrError s.files s.decode s.save d (c ∷ p))
        ]

  start-Holds :
      (compile : Bytes → Option (Bytes → Bool)) (s : Surroundings) (rows : List Transition)
      (raw_rows : List RawExample) (d : Daemon)
      → start fl compile opts s rows raw_rows ≡ some d
      → Holds d
  unfolding start start_with
  start-Holds compile s rows raw_rows d started =
      by_rows (merge rows (initial fl compile opts).g)
        (merge-IsExportable rows (initial fl compile opts).g (unfold initial in new-IsExportable 2))
        started
    where
      by_rows :
          (r : MergeResult)
          → IsExportable (graph_of r)
          → (elim r as (λ _. Option Daemon) [
            | rejected e g ↦ none
            | merged g ↦ some (
                decay_daemon fl opts s.now (
                  seed_first_run fl opts s rows (record (initial fl compile opts) {
                    g = g;
                    raws = load raw_rows (initial fl compile opts).raws;
                  })))
          ])
            ≡ some d
          → Holds d
      by_rows (rejected e g) h k = absurd (cc)
      by_rows (merged g) h k =
          let loaded : Daemon = record (initial fl compile opts) {
            g = g;
            raws = load raw_rows (initial fl compile opts).raws;
          } in
          let same : decay_daemon fl opts s.now (seed_first_run fl opts s rows loaded) ≡ d = cc in
          subst Holds same (
            decay_daemon-Holds fl opts s.now (seed_first_run fl opts s rows loaded)
              (seed_first_run-Holds s rows loaded h))

-- Whatever a started daemon has served, flushed and forgotten since, in any order and with any
-- surroundings, it answers an export with transitions that a new graph accepts as a seed, and
-- merging them there gives every state and next command the entry that the daemon has, with all its
-- counters and directories and its time cut to whole seconds, and no other entries.
pub reachable-Restores :
    (fl : Float64) (compile : Bytes → Option (Bytes → Bool)) (opts : Options fl) (s : Surroundings)
    (rows : List Transition) (raw_rows : List RawExample) (d0 d : Daemon) (n : ℕ) (req : Request)
    → start fl compile opts s rows raw_rows ≡ some d0
    → Reach fl opts d0 d
    → (seed : List Transition) × (g : Graph) × (serve fl opts s (codes "export") req d
        ≡ (d, transitions seed))
      × (merge seed (new n) ≡ merged g)
      × ((sk next : Bytes) → entry_at g sk next ≡ map_entry whole_entry (entry_at d.g sk next))
reachable-Restores fl compile opts s rows raw_rows d0 d n req started r =
    let (g, accepted, same) =
      merge-all d.g n
        (Reach-Holds fl opts r (start-Holds fl opts compile s rows raw_rows d0 started)) in
    (map transition_from_graph (all d.g), g, unfold serve bytes_eq in refl, accepted, same)
