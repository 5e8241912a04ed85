-- ===== src/Daemon/Lifecycle.antt =====
-- daemon/daemon.go: a daemon starts from what the database has, and then serves requests, flushes
-- and forgets, in any order. Its goroutines take turns: a request, a flush and a sweep each are one
-- step. Locks, sockets and the process are left out, and what the database and the file system say
-- is a parameter of each step.
pub mod Kept
pub mod Restores
mod Examples
use hunch.Base.{ℕ, Bool, true, false, List, [], ◌∷◌, Option, none, some, Bytes, if◌then◌else◌}
use hunch.Floats.{Float64}
use hunch.Normalize.{merge_parents}
use hunch.Redact
use hunch.Graph.{Graph, Transition}
use hunch.Graph
use hunch.Graph.Seed.{MergeResult, merged, rejected, merge}
use hunch.RawStore.{RawExample, load}
use hunch.RawStore
use hunch.Config.{Options, half_life}
use hunch.Daemon.{Daemon, Request}
use hunch.Daemon.Seeding.{import_seed, flush, decay_daemon}
use hunch.Daemon.Serve.{Surroundings, serve}

module _ (fl : Float64) where
  -- Run: the daemon before anything is loaded. `compile` compiles the user's expressions.
  initial : (Bytes → Option (Bytes → Bool)) → Options fl → Daemon
  unfolding half_life merge_parents Graph.new RawStore.new Redact.new
  initial compile opts = record {
    g = Graph.new 2;
    raws = RawStore.new (half_life fl opts);
    parents = merge_parents opts.extra_parents;
    redactor = Redact.new compile opts.ignore;
    dirty = 0;
    flush_requested = false;
  }

  -- The seed of a first run; what goes wrong with it is only logged.
  seed_first_run : Options fl → Surroundings → List Transition → Daemon → Daemon
  unfolding import_seed
  seed_first_run opts s (t ∷ rows) d = d
  seed_first_run opts s [] d = elim opts.seed_path [
    | [] ↦ d
    | c ∷ path ↦ (import_seed s.files s.decode s.save (c ∷ path) d).0
  ]

  start_with :
      Options fl → Surroundings → List Transition → List RawExample → Daemon → Option Daemon
  unfolding merge load seed_first_run decay_daemon
  start_with opts s rows raw_rows d = elim (merge rows d.g) [
    | rejected e g ↦ none
    | merged g ↦ some (
        decay_daemon fl opts s.now
          (seed_first_run opts s rows (record d { g = g; raws = load raw_rows d.raws })))
  ]

  -- start, from the loaded rows on: a row that cannot be merged keeps the daemon from starting.
  unfoldable pub start :
      (Bytes → Option (Bytes → Bool))
      → Options fl
      → Surroundings
      → List Transition
      → List RawExample
      → Option Daemon
  unfolding initial start_with
  start compile opts s rows raw_rows = start_with opts s rows raw_rows (initial compile opts)

  -- flushLoop, decayLoop and acceptLoop: what may happen next.
  pub data Step (opts : Options fl) : Daemon → Daemon → Type 0 where
    request :
        (s : Surroundings) (op : Bytes) (req : Request) (d : Daemon)
        → Step opts d (serve fl opts s op req d).0
    flushes : (save : List Transition → Bool) (d : Daemon) → Step opts d (flush save d)
    sweeps : (now : ℕ) (d : Daemon) → Step opts d (decay_daemon fl opts now d)

  pub data Reach (opts : Options fl) (d : Daemon) : Daemon → Type 0 where
    here : Reach opts d d
    next : {d' d'' : Daemon} → Reach opts d d' → Step opts d' d'' → Reach opts d d''
