-- ===== src/Daemon/Seeding.antt =====
-- daemon/daemon.go and daemon/handlers.go: importing a seed, flushing, the daily sweep and the reset.
-- The decoder of JSON, the file system and the database are parameters: `save` says whether the
-- database takes the transitions that are saved.
pub mod Answers
pub mod Refused
use hunch.Base.{
  ℕ, Bool, true, false, ◌&&◌, ◌||◌, List, [], ◌∷◌, Option, none, some, Bytes, if◌then◌else◌, ltb,
}
use hunch.Floats.{Float64}
use hunch.Graph.{Graph, Transition}
use hunch.Graph
use hunch.Graph.Export.{all}
use hunch.Graph.Seed.{MergeError, MergeResult, merged, rejected, merge, SeedError, validate_seed}
use hunch.Graph.Decay.{DecayResult, decay}
use hunch.RawStore.{drop_orphaned}
use hunch.RawStore
use hunch.Config.{Options, half_life, max_idle}
use hunch.Daemon.{Daemon, Request}

pub data ImportError : Type 0 where
  unreadable bad_json : ImportError
  bad_seed : SeedError → ImportError
  bad_merge : MergeError → ImportError

-- What `os.Lstat` says of a path.
pub data FileStatus : Type 0 where
  missing no_status symlink special regular : FileStatus

pub data ImportResponse : Type 0 where
  imported path_required bad_path not_found stat_failed symlink_refused not_regular : ImportResponse
  import_failed : ImportError → ImportResponse

-- The files, as the process sees them: `filepath.Abs`, `os.Lstat`, `os.ReadFile`.
pub record Files : Type 0 where
  pub absolute : Bytes → Option Bytes
  pub status : Bytes → FileStatus
  pub read : Bytes → Option Bytes

-- flushDB: an empty graph is not saved, and what the raw examples meet is only logged.
pub flush_db : (List Transition → Bool) → Graph → Bool
unfolding all
flush_db save g = elim (all g) [ [] ↦ true | t ∷ ts ↦ save (t ∷ ts) ]

-- The signed word is above 0.
is_above_zero : ℕ → Bool
is_above_zero n = ltb 0 n && ltb n 2147483648

unfoldable pub flush : (List Transition → Bool) → Daemon → Daemon
unfolding flush_db is_above_zero
flush save d =
    if flush_db save d.g
    then record d { dirty = 0; flush_requested = d.flush_requested || is_above_zero d.dirty }
    else d

merge_seed : (List Transition → Bool) → List Transition → Daemon → Daemon × Option ImportError
unfolding merge flush
merge_seed save seed d = elim (merge seed d.g) [
  | merged g ↦ (flush save (record d { g = g }), none)
  | rejected e g ↦ (record d { g = g }, some (bad_merge e))
]

-- importSeedFromBytes; `decode` is `json.Unmarshal` into the transitions of a seed.
unfoldable pub import_seed_from_bytes :
    (Bytes → Option (List Transition))
    → (List Transition → Bool)
    → Bytes
    → Daemon
    → Daemon × Option ImportError
unfolding merge_seed validate_seed
import_seed_from_bytes decode save text d = elim (decode text) [
  | none ↦ (d, some bad_json)
  | some seed ↦ elim (validate_seed seed) [
    | some e ↦ (d, some (bad_seed e))
    | none ↦ merge_seed save seed d
  ]
]

-- importSeed
unfoldable pub import_seed :
    Files
    → (Bytes → Option (List Transition))
    → (List Transition → Bool)
    → Bytes
    → Daemon
    → Daemon × Option ImportError
unfolding import_seed_from_bytes
import_seed files decode save path d = elim (files.read path) [
  | none ↦ (d, some unreadable)
  | some text ↦ import_seed_from_bytes decode save text d
]

respond : Daemon × Option ImportError → Daemon × ImportResponse
respond (d, none) = (d, imported)
respond (d, some e) = (d, import_failed e)

-- checkImportable
check_importable : FileStatus → Option ImportResponse
check_importable missing = some not_found
check_importable no_status = some stat_failed
check_importable symlink = some symlink_refused
check_importable special = some not_regular
check_importable regular = none

import_file :
    Files
    → (Bytes → Option (List Transition))
    → (List Transition → Bool)
    → Bytes
    → Daemon
    → Daemon × ImportResponse
unfolding import_seed respond check_importable
import_file files decode save next d = elim (files.absolute next) [
  | none ↦ (d, bad_path)
  | some path ↦ elim (check_importable (files.status path)) [
    | some refusal ↦ (d, refusal)
    | none ↦ respond (import_seed files decode save path d)
  ]
]

-- The predictor that the handler renews is built over the graph at each request (Fallback).
unfoldable pub handle_import :
    Files
    → (Bytes → Option (List Transition))
    → (List Transition → Bool)
    → Request
    → Daemon
    → Daemon × ImportResponse
unfolding import_file import_seed_from_bytes respond
handle_import files decode save req d = elim req.seed_data [
  | c ∷ text ↦ respond (import_seed_from_bytes decode save (c ∷ text) d)
  | [] ↦ elim req.next [
    | [] ↦ (d, path_required)
    | c ∷ next ↦ import_file files decode save (c ∷ next) d
  ]
]

unfoldable pub handle_reset : Daemon → Daemon
unfolding Graph.new RawStore.reset
handle_reset d = record d { g = Graph.new 2; raws = RawStore.reset d.raws; dirty = 0 }

-- `decay`; with nothing pruned nothing is orphaned either.
unfoldable pub decay_daemon : (fl : Float64) → Options fl → ℕ → Daemon → Daemon
unfolding decay drop_orphaned half_life max_idle
decay_daemon fl opts now d =
    let (g, result) = decay fl now (half_life fl opts) (max_idle fl opts) d.g in
    record d { g = g; raws = drop_orphaned result.orphaned d.raws }
