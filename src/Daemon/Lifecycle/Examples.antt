-- ===== src/Daemon/Lifecycle/Examples.antt =====
-- The theorems at a daemon that is started, asked and imported into.
use hunch.Base.{◌≡◌, refl, Bool, true, List, [], ◌∷◌, Option, none, some, Bytes, codes, bytes_eq}
use hunch.Floats.Examples.{naturals}
use hunch.Graph.{Graph, Transition, entry_at, new}
use hunch.Graph.Seed.{merged, merge, merge_checked, validate_transitions}
use hunch.Graph.Export.Lines.{whole_entry, map_entry}
use hunch.Config.{defaults}
use hunch.Daemon.{Daemon, Request}
use hunch.Daemon.Seeding.{Files, regular, handle_import, flush}
use hunch.Daemon.Seeding.Answers.{AllOrNothing}
use hunch.Daemon.Seeding.Refused.{handle_import-AllOrNothing}
use hunch.Daemon.Serve.{Surroundings, serve, transitions}
use hunch.Daemon.Lifecycle.{start, start_with, request, flushes, here, next}
use hunch.Daemon.Lifecycle.Restores.{reachable-Restores}
use hunch.Daemon.Examples.{no_compiler, daemon, clock, push}

abbrev row : Transition
row = record {
  state = codes "git add" ∷ [];
  next = codes "git commit";
  count = 3;
  last_seen = 7;
  cwds = [];
  next_success = 1;
  next_failure = 1;
  prior_success = 0;
  prior_failure = 0;
  accepted = 1;
}

abbrev files : Files
files = record {
  absolute = λ path. some path;
  status = λ path. regular;
  read = λ path. some (codes "seed");
}

abbrev decode : Bytes → Option (List Transition)
decode text = some (row ∷ [])

abbrev save : List Transition → Bool
save ts = true

abbrev surroundings : Surroundings
surroundings = record { request_time = clock; now = 9; files = files; decode = decode; save = save }

abbrev seeding : Request
seeding = record push { next = codes "/p/seed.json" }

handle_import-AllOrNothing_example :
    AllOrNothing files decode save daemon seeding (handle_import files decode save seeding daemon)
handle_import-AllOrNothing_example = handle_import-AllOrNothing files decode save daemon seeding

or_daemon : Option Daemon → Daemon
or_daemon none = daemon
or_daemon (some d) = d

abbrev started : Daemon
started = or_daemon (start naturals no_compiler (defaults naturals) surroundings (row ∷ []) [])

started_well :
    start naturals no_compiler (defaults naturals) surroundings (row ∷ []) [] ≡ some started
unfolding start start_with merge merge_checked validate_transitions or_daemon bytes_eq
started_well = refl

abbrev later : Daemon
later = flush save (serve naturals (defaults naturals) surroundings (codes "record") push started).0

reachable-Restores_example :
    (seed : List Transition) × (g : Graph) × (serve naturals
        (defaults naturals)
        surroundings
        (codes "export")
        push
        later
      ≡ (later, transitions seed))
    × (merge seed (new 2) ≡ merged g)
    × ((sk next : Bytes) → entry_at g sk next ≡ map_entry whole_entry (entry_at later.g sk next))
reachable-Restores_example =
    reachable-Restores naturals no_compiler (defaults naturals) surroundings (row ∷ []) [] started
      later 2 push started_well
      (next (next here (request surroundings (codes "record") push started)) (
        flushes save
          (serve naturals (defaults naturals) surroundings (codes "record") push started).0))
