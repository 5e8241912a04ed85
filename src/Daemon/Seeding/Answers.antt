-- ===== src/Daemon/Seeding/Answers.antt =====
-- What an import may answer, and what its answer then says.
use hunch.Base.{◌≡◌, ◌≢◌, ◌⊎◌, refl, Bool, List, [], Option, none, some, Bytes}
use hunch.Graph.{Graph, Transition}
use hunch.Graph.Seed.{
  MergeError, MergeResult, merged, rejected, merge, merge_checked, Validation, valid, invalid,
  validate_transitions, SeedError, validate_seed,
}
use hunch.Daemon.{Daemon, Request}
use hunch.Daemon.Seeding.{
  ImportError, unreadable, bad_json, bad_seed, bad_merge, path_required, bad_path, not_found,
  stat_failed, symlink_refused, not_regular, import_failed, missing, no_status, symlink, special,
  regular, Files, FileStatus, ImportResponse, imported, flush, merge_seed, import_seed_from_bytes,
  import_seed,
}

-- A merge that is refused hands back the graph that it was given.
rejected_same :
    (seed : List Transition) (g : Graph) (e : MergeError) (g' : Graph)
    → merge seed g ≡ rejected e g'
    → g' ≡ g
unfolding merge merge_checked
rejected_same seed g e g' h = by_check (validate_transitions seed) h
  where
    by_check : (v : Validation) → merge_checked v seed g ≡ rejected e g' → g' ≡ g
    by_check valid k = absurd (cc)
    by_check (invalid x) k = cc

module _ (files : Files) (decode : Bytes → Option (List Transition)) (save : List Transition → Bool)
    (d : Daemon) where
  -- A text was decoded to a seed that is valid and mergeable, its transitions are merged into the
  -- graph, the graph is flushed, and nothing else changes.
  pub record IsMerged (content : Option Bytes) (d' : Daemon) : Type 0 where
    pub text : Bytes
    pub given : content ≡ some text
    pub seed : List Transition
    pub decoded : decode text ≡ some seed
    pub valid_seed : validate_seed seed ≡ none
    pub graph : Graph
    pub merged_graph : merge seed d.g ≡ merged graph
    pub flushed : d' ≡ flush save (record d { g = graph })

  -- The content fails the test that the error names, and passes those before it.
  abbrev pub IsRefused : Option Bytes → ImportError → Type 0
  IsRefused content unreadable = content ≡ none
  IsRefused content bad_json = (text : Bytes) × (content ≡ some text) × (decode text ≡ none)
  IsRefused content (bad_seed e) =
      (text : Bytes) × (seed : List Transition) × (content ≡ some text)
      × (decode text ≡ some seed)
      × (validate_seed seed ≡ some e)
  IsRefused content (bad_merge e) =
      (text : Bytes) × (seed : List Transition) × (g : Graph) × (content ≡ some text)
      × (decode text ≡ some seed)
      × (validate_seed seed ≡ none)
      × (merge seed d.g ≡ rejected e g)

  abbrev pub AllOrError : Option Bytes → Daemon × Option ImportError → Type 0
  AllOrError content (d', none) = IsMerged content d'
  AllOrError content (d', some e) = (d' ≡ d) × IsRefused content e

  -- A request without data names a file by a path that can be made absolute.
  pub record IsAt (req : Request) (path : Bytes) : Type 0 where
    pub no_data : req.seed_data ≡ []
    pub named : req.next ≢ []
    pub absolute : files.absolute req.next ≡ some path

  -- What the request gives: its data, or what is read of the regular file that it names.
  abbrev pub Gives : Request → Option Bytes → Type 0
  Gives req content =
      ((req.seed_data ≢ []) × (content ≡ some req.seed_data))
      ⊎ ((path : Bytes) × IsAt req path
          × (files.status path ≡ regular)
          × (files.read path ≡ content))

  -- The file that the request names has the status that refuses it.
  abbrev IsBarred : Request → FileStatus → Daemon → Type 0
  IsBarred req status d' =
      (d' ≡ d) × ((path : Bytes) × IsAt req path × (files.status path ≡ status))

  -- What an import leaves: all of the seed that the request gives, or nothing, for the reason that
  -- the answer names.
  abbrev pub AllOrNothing : Request → Daemon × ImportResponse → Type 0
  AllOrNothing req (d', imported) =
      (content : Option Bytes) × Gives req content × IsMerged content d'
  AllOrNothing req (d', import_failed e) =
      (d' ≡ d) × ((content : Option Bytes) × Gives req content × IsRefused content e)
  AllOrNothing req (d', path_required) = (d' ≡ d) × (req.seed_data ≡ []) × (req.next ≡ [])
  AllOrNothing req (d', bad_path) =
      (d' ≡ d) × (req.seed_data ≡ []) × (req.next ≢ []) × (files.absolute req.next ≡ none)
  AllOrNothing req (d', not_found) = IsBarred req missing d'
  AllOrNothing req (d', stat_failed) = IsBarred req no_status d'
  AllOrNothing req (d', symlink_refused) = IsBarred req symlink d'
  AllOrNothing req (d', not_regular) = IsBarred req special d'

  merge_seed-AllOrError :
      (text : Bytes) (seed : List Transition)
      → decode text ≡ some seed
      → validate_seed seed ≡ none
      → AllOrError (some text) (merge_seed save seed d)
  unfolding merge_seed
  merge_seed-AllOrError text seed decoded ok = by_result (merge seed d.g) refl
    where
      by_result :
          (r : MergeResult)
          → merge seed d.g ≡ r
          → AllOrError (some text) (elim r as (λ _. Daemon × Option ImportError) [
            | merged g ↦ (flush save (record d { g = g }), none)
            | rejected e g ↦ (record d { g = g }, some (bad_merge e))
          ])
      by_result (merged g) e = record {
        text = text;
        given = refl;
        seed = seed;
        decoded = decoded;
        valid_seed = ok;
        graph = g;
        merged_graph = e;
        flushed = refl;
      }
      by_result (rejected err g) e =
          let same = rejected_same seed d.g err g e in
          ((λ i. record d { g = same i }), (text, seed, g, refl, decoded, ok, e))

  pub import_seed_from_bytes-AllOrError :
      (text : Bytes) → AllOrError (some text) (import_seed_from_bytes decode save text d)
  unfolding import_seed_from_bytes
  import_seed_from_bytes-AllOrError text = by_text (decode text) refl
    where
      by_seed :
          (seed : List Transition) (v : Option SeedError)
          → decode text ≡ some seed
          → validate_seed seed ≡ v
          → AllOrError (some text) (elim v as (λ _. Daemon × Option ImportError) [
            | some e ↦ (d, some (bad_seed e))
            | none ↦ merge_seed save seed d
          ])
      by_seed seed (some e) decoded ok = (refl, (text, seed, refl, decoded, ok))
      by_seed seed none decoded ok = merge_seed-AllOrError text seed decoded ok

      by_text :
          (o : Option (List Transition))
          → decode text ≡ o
          → AllOrError (some text) (elim o as (λ _. Daemon × Option ImportError) [
            | none ↦ (d, some bad_json)
            | some seed ↦ elim (validate_seed seed) [
              | some e ↦ (d, some (bad_seed e))
              | none ↦ merge_seed save seed d
            ]
          ])
      by_text none e = (refl, (text, refl, e))
      by_text (some seed) e = by_seed seed (validate_seed seed) e refl

  pub import_seed-AllOrError :
      (path : Bytes) → AllOrError (files.read path) (import_seed files decode save path d)
  unfolding import_seed
  import_seed-AllOrError path =
      elim (files.read path)
        as (λ o. AllOrError o (elim o as (λ _. Daemon × Option ImportError) [
          | none ↦ (d, some unreadable)
          | some text ↦ import_seed_from_bytes decode save text d
        ])) [ none ↦ (refl, refl) | some text ↦ import_seed_from_bytes-AllOrError text ]
