-- ===== src/Daemon/Lifecycle/Kept.antt =====
-- Every step of the daemon keeps its graph exportable.
use hunch.Base.{
  ℕ, sym, inl, inr, Bool, Bool-cases, List, [], ◌∷◌, Option, none, some, Bytes, codes,
  if◌then◌else◌, bytes_eq, subst,
}
use hunch.Floats.{Float64}
use hunch.Redact.{is_sensitive}
use hunch.Graph.{Graph, Transition}
use hunch.Graph.Seed.{merge, graph_of}
use hunch.Graph.Export.Restored.{IsExportable}
use hunch.Graph.Export.Kept.{
  new-IsExportable, record_obs-IsExportable, merge-IsExportable, decay-IsExportable,
}
use hunch.Config.{Options, half_life, max_idle}
use hunch.Daemon.{
  Daemon, Request, Response, handle_record, store_request, record_graph, observation,
  handle_record_raws, handle_normalize, ok, bad_at, last_or_empty, recorded_states,
}
use hunch.Daemon.Seeding.{
  ImportError, Files, path_required, bad_path, not_found, stat_failed, symlink_refused, not_regular,
  import_failed, ImportResponse, imported, flush, flush_db, decay_daemon, handle_import,
  handle_reset,
}
use hunch.Daemon.Seeding.Answers.{AllOrNothing, IsMerged, AllOrError}
use hunch.Daemon.Seeding.Refused.{handle_import-AllOrNothing}
use hunch.Daemon.Serve.{Surroundings, serve}
use hunch.Daemon.Lifecycle.{Step, request, flushes, sweeps, Reach, here, next}

abbrev pub Holds : Daemon → Type 0
Holds d = IsExportable d.g

record_graph-IsExportable :
    (parents : List Bytes) (req : Request) (at_time : ℕ) (states : List (List Bytes)) (g : Graph)
    → IsExportable g
    → IsExportable (record_graph parents req at_time states g)
unfolding record_graph
record_graph-IsExportable parents req at_time [] g h = h
record_graph-IsExportable parents req at_time (state ∷ states) g h =
    record_graph-IsExportable parents req at_time states _
      (record_obs-IsExportable (observation parents req at_time state) g h)

handle_record-Holds :
    (request_time : Bytes → Option ℕ) (req : Request) (d : Daemon)
    → Holds d
    → Holds (handle_record request_time req d).0
unfolding handle_record store_request
handle_record-Holds request_time req d h =
    elim (request_time req.at_text)
      as (λ o.
        Holds
          (elim o as (λ _. Daemon × Response) [
            | none ↦ (d, bad_at)
            | some at_time ↦
                if is_sensitive d.redactor req.next
                then (d, ok)
                else (store_request req at_time d, ok)
          ]).0) [
            | none ↦ h
            | some at_time ↦ elim (Bool-cases (is_sensitive d.redactor req.next)) [
              | inl e ↦ rw e h
              | inr e ↦ rw e (
                  record_graph-IsExportable d.parents req at_time (recorded_states d.parents req)
                    d.g h)
            ]
          ]

flush-Holds : (save : List Transition → Bool) (d : Daemon) → Holds d → Holds (flush save d)
unfolding flush
flush-Holds save d h = elim (Bool-cases (flush_db save d.g)) [ inl e ↦ rw e h | inr e ↦ rw e h ]

pub decay_daemon-Holds :
    (fl : Float64) (opts : Options fl) (now : ℕ) (d : Daemon)
    → Holds d
    → Holds (decay_daemon fl opts now d)
unfolding decay_daemon
decay_daemon-Holds fl opts now d h =
    decay-IsExportable fl now (half_life fl opts) (max_idle fl opts) d.g h

module _ (files : Files) (decode : Bytes → Option (List Transition)) (save : List Transition → Bool)
    (d : Daemon) (h : Holds d) where
  IsMerged-Holds :
      (content : Option Bytes) (d' : Daemon) → IsMerged files decode save d content d' → Holds d'
  IsMerged-Holds content d' m =
      let grown : IsExportable (graph_of (merge m.seed d.g)) = merge-IsExportable m.seed d.g h in
      let there : IsExportable m.graph = rw m.merged_graph at grown in
      subst Holds (sym m.flushed) (flush-Holds save (record d { g = m.graph }) there)

  pub AllOrError-Holds :
      (content : Option Bytes) (result : Daemon × Option ImportError)
      → AllOrError files decode save d content result
      → Holds result.0
  AllOrError-Holds content (d', none) m = IsMerged-Holds content d' m
  AllOrError-Holds content (d', some e) (same, why) = subst Holds (sym same) h

  AllOrNothing-Holds :
      (req : Request) (result : Daemon × ImportResponse)
      → AllOrNothing files decode save d req result
      → Holds result.0
  AllOrNothing-Holds req (d', imported) (content, from, m) = IsMerged-Holds content d' m
  AllOrNothing-Holds req (d', path_required) (same, a, b) = subst Holds (sym same) h
  AllOrNothing-Holds req (d', bad_path) (same, a, b, c) = subst Holds (sym same) h
  AllOrNothing-Holds req (d', not_found) (same, why) = subst Holds (sym same) h
  AllOrNothing-Holds req (d', stat_failed) (same, why) = subst Holds (sym same) h
  AllOrNothing-Holds req (d', symlink_refused) (same, why) = subst Holds (sym same) h
  AllOrNothing-Holds req (d', not_regular) (same, why) = subst Holds (sym same) h
  AllOrNothing-Holds req (d', import_failed e) (same, why) = subst Holds (sym same) h

handle_normalize-Holds : (req : Request) (d : Daemon) → Holds d → Holds (handle_normalize req d).0
unfolding handle_normalize
handle_normalize-Holds req d h =
    let raw = (if bytes_eq req.next [] then last_or_empty req.state else req.next) in
    elim (Bool-cases (bytes_eq raw [])) [ inl e ↦ rw e h | inr e ↦ rw e h ]

module _ (fl : Float64) (opts : Options fl) where
  serve-Holds :
      (s : Surroundings) (op : Bytes) (req : Request) (d : Daemon)
      → Holds d
      → Holds (serve fl opts s op req d).0
  unfolding serve
  serve-Holds s op req d h = elim (Bool-cases (bytes_eq op (codes "record"))) [
    | inl e ↦ rw e (handle_record-Holds s.request_time req d h)
    | inr e ↦ rw e (elim (Bool-cases (bytes_eq op (codes "predict"))) [
      | inl e ↦ rw e h
      | inr e ↦ rw e (elim (Bool-cases (bytes_eq op (codes "explain"))) [
        | inl e ↦ rw e h
        | inr e ↦ rw e (elim (Bool-cases (bytes_eq op (codes "reset"))) [
          | inl e ↦ rw e (unfold handle_reset in new-IsExportable 2)
          | inr e ↦ rw e (elim (Bool-cases (bytes_eq op (codes "export"))) [
            | inl e ↦ rw e h
            | inr e ↦ rw e (elim (Bool-cases (bytes_eq op (codes "stats"))) [
              | inl e ↦ rw e h
              | inr e ↦ rw e (elim (Bool-cases (bytes_eq op (codes "normalize"))) [
                | inl e ↦ rw e (handle_normalize-Holds req d h)
                | inr e ↦ rw e (elim (Bool-cases (bytes_eq op (codes "config"))) [
                  | inl e ↦ rw e h
                  | inr e ↦ rw e (elim (Bool-cases (bytes_eq op (codes "import"))) [
                    | inl e ↦ rw e imports
                    | inr e ↦ rw e (elim (Bool-cases (bytes_eq op (codes "record_raws"))) [
                      | inl e ↦ rw e (unfold handle_record_raws in h)
                      | inr e ↦ rw e h
                    ])
                  ])
                ])
              ])
            ])
          ])
        ])
      ])
    ])
  ]
    where
      imports : Holds (handle_import s.files s.decode s.save req d).0
      imports =
          AllOrNothing-Holds s.files s.decode s.save d h req
            (handle_import s.files s.decode s.save req d)
            (handle_import-AllOrNothing s.files s.decode s.save d req)

  Step-Holds : {d d' : Daemon} → Step fl opts d d' → Holds d → Holds d'
  Step-Holds (request s op req d) h = serve-Holds s op req d h
  Step-Holds (flushes save d) h = flush-Holds save d h
  Step-Holds (sweeps now d) h = decay_daemon-Holds fl opts now d h

  pub Reach-Holds : {d d' : Daemon} → Reach fl opts d d' → Holds d → Holds d'
  Reach-Holds here h = h
  Reach-Holds (next r st) h = Step-Holds st (Reach-Holds r h)
