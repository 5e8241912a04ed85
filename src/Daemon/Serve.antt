-- ===== src/Daemon/Serve.antt =====
-- daemon/handlers.go, handleConn and the short handlers: one request, by the name of its operation.
-- The connection and the writing of JSON are left out; a reply holds what is written.
use hunch.Base.{ℕ, Bool, List, map, Option, none, some, Bytes, codes, if◌then◌else◌, bytes_eq}
use hunch.Floats.{Float64}
use hunch.Graph.{Transition, size}
use hunch.Graph.Export.{all, transition_from_graph}
use hunch.Predict.{Suggestion}
use hunch.Config.{Options, half_life}
use hunch.Daemon.{Daemon, Request, Response, handle_record, handle_record_raws, handle_normalize}
use hunch.Daemon.Suggest.{ExplainResponse, handle_predict, handle_explain}
use hunch.Daemon.Seeding.{Files, ImportResponse, handle_import, handle_reset}

-- What a request finds around the daemon.
pub record Surroundings : Type 0 where
  pub request_time : Bytes → Option ℕ
  pub now : ℕ
  pub files : Files
  pub decode : Bytes → Option (List Transition)
  pub save : List Transition → Bool

-- ipc/ipc.go
pub record StatsResponse (fl : Float64) : Type 0 where
  pub size : ℕ
  pub half_life : ℕ
  pub alpha : fl.F
  pub db_path : Bytes

pub record ConfigResponse (fl : Float64) : Type 0 where
  pub accept_keys : List Bytes
  pub extra_parents : List Bytes
  pub half_life : ℕ
  pub alpha : fl.F

pub data Reply (fl : Float64) : Type 0 where
  plain : Response → Reply fl
  suggestions : List (Suggestion fl) → Reply fl
  explanation : ExplainResponse fl → Reply fl
  transitions : List Transition → Reply fl
  stats : StatsResponse fl → Reply fl
  config : ConfigResponse fl → Reply fl
  import_reply : ImportResponse → Reply fl
  wrong_time reset_done : Reply fl
  unknown_op : Bytes → Reply fl

module _ (fl : Float64) where
  reply_plain : Daemon × Response → Daemon × Reply fl
  reply_plain (d, r) = (d, plain r)

  reply_import : Daemon × ImportResponse → Daemon × Reply fl
  reply_import (d, r) = (d, import_reply r)

  reply_predict : Option (List (Suggestion fl)) → Reply fl
  reply_predict none = wrong_time
  reply_predict (some sugs) = suggestions sugs

  reply_explain : Option (ExplainResponse fl) → Reply fl
  reply_explain none = wrong_time
  reply_explain (some e) = explanation e

  handle_stats : Options fl → Daemon → StatsResponse fl
  unfolding size half_life
  handle_stats opts d = record {
    size = size d.g;
    half_life = half_life fl opts;
    alpha = opts.alpha;
    db_path = opts.db_path;
  }

  handle_config : Options fl → ConfigResponse fl
  unfolding half_life
  handle_config opts = record {
    accept_keys = opts.accept_keys;
    extra_parents = opts.extra_parents;
    half_life = half_life fl opts;
    alpha = opts.alpha;
  }

  -- handleConn, from a parsed request on.
  unfoldable pub serve : Options fl → Surroundings → Bytes → Request → Daemon → Daemon × Reply fl
  unfolding reply_plain reply_import reply_predict reply_explain handle_stats handle_config
  serve opts s op req d =
      if bytes_eq op (codes "record")
      then reply_plain (handle_record s.request_time req d)
      else if bytes_eq op (codes "predict")
      then (d, reply_predict (handle_predict fl opts s.request_time req d))
      else if bytes_eq op (codes "explain")
      then (d, reply_explain (handle_explain fl opts s.request_time req d))
      else if bytes_eq op (codes "reset")
      then (handle_reset d, reset_done)
      else if bytes_eq op (codes "export")
      then (d, transitions (map transition_from_graph (all d.g)))
      else if bytes_eq op (codes "stats")
      then (d, stats (handle_stats opts d))
      else if bytes_eq op (codes "normalize")
      then reply_plain (handle_normalize req d)
      else if bytes_eq op (codes "config")
      then (d, config (handle_config opts))
      else if bytes_eq op (codes "import")
      then reply_import (handle_import s.files s.decode s.save req d)
      else if bytes_eq op (codes "record_raws")
      then reply_plain (handle_record_raws s.now req.raw_examples d)
      else (d, unknown_op op)
