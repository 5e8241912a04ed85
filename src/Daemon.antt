-- ===== src/Daemon.antt =====
-- daemon/handlers.go and daemon/daemon.go: what a request does to the daemon. A handler is one
-- function from the daemon's state to its new state and response; the connection, the log and
-- the database are left out.
pub mod Paths
pub mod Recording
pub mod Secrets
pub mod Filters
pub mod Fallback
pub mod Suggest
pub mod Repeated
pub mod Seeding
pub mod Serve
pub mod Lifecycle
pub mod Examples
use hunch.Base.{
  ℕ, zero, suc, ◌+◌, Bool, true, false, not, ◌&&◌, ◌||◌, List, [], ◌∷◌, ◌++◌, Option, none, some,
  Bytes, codes, ◌==◌, ltb, leb, if◌then◌else◌, bytes_eq, starts_with, map,
}
use hunch.Floats.{Float64}
use hunch.Normalize.{normalize}
use hunch.Redact.{Matcher, is_sensitive}
use hunch.Graph.{Graph, Outcome, Observation, record_obs}
use hunch.Backoff.{backoff_states}
use hunch.Predict.{Suggestion}
use hunch.RawStore.{RawStore, RawExample, record_raw, merge_examples}
use hunch.Daemon.Paths.{clean}

-- What the handlers read and write of the struct `daemon`; `flush_requested` is the one slot of
-- the channel `flushCh`.
pub record Daemon : Type 0 where
  pub g : Graph
  pub raws : RawStore
  pub parents : List Bytes
  pub redactor : Matcher
  pub dirty : ℕ
  pub flush_requested : Bool

-- ipc/ipc.go: the fields of `Request` that the handlers read. A negative limit has the effect of 0.
pub record Request : Type 0 where
  pub state : List Bytes
  pub next : Bytes
  pub at_text : Bytes
  pub prefix : Bytes
  pub limit : ℕ
  pub cwd : Bytes
  pub outcome : Outcome
  pub prior_outcome : Outcome
  pub suggested : Bytes
  pub raw_examples : List RawExample
  pub seed_data : Bytes

pub data Response : Type 0 where
  ok bad_at no_input : Response
  normalized : Bytes → Bytes → Response

abbrev pub flush_threshold : ℕ
flush_threshold = 50

-- `atomic.Int32.Add(1)`, the word read as unsigned.
unfoldable pub add_dirty : ℕ → ℕ
add_dirty n = if n == 4294967295 then 0 else n + 1

-- The signed word is at least the threshold.
unfoldable pub is_due : ℕ → Bool
is_due n = leb flush_threshold n && ltb n 2147483648

unfoldable pub normalize_all : List Bytes → List Bytes → List Bytes
unfolding normalize
normalize_all parents [] = []
normalize_all parents (raw ∷ raws) = normalize raw (some parents) ∷ normalize_all parents raws

-- `normalizedState`
unfoldable pub normalized_state : List Bytes → Request → List Bytes
unfolding normalize_all clean
normalized_state parents req = elim req.cwd [
  | [] ↦ normalize_all parents req.state
  | c ∷ cwd ↦ clean (c ∷ cwd) ∷ normalize_all parents req.state
]

unfoldable pub is_accepted : List Bytes → Request → Bool
unfolding normalize
is_accepted parents req =
    not (bytes_eq req.suggested [])
    && bytes_eq (normalize req.suggested (some parents)) (normalize req.next (some parents))

-- The states under which a request is recorded.
unfoldable pub recorded_states : List Bytes → Request → List (List Bytes)
unfolding normalized_state backoff_states
recorded_states parents req =
    backoff_states (normalized_state parents req) (not (bytes_eq req.cwd []))

pub observation : List Bytes → Request → ℕ → List Bytes → Observation
unfolding is_accepted
observation parents req at_time state = record {
  state = state;
  next = normalize req.next (some parents);
  at_time = at_time;
  cwd = req.cwd;
  next_outcome = req.outcome;
  prior_outcome = req.prior_outcome;
  accepted = is_accepted parents req;
}

-- The two loops over the states.
record_graph : List Bytes → Request → ℕ → List (List Bytes) → Graph → Graph
unfolding record_obs observation
record_graph parents req at_time [] g = g
record_graph parents req at_time (state ∷ states) g =
    record_graph parents req at_time states (record_obs (observation parents req at_time state) g)

record_raws : List Bytes → Request → ℕ → List (List Bytes) → RawStore → RawStore
unfolding record_raw
record_raws parents req at_time [] s = s
record_raws parents req at_time (state ∷ states) s =
    record_raws parents req at_time states
      (record_raw state (normalize req.next (some parents)) req.next at_time s)

pub store_request : Request → ℕ → Daemon → Daemon
unfolding recorded_states record_graph record_raws add_dirty is_due
store_request req at_time d =
    let states = recorded_states d.parents req in
    let dirty = add_dirty d.dirty in
    record d {
      g = record_graph d.parents req at_time states d.g;
      raws = record_raws d.parents req at_time states d.raws;
      dirty = dirty;
      flush_requested = d.flush_requested || is_due dirty;
    }

-- `request_time` is `requestTime`: what the text of a time says, with the clock for the zero time.
unfoldable pub handle_record : (Bytes → Option ℕ) → Request → Daemon → Daemon × Response
unfolding store_request is_sensitive
handle_record request_time req d = elim (request_time req.at_text) [
  | none ↦ (d, bad_at)
  | some at_time ↦
      if is_sensitive d.redactor req.next then (d, ok) else (store_request req at_time d, ok)
]

unfoldable pub handle_record_raws : ℕ → List RawExample → Daemon → Daemon × Response
unfolding merge_examples
handle_record_raws now examples d = (record d { raws = merge_examples now examples d.raws }, ok)

pub last_or_empty : List Bytes → Bytes
last_or_empty [] = []
last_or_empty (raw ∷ []) = raw
last_or_empty (raw ∷ next ∷ raws) = last_or_empty (next ∷ raws)

unfoldable pub handle_normalize : Request → Daemon → Daemon × Response
unfolding last_or_empty
handle_normalize req d =
    let raw = (if bytes_eq req.next [] then last_or_empty req.state else req.next) in
    if bytes_eq raw [] then (d, no_input) else (d, normalized raw (normalize raw (some d.parents)))
