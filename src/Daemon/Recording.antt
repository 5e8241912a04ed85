-- ===== src/Daemon/Recording.antt =====
-- What a recorded command leaves behind in the graph and in the store.
use hunch.Base.{
  ℕ, ◌+◌, ◌≤◌, ◌≡◌, ◌≢◌, refl, ◌∙◌, inl, inr, true, false, Bool-cases, List, [], ◌∷◌, Option, some,
  Bytes, arith, bytes_eq, bytes_eq_refl, bytes_eq_sound, All,
}
use hunch.Normalize.{normalize}
use hunch.Graph.{Graph, Entry, Observation, record_obs, state_key, observe}
use hunch.Graph.Observed.{entry_at-record_obs, concerns}
use hunch.RawStore.{RawStore, RawEntry, raw_outer_key, record_raw}
use hunch.RawStore.Recorded.{entry_at-record_raw}
use hunch.Graph
use hunch.RawStore
use hunch.Redact.{is_sensitive}
use hunch.Daemon.{
  Daemon, Request, handle_record, store_request, recorded_states, record_graph, record_raws,
  observation,
}

-- The graph has counted the next command at the state.
pub record IsCounted (g : Graph) (sk next : Bytes) : Type 0 where
  pub entry : Entry
  pub found : Graph.entry_at g sk next ≡ some entry
  pub counted : 1 ≤ entry.count

-- The store has the raw command under the key, seen at the time.
pub record IsStored (s : RawStore) (key raw : Bytes) (at_time : ℕ) : Type 0 where
  pub entry : RawEntry
  pub found : RawStore.entry_at s key raw ≡ some entry
  pub counted : 1 ≤ entry.count
  pub seen : entry.last_seen ≡ at_time

record_obs-IsCounted :
    (obs : Observation) (g : Graph) (sk next : Bytes)
    → concerns sk next obs ≡ true
    → IsCounted (record_obs obs g) sk next
unfolding observe
record_obs-IsCounted obs g sk next h = record {
  entry = observe obs (Graph.or_zero (Graph.entry_at g sk next));
  found = entry_at-record_obs obs g sk next ∙ rw h;
  counted = omega arith;
}

record_obs-keeps :
    (obs : Observation) (g : Graph) (sk next : Bytes)
    → IsCounted g sk next
    → IsCounted (record_obs obs g) sk next
record_obs-keeps obs g sk next k = elim (Bool-cases (concerns sk next obs)) [
  | inl h ↦ record_obs-IsCounted obs g sk next h
  | inr h ↦ record {
    entry = k.entry;
    found = entry_at-record_obs obs g sk next ∙ rw h k.found;
    counted = k.counted;
  }
]

record_raw-IsStored :
    (state : List Bytes) (template raw : Bytes) (at_time : ℕ) (s : RawStore) (key : Bytes)
    → bytes_eq (raw_outer_key state template) key ≡ true
    → IsStored (record_raw state template raw at_time s) key raw at_time
record_raw-IsStored state template raw at_time s key h = record {
  entry = record {
    count = (RawStore.or_zero (RawStore.entry_at s (raw_outer_key state template) raw)).count + 1;
    last_seen = at_time;
  };
  found = entry_at-record_raw state template raw at_time s key raw ∙ rw (h, bytes_eq_refl raw);
  counted = omega arith;
  seen = refl;
}

record_raw-keeps :
    (state : List Bytes) (template raw : Bytes) (at_time : ℕ) (s : RawStore) (key : Bytes)
    → IsStored s key raw at_time
    → IsStored (record_raw state template raw at_time s) key raw at_time
record_raw-keeps state template raw at_time s key k =
    elim (Bool-cases (bytes_eq (raw_outer_key state template) key)) [
      | inl h ↦ record_raw-IsStored state template raw at_time s key h
      | inr h ↦ record {
        entry = k.entry;
        found = entry_at-record_raw state template raw at_time s key raw ∙ rw h k.found;
        counted = k.counted;
        seen = k.seen;
      }
    ]

not_empty : (next : Bytes) → next ≢ [] → bytes_eq next [] ≡ false
not_empty next k = elim (Bool-cases (bytes_eq next [])) [
  | inl e ↦ absurd (k (bytes_eq_sound next [] e))
  | inr e ↦ e
]

module _ (parents : List Bytes) (req : Request) (at_time : ℕ) where
  record_graph-keeps :
      (states : List (List Bytes)) (g : Graph) (sk next : Bytes)
      → IsCounted g sk next
      → IsCounted (record_graph parents req at_time states g) sk next
  unfolding record_graph
  record_graph-keeps [] g sk next k = k
  record_graph-keeps (state ∷ states) g sk next k =
      record_graph-keeps states _ sk next
        (record_obs-keeps (observation parents req at_time state) g sk next k)

  pub observation-concerns :
      (state : List Bytes)
      → normalize req.next (some parents) ≢ []
      → concerns
          (state_key state)
          (normalize req.next (some parents))
          (observation parents req at_time state)
        ≡ true
  unfolding observation
  observation-concerns state k = rw (
    not_empty (normalize req.next (some parents)) k,
    bytes_eq_refl (state_key state),
    bytes_eq_refl (normalize req.next (some parents)),
  )

  record_graph-IsCounted :
      (states : List (List Bytes)) (g : Graph)
      → normalize req.next (some parents) ≢ []
      → All
          (λ state.
            IsCounted
              (record_graph parents req at_time states g)
              (state_key state)
              (normalize req.next (some parents)))
          states
  unfolding record_graph
  record_graph-IsCounted [] g h = tt
  record_graph-IsCounted (state ∷ states) g h =
      let next = normalize req.next (some parents) in
      let own =
        record_obs-IsCounted (observation parents req at_time state) g (state_key state) next
          (observation-concerns state h) in
      (
        record_graph-keeps states _ (state_key state) next own,
        record_graph-IsCounted states (record_obs (observation parents req at_time state) g) h,
      )

  record_raws-keeps :
      (states : List (List Bytes)) (s : RawStore) (key : Bytes)
      → IsStored s key req.next at_time
      → IsStored (record_raws parents req at_time states s) key req.next at_time
  unfolding record_raws
  record_raws-keeps [] s key k = k
  record_raws-keeps (state ∷ states) s key k =
      record_raws-keeps states _ key
        (record_raw-keeps state (normalize req.next (some parents)) req.next at_time s key k)

  record_raws-IsStored :
      (states : List (List Bytes)) (s : RawStore)
      → All
          (λ state.
            IsStored
              (record_raws parents req at_time states s)
              (raw_outer_key state (normalize req.next (some parents)))
              req.next
              at_time)
          states
  unfolding record_raws
  record_raws-IsStored [] s = tt
  record_raws-IsStored (state ∷ states) s =
      let next = normalize req.next (some parents) in
      let key = raw_outer_key state next in
      (
        record_raws-keeps states _ key
            (record_raw-IsStored state next req.next at_time s key (bytes_eq_refl key)),
        record_raws-IsStored states (record_raw state next req.next at_time s),
      )

pub handle_record-store :
    (request_time : Bytes → Option ℕ) (req : Request) (d : Daemon) (at_time : ℕ)
    → request_time req.at_text ≡ some at_time
    → is_sensitive d.redactor req.next ≡ false
    → (handle_record request_time req d).0 ≡ store_request req at_time d
unfolding handle_record store_request
handle_record-store request_time req d at_time timed plain = rw (handle_record, timed, plain)

-- A request with a good time, whose command is not sensitive and has a template, is stored under
-- each of its states: there the graph counts the template, and the store has the raw command
-- behind it, seen at the time of the request, so that the suggestion can be shown.
pub handle_record-IsStored :
    (request_time : Bytes → Option ℕ) (req : Request) (d : Daemon) (at_time : ℕ)
    → request_time req.at_text ≡ some at_time
    → is_sensitive d.redactor req.next ≡ false
    → normalize req.next (some d.parents) ≢ []
    → All
        (λ state.
          IsCounted
            (handle_record request_time req d).0.g
            (state_key state)
            (normalize req.next (some d.parents)))
        (recorded_states d.parents req)
      × All
          (λ state.
            IsStored
              (handle_record request_time req d).0.raws
              (raw_outer_key state (normalize req.next (some d.parents)))
              req.next
              at_time)
          (recorded_states d.parents req)
unfolding store_request
handle_record-IsStored request_time req d at_time timed plain shaped =
    rw (handle_record-store request_time req d at_time timed plain) (
      record_graph-IsCounted d.parents req at_time (recorded_states d.parents req) d.g shaped,
      record_raws-IsStored d.parents req at_time (recorded_states d.parents req) d.raws,
    )
