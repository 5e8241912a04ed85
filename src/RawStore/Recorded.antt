-- ===== src/RawStore/Recorded.antt =====
-- What one recording, or one imported example, does to the store.
use hunch.Base.{
  ◌≡◌, ℕ, ◌+◌, inl, inr, Bool-cases, List, some, Bytes, if◌then◌else◌, bytes_eq, bytes_eq_sound,
  ◌&&◌,
}
use hunch.Base.Assoc.{lookup-insert}
use hunch.RawStore.{RawStore, RawEntry, entry_at, or_zero, update_raw, record_raw, raw_outer_key}

entry_at-update_raw :
    (key raw : Bytes) (change : RawEntry → RawEntry) (s : RawStore) (key' raw' : Bytes)
    → entry_at (update_raw key raw change s) key' raw' ≡ (
        if bytes_eq key key' && bytes_eq raw raw'
        then some (change (or_zero (entry_at s key raw)))
        else entry_at s key' raw')
unfolding update_raw
entry_at-update_raw key raw change s key' raw' = elim (Bool-cases (bytes_eq key key')) [
  | inr e ↦ rw (lookup-insert key key', e)
  | inl e ↦
      let same : key ≡ key' = bytes_eq_sound key key' e in
      rw (lookup-insert key key', e, lookup-insert raw raw', same)
]

-- Recording a raw command adds one to its count at its own state and template and sets its time;
-- every other entry of the store stays as it was.
pub entry_at-record_raw :
    (state : List Bytes) (template raw : Bytes) (at_time : ℕ) (s : RawStore) (key' raw' : Bytes)
    → entry_at (record_raw state template raw at_time s) key' raw' ≡ (
        if bytes_eq (raw_outer_key state template) key' && bytes_eq raw raw'
        then some (record {
          count = (or_zero (entry_at s (raw_outer_key state template) raw)).count + 1;
          last_seen = at_time;
        })
        else entry_at s key' raw')
unfolding record_raw
entry_at-record_raw state template raw at_time s key' raw' =
    entry_at-update_raw (raw_outer_key state template) raw
      (λ e. record { count = e.count + 1; last_seen = at_time }) s key' raw'
