-- ===== src/Graph/Observed.antt =====
-- What one recording does to the graph.
use hunch.Base.{
  ◌≡◌, refl, inl, inr, Bool, true, false, Bool-cases, [], some, Bytes, if◌then◌else◌, bytes_eq,
  bytes_eq_sound, ◌&&◌, not,
}
use hunch.Base.Assoc.{lookup-insert}
use hunch.Graph.{
  Graph, Entry, Observation, entry_at, or_zero, update_entry, observe, record_obs, state_key,
}

-- One entry changes, and no other.
pub entry_at-update :
    (sk next : Bytes) (change : Entry → Entry) (g : Graph) (sk' next' : Bytes)
    → entry_at (update_entry sk next change g) sk' next' ≡ (
        if bytes_eq sk sk' && bytes_eq next next'
        then some (change (or_zero (entry_at g sk next)))
        else entry_at g sk' next')
unfolding update_entry
entry_at-update sk next change g sk' next' = elim (Bool-cases (bytes_eq sk sk')) [
  | inr e ↦ rw (lookup-insert sk sk', e)
  | inl e ↦
      let same : sk ≡ sk' = bytes_eq_sound sk sk' e in
      rw (lookup-insert sk sk', e, lookup-insert next next', same)
]

-- The observation is of this state and next command, and is not empty.
abbrev pub concerns : Bytes → Bytes → Observation → Bool
concerns sk next obs =
    not (bytes_eq obs.next []) && (bytes_eq (state_key obs.state) sk && bytes_eq obs.next next)

-- Recording changes the entry of its own state and next command, and leaves every other entry as
-- it was; an observation with no next command changes nothing.
pub entry_at-record_obs :
    (obs : Observation) (g : Graph) (sk next : Bytes)
    → entry_at (record_obs obs g) sk next ≡ (
        if concerns sk next obs
        then some (observe obs (or_zero (entry_at g sk next)))
        else entry_at g sk next)
unfolding record_obs
entry_at-record_obs obs g sk next = elim (Bool-cases (bytes_eq obs.next [])) [
  | inl e ↦ rw e
  | inr e ↦
      rw (e, entry_at-update (state_key obs.state) obs.next (observe obs) g sk next)
        (same_entry (bytes_eq (state_key obs.state) sk) (bytes_eq obs.next next) refl refl)
]
  where
    same_entry :
        (a b : Bool)
        → bytes_eq (state_key obs.state) sk ≡ a
        → bytes_eq obs.next next ≡ b
        → (if a && b
            then some (observe obs (or_zero (entry_at g (state_key obs.state) obs.next)))
            else entry_at g sk next)
          ≡ (if a && b
              then some (observe obs (or_zero (entry_at g sk next)))
              else entry_at g sk next)
    same_entry true true ea eb =
        rw (bytes_eq_sound (state_key obs.state) sk ea, bytes_eq_sound obs.next next eb)
    same_entry true false ea eb = refl
    same_entry false b ea eb = refl
