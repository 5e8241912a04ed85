-- ===== src/Backoff.antt =====
-- core/graph/backoff.go: the state keys under which one observation is recorded.
pub mod Keys
mod Examples
use hunch.Base.{Bool, true, false, List, [], ◌∷◌, ◌++◌, Bytes, if◌then◌else◌, bytes_eq, ◌&&◌}

-- allEmpty
unfoldable pub all_empty : List Bytes → Bool
all_empty [] = true
all_empty (s ∷ state) = bytes_eq s [] && all_empty state

append_if_informative : List (List Bytes) → List Bytes → List (List Bytes)
unfolding all_empty
append_if_informative states [] = states
append_if_informative states (s ∷ candidate) =
    if all_empty (s ∷ candidate) then states else states ++ (s ∷ candidate) ∷ []

-- `if len(templates) > 1 { states = appendIfInformative(states, templates[1:]) }`
drop_oldest : List Bytes → List (List Bytes) → List (List Bytes)
unfolding append_if_informative
drop_oldest [] states = states
drop_oldest (t ∷ []) states = states
drop_oldest (t ∷ u ∷ templates) states = append_if_informative states (u ∷ templates)

unfoldable pub backoff_states : List Bytes → Bool → List (List Bytes)
unfolding drop_oldest
backoff_states [] has_cwd = [] ∷ []
backoff_states (s ∷ templates) true =
    drop_oldest templates (append_if_informative ((s ∷ templates) ∷ []) templates)
backoff_states (s ∷ templates) false = drop_oldest (s ∷ templates) ((s ∷ templates) ∷ [])
