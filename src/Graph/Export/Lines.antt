-- ===== src/Graph/Export/Lines.antt =====
-- The lines of an export, and merging them.
use hunch.Base.{
  bytes_eq-of_ne, ℕ, ◌≤◌, ◌≡◌, ◌≢◌, refl, ap, ◌∙◌, inl, inr, false, Bool-cases, List, [], ◌∷◌,
  Option, none, some, Bytes, arith, bytes_eq, bytes_eq_sound, and-eq_true, split, ◌+◌, All, map,
}
use hunch.Normalize.Joined.{join-split}
use hunch.Graph.{Graph, Entry, Transition, or_zero, entry_at, state_key}
use hunch.Graph.Observed.{entry_at-update}
use hunch.Graph.Seed.{
  merge_entry, merge_one, merge_loop, check_transition, validate_from, is_nil, valid,
}
use hunch.Graph.Export.{Keyed, tr_of, whole_second, transition_from_graph}
use hunch.Graph.Export.Listed.{is_at, find, find-at, IsUnique}

-- A state that is read back from its key has the same key.
pub state_key-split : (s : Bytes) → state_key (split 0 s) ≡ s
unfolding state_key
state_key-split = join-split 0

-- What merging an export's line makes of an entry.
abbrev pub merged_by : Option Keyed → Option Entry → Option Entry
merged_by none o = o
merged_by (some x) o = some (merge_entry x.tr (or_zero o))

pub record IsLine (x : Keyed) : Type 0 where
  pub own_key : state_key x.tr.state ≡ x.state_key
  pub has_state : x.tr.state ≢ []
  pub has_next : x.tr.next ≢ []
  pub has_count : 1 ≤ x.tr.count

pub entry_at-merge_loop :
    (l : List Keyed) (g : Graph) (sk next : Bytes)
    → IsUnique l
    → All IsLine l
    → entry_at (merge_loop (map tr_of l) g) sk next
      ≡ merged_by (find sk next l) (entry_at g sk next)
unfolding merge_loop merge_one
entry_at-merge_loop [] g sk next u own = refl
entry_at-merge_loop (x ∷ l) g sk next (fresh, u) (line, own) =
    entry_at-merge_loop l (merge_one x.tr g) sk next u own
    ∙ ap (merged_by (find sk next l))
        (entry_at-update (state_key x.tr.state) x.tr.next (merge_entry x.tr) g sk next)
    ∙ rw line.own_key (elim (Bool-cases (is_at sk next x)) [
      | inr e ↦ rw e
      | inl e ↦
          let (a, b) = and-eq_true (bytes_eq x.state_key sk) (bytes_eq x.tr.next next) e in
          rw (
            e,
            find-at sk next x l fresh e,
            bytes_eq_sound x.state_key sk a,
            bytes_eq_sound x.tr.next next b,
          )
    ])

is_nil-of_ne : (l : List Bytes) → l ≢ [] → is_nil l ≡ false
unfolding is_nil
is_nil-of_ne [] h = absurd (h refl)
is_nil-of_ne (x ∷ l) h = refl

check_transition-valid :
    (i : ℕ) (t : Transition)
    → t.state ≢ []
    → t.next ≢ []
    → 1 ≤ t.count
    → check_transition i t ≡ valid
unfolding check_transition
check_transition-valid i t s n c =
    rw (is_nil-of_ne t.state s, bytes_eq-of_ne t.next [] n) (ground arith)

pub validate_from-valid :
    (i : ℕ) (l : List Keyed) → All IsLine l → validate_from i (map tr_of l) ≡ valid
unfolding validate_from
validate_from-valid i [] h = refl
validate_from-valid i (x ∷ l) (line, h) =
    let ok = check_transition-valid i x.tr line.has_state line.has_next line.has_count in
    rw (ok, validate_from) (validate_from-valid (i + 1) l h)

-- An entry whose time is cut to whole seconds.
abbrev pub whole_entry : Entry → Entry
whole_entry e = record e { last_seen = whole_second e.last_seen }

abbrev pub map_entry : (Entry → Entry) → Option Entry → Option Entry
map_entry f none = none
map_entry f (some e) = some (f e)

abbrev pub written : Keyed → Keyed
written x = record x { tr = transition_from_graph x.tr }

abbrev pub written_at : Option Keyed → Option Keyed
written_at none = none
written_at (some x) = some (written x)

pub written-all :
    (l : List Keyed) → map transition_from_graph (map tr_of l) ≡ map tr_of (map written l)
written-all [] = refl
written-all (x ∷ l) = ap (λ (ts : List Transition). transition_from_graph x.tr ∷ ts) (written-all l)

pub find-written :
    (sk next : Bytes) (l : List Keyed) → find sk next (map written l) ≡ written_at (find sk next l)
unfolding transition_from_graph
find-written sk next [] = refl
find-written sk next (x ∷ l) = elim (Bool-cases (is_at sk next x)) [
  | inl e ↦ rw e
  | inr e ↦ rw e (find-written sk next l)
]

pub written-IsUnique : (l : List Keyed) → IsUnique l → IsUnique (map written l)
unfolding transition_from_graph
written-IsUnique [] u = tt
written-IsUnique (x ∷ l) (fresh, u) =
    (find-written x.state_key x.tr.next l ∙ ap written_at fresh, written-IsUnique l u)

pub written-IsLine : (l : List Keyed) → All IsLine l → All IsLine (map written l)
unfolding transition_from_graph
written-IsLine [] h = tt
written-IsLine (x ∷ l) (line, h) = (
  record {
    own_key = line.own_key;
    has_state = line.has_state;
    has_next = line.has_next;
    has_count = line.has_count;
  },
  written-IsLine l h,
)
