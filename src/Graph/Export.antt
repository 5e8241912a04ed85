-- ===== src/Graph/Export.antt =====
-- core/graph/graph.go, `All`: the transitions of the whole graph, in the order of their keys.
-- `sort.Slice` is an insertion sort by the same comparison.
pub mod Listed
pub mod Lines
pub mod Rebuilt
pub mod Restored
pub mod Kept
use hunch.Base.{
  ℕ, ◌-◌, ◌%◌, Bool, true, false, not, List, [], ◌∷◌, ◌++◌, Bytes, if◌then◌else◌, bytes_eq,
  bytes_lt, split, map,
}
use hunch.Base.Assoc.{Assoc}
use hunch.Graph.{Graph, Entry, Transition, entry_to_transition}

-- `twk`
pub record Keyed : Type 0 where
  pub tr : Transition
  pub state_key : Bytes

abbrev pub keyed : Bytes → Bytes → Entry → Keyed
keyed sk next e = record { tr = entry_to_transition (split 0 sk) next e; state_key = sk }

-- The two loops that fill `buf`.
collect_inner : Bytes → Assoc Entry → List Keyed
collect_inner sk [] = []
collect_inner sk ((next, e) ∷ inner) = keyed sk next e ∷ collect_inner sk inner

pub collect : Assoc (Assoc Entry) → List Keyed
unfolding collect_inner
collect [] = []
collect ((sk, inner) ∷ m) = collect_inner sk inner ++ collect m

comes_before : Keyed → Keyed → Bool
comes_before a b =
    if not (bytes_eq a.state_key b.state_key)
    then bytes_lt a.state_key b.state_key
    else bytes_lt a.tr.next b.tr.next

place : Keyed → List Keyed → List Keyed
unfolding comes_before
place x [] = x ∷ []
place x (y ∷ ys) = let rest = place x ys in if comes_before x y then x ∷ y ∷ ys else y ∷ rest

pub sort_keyed : List Keyed → List Keyed
unfolding place
sort_keyed [] = []
sort_keyed (x ∷ xs) = place x (sort_keyed xs)

abbrev pub tr_of : Keyed → Transition
tr_of x = x.tr

unfoldable pub all : Graph → List Transition
unfolding collect sort_keyed
all g = map tr_of (sort_keyed (collect g.m))

-- The text of RFC 3339 leaves out what is below a second.
pub whole_second : ℕ → ℕ
whole_second t = t - t % 1000000000

-- ipc/ipc.go, TransitionFromGraph: how a transition is written.
pub transition_from_graph : Transition → Transition
unfolding whole_second
transition_from_graph t = record t { last_seen = whole_second t.last_seen }
