-- ===== src/Graph/Export/Listed.antt =====
-- The list of the export holds each entry of the graph once.
use hunch.Base.{
  ◌≡◌, refl, sym, ap, ◌∙◌, inl, inr, Bool, true, false, ◌&&◌, Bool-cases, List, [], ◌∷◌, ◌++◌,
  Option, none, some, Bytes, if◌then◌else◌, bytes_eq, bytes_eq_refl, bytes_eq_sound, bytes_eq-sym,
  and-eq_true,
}
use hunch.Graph.{Entry, or_empty, entry_to_transition}
use hunch.Graph.Distinct.{HasDistinctKeys, InnersDistinct}
use hunch.Base.Assoc.{Assoc, lookup}
use hunch.Graph.Export.{Keyed, keyed, collect_inner, collect, comes_before, place, sort_keyed}

abbrev pub is_at : Bytes → Bytes → Keyed → Bool
is_at sk next x = bytes_eq x.state_key sk && bytes_eq x.tr.next next

abbrev pub find : Bytes → Bytes → List Keyed → Option Keyed
find sk next [] = none
find sk next (x ∷ l) = if is_at sk next x then some x else find sk next l

-- No state and next command stand twice.
abbrev pub IsUnique : List Keyed → Type 0
IsUnique [] = Unit
IsUnique (x ∷ l) = (find x.state_key x.tr.next l ≡ none) × IsUnique l

find-none :
    (sk next : Bytes) (y : Keyed) (l : List Keyed)
    → find sk next (y ∷ l) ≡ none
    → (is_at sk next y ≡ false) × (find sk next l ≡ none)
find-none sk next y l h = elim (Bool-cases (is_at sk next y)) [
  | inl e ↦ let wrong : some y ≡ none = rw e at h in cc
  | inr e ↦ (e, rw e at h)
]

is_at_sound :
    (sk next : Bytes) (x : Keyed) → is_at sk next x ≡ true → (x.state_key ≡ sk) × (x.tr.next ≡ next)
is_at_sound sk next x h =
    let (a, b) = and-eq_true (bytes_eq x.state_key sk) (bytes_eq x.tr.next next) h in
    (bytes_eq_sound x.state_key sk a, bytes_eq_sound x.tr.next next b)

-- Where `x` is found, what does not share its keys is not.
pub find-at :
    (sk next : Bytes) (x : Keyed) (l : List Keyed)
    → find x.state_key x.tr.next l ≡ none
    → is_at sk next x ≡ true
    → find sk next l ≡ none
find-at sk next x l h e =
    let (a, b) = is_at_sound sk next x e in
    ap (λ (k : Bytes). find k next l) (sym a) ∙ ap (λ (n : Bytes). find x.state_key n l) (sym b) ∙ h

is_at-apart :
    (sk next : Bytes) (x y : Keyed) (l : List Keyed)
    → find x.state_key x.tr.next (y ∷ l) ≡ none
    → is_at sk next x ≡ true
    → is_at sk next y ≡ false
is_at-apart sk next x y l h e = (find-none sk next y l (find-at sk next x (y ∷ l) h e)).0

is_at-sym : (x y : Keyed) → is_at x.state_key x.tr.next y ≡ is_at y.state_key y.tr.next x
is_at-sym x y =
    let sk = bytes_eq-sym x.state_key y.state_key in
    let next = bytes_eq-sym x.tr.next y.tr.next in cc

find-place :
    (sk next : Bytes) (x : Keyed) (l : List Keyed)
    → find x.state_key x.tr.next l ≡ none
    → find sk next (place x l) ≡ find sk next (x ∷ l)
unfolding place
find-place sk next x [] h = refl
find-place sk next x (y ∷ l) h = elim (Bool-cases (comes_before x y)) [
  | inl e ↦ rw e
  | inr e ↦
      rw (e, find-place sk next x l (find-none x.state_key x.tr.next y l h).1)
        (either (is_at sk next x) (is_at sk next y) (find sk next l) (is_at-apart sk next x y l h))
]
  where
    either :
        (a b : Bool) (o : Option Keyed)
        → (a ≡ true → b ≡ false)
        → (if b then some y else (if a then some x else o))
          ≡ (if a then some x else (if b then some y else o))
    either true b o k = rw (k refl)
    either false b o k = refl

place-IsUnique :
    (x : Keyed) (l : List Keyed)
    → find x.state_key x.tr.next l ≡ none
    → IsUnique l
    → IsUnique (place x l)
unfolding place
place-IsUnique x [] h u = (refl, tt)
place-IsUnique x (y ∷ l) h (fresh, u) =
    let (apart, new) = find-none x.state_key x.tr.next y l h in
    elim (Bool-cases (comes_before x y)) [
      | inl e ↦ rw e (h, (fresh, u))
      | inr e ↦ rw e (
        find-place y.state_key y.tr.next x l new ∙ rw (sym (is_at-sym x y) ∙ apart) fresh,
        place-IsUnique x l new u,
      )
    ]

pub sort_keyed-lists :
    (l : List Keyed)
    → IsUnique l
    → IsUnique (sort_keyed l) × ((sk next : Bytes) → find sk next (sort_keyed l) ≡ find sk next l)
unfolding sort_keyed
sort_keyed-lists [] u = (tt, λ sk next. refl)
sort_keyed-lists (x ∷ l) (fresh, u) =
    let (sorted, same) = sort_keyed-lists l u in
    let new = same x.state_key x.tr.next ∙ fresh in
    (
      place-IsUnique x (sort_keyed l) new sorted,
      λ sk next.
          find-place sk next x (sort_keyed l) new
          ∙ ap (λ (o : Option Keyed). if is_at sk next x then some x else o) (same sk next),
    )

-- How an entry is listed.
abbrev pub listed : Bytes → Bytes → Option Entry → Option Keyed
listed sk next none = none
listed sk next (some e) = some (keyed sk next e)

abbrev or_listed : Option Keyed → Option Keyed → Option Keyed
or_listed none rest = rest
or_listed (some x) rest = some x

find-collect_inner :
    (sk next : Bytes) (inner : Assoc Entry) (rest : List Keyed)
    → find sk next (collect_inner sk inner ++ rest)
      ≡ or_listed (listed sk next (lookup next inner)) (find sk next rest)
unfolding collect_inner lookup entry_to_transition
find-collect_inner sk next [] rest = refl
find-collect_inner sk next ((n, e) ∷ inner) rest = elim (Bool-cases (bytes_eq n next)) [
  | inl h ↦ rw (bytes_eq_refl sk, h, bytes_eq_sound n next h)
  | inr h ↦ rw (bytes_eq_refl sk, h) (find-collect_inner sk next inner rest)
]

find-collect_other :
    (sk k next : Bytes) (inner : Assoc Entry) (rest : List Keyed)
    → bytes_eq k sk ≡ false
    → find sk next (collect_inner k inner ++ rest) ≡ find sk next rest
unfolding collect_inner entry_to_transition
find-collect_other sk k next [] rest h = refl
find-collect_other sk k next ((n, e) ∷ inner) rest h =
    rw h (find-collect_other sk k next inner rest h)

pub find-collect :
    (sk next : Bytes) (m : Assoc (Assoc Entry))
    → HasDistinctKeys m
    → find sk next (collect m) ≡ listed sk next (lookup next (or_empty (lookup sk m)))
unfolding collect lookup
find-collect sk next [] h = refl
find-collect sk next ((k, inner) ∷ m) (fresh, h) = elim (Bool-cases (bytes_eq k sk)) [
  | inr e ↦ rw e (find-collect_other sk k next inner (collect m) e ∙ find-collect sk next m h)
  | inl e ↦
      let same = bytes_eq_sound k sk e in
      let gone : find sk next (collect m) ≡ none =
        find-collect sk next m h
        ∙ ap (λ (o : Option (Assoc Entry)). listed sk next (lookup next (or_empty o)))
            (rw same at fresh) in
      rw (e, same)
        (find-collect_inner sk next inner (collect m) ∙ rw gone (alone (lookup next inner)))
]
  where
    alone : (o : Option Entry) → or_listed (listed sk next o) none ≡ listed sk next o
    alone none = refl
    alone (some x) = refl

collect_inner-IsUnique :
    (sk : Bytes) (inner : Assoc Entry) (rest : List Keyed)
    → HasDistinctKeys inner
    → ((next : Bytes) → find sk next rest ≡ none)
    → IsUnique rest
    → IsUnique (collect_inner sk inner ++ rest)
unfolding collect_inner entry_to_transition
collect_inner-IsUnique sk [] rest h apart u = u
collect_inner-IsUnique sk ((n, e) ∷ inner) rest (fresh, h) apart u = (
  find-collect_inner sk n inner rest ∙ rw fresh (apart n),
  collect_inner-IsUnique sk inner rest h apart u,
)

pub collect-IsUnique :
    (m : Assoc (Assoc Entry)) → HasDistinctKeys m → InnersDistinct m → IsUnique (collect m)
unfolding collect lookup
collect-IsUnique [] h inners = tt
collect-IsUnique ((k, inner) ∷ m) (fresh, h) (hi, inners) =
    collect_inner-IsUnique k inner (collect m) hi
      (λ next.
        find-collect k next m h
        ∙ ap (λ (o : Option (Assoc Entry)). listed k next (lookup next (or_empty o))) fresh)
      (collect-IsUnique m h inners)
