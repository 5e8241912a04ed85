-- ===== src/Backoff/Keys.antt =====
-- What the keys of an observation are, and that a recording under them reaches every one.
use hunch.Base.{
  ◌≡◌, refl, sym, ◌∙◌, ◌⊎◌, inl, inr, Bool, true, false, Bool-cases, List, [], ◌∷◌, ◌++◌, Bytes,
  arith, All, All-append, append_assoc,
}
use hunch.Unwrap.Suffix.{EndsWith}
use hunch.Backoff.{all_empty, append_if_informative, drop_oldest, backoff_states}

-- A generalization of a state: a suffix of it, so the newest commands stay, with some command in it.
abbrev pub Generalizes : List Bytes → List Bytes → Type 0
Generalizes state key = EndsWith state key × (all_empty key ≡ false)

append-Generalizes :
    (state candidate : List Bytes) (states : List (List Bytes))
    → EndsWith state candidate
    → All (Generalizes state) states
    → All (Generalizes state) (append_if_informative states candidate)
unfolding append_if_informative
append-Generalizes state [] states e h = h
append-Generalizes state (s ∷ candidate) states e h =
    elim (Bool-cases (all_empty (s ∷ candidate))) [
      | inl k ↦ rw k h
      | inr k ↦ rw k (All-append (Generalizes state) states _ h ((e, k), tt))
    ]

append-first :
    (first : List Bytes) (states : List (List Bytes)) (c : List Bytes)
    → append_if_informative (first ∷ states) c ≡ first ∷ append_if_informative states c
unfolding append_if_informative
append-first first states [] = refl
append-first first states (s ∷ c) = ground arith

drop_oldest-Generalizes :
    (state templates : List Bytes) (first : List Bytes) (states : List (List Bytes))
    → EndsWith state templates
    → All (Generalizes state) states
    → (rest : List (List Bytes)) × (drop_oldest templates (first ∷ states) ≡ first ∷ rest)
      × All (Generalizes state) rest
unfolding drop_oldest
drop_oldest-Generalizes state [] first states e h = (states, refl, h)
drop_oldest-Generalizes state (t ∷ []) first states e h = (states, refl, h)
drop_oldest-Generalizes state (t ∷ u ∷ templates) first states (front, e) h = (
  append_if_informative states (u ∷ templates),
  append-first first states (u ∷ templates),
  append-Generalizes state (u ∷ templates) states
      (front ++ t ∷ [], e ∙ sym (append_assoc front (t ∷ []) (u ∷ templates))) h,
)

-- The first key of an observation is its exact state; every other key is a suffix of that state
-- with at least one command in it, so no observation is filed under empty padding.
pub backoff_states-Generalizes :
    (state : List Bytes) (has_cwd : Bool)
    → (rest : List (List Bytes)) × (backoff_states state has_cwd ≡ state ∷ rest)
      × All (Generalizes state) rest
unfolding backoff_states
backoff_states-Generalizes [] has_cwd = ([], refl, tt)
backoff_states-Generalizes (s ∷ templates) false =
    drop_oldest-Generalizes (s ∷ templates) (s ∷ templates) (s ∷ templates) [] ([], refl) tt
backoff_states-Generalizes (s ∷ templates) true = rw (append-first (s ∷ templates) [] templates) (
    drop_oldest-Generalizes (s ∷ templates) templates (s ∷ templates)
      (append_if_informative [] templates) (s ∷ [], refl)
      (append-Generalizes (s ∷ templates) templates [] (s ∷ [], refl) tt))

-- The key is one of the states.
abbrev pub Listed : List Bytes → List (List Bytes) → Type 0
Listed key [] = ⊥
Listed key (s ∷ states) = (key ≡ s) ⊎ Listed key states

Listed-append :
    (key : List Bytes) (xs ys : List (List Bytes))
    → Listed key xs ⊎ Listed key ys
    → Listed key (xs ++ ys)
Listed-append key [] ys (inl h) = absurd h
Listed-append key [] ys (inr h) = h
Listed-append key (x ∷ xs) ys (inl (inl e)) = inl e
Listed-append key (x ∷ xs) ys (inl (inr h)) = inr (Listed-append key xs ys (inl h))
Listed-append key (x ∷ xs) ys (inr h) = inr (Listed-append key xs ys (inr h))

Listed-informative :
    (c : List Bytes) (states : List (List Bytes))
    → all_empty c ≡ false
    → Listed c (append_if_informative states c)
unfolding append_if_informative
Listed-informative [] states h = absurd (unfold all_empty in cc)
Listed-informative (s ∷ c) states h = rw h (Listed-append (s ∷ c) states _ (inr (inl refl)))

Listed-kept :
    (key c : List Bytes) (states : List (List Bytes))
    → Listed key states
    → Listed key (append_if_informative states c)
unfolding append_if_informative
Listed-kept key [] states h = h
Listed-kept key (s ∷ c) states h = elim (Bool-cases (all_empty (s ∷ c))) [
  | inl k ↦ rw k h
  | inr k ↦ rw k (Listed-append key states _ (inl h))
]

all_empty-cons : (s : Bytes) (c : List Bytes) → all_empty c ≡ false → all_empty (s ∷ c) ≡ false
unfolding all_empty
all_empty-cons s c h = ground arith

-- An observation in a directory, behind at least two commands of which a newer one is known, is
-- filed under its exact state, under the commands without the directory, and under the commands
-- without the oldest.
pub backoff_states-Listed :
    (dir oldest newer : Bytes) (commands : List Bytes)
    → all_empty (newer ∷ commands) ≡ false
    → let states = backoff_states (dir ∷ oldest ∷ newer ∷ commands) true in
      Listed (dir ∷ oldest ∷ newer ∷ commands) states
      × Listed (oldest ∷ newer ∷ commands) states
      × Listed (newer ∷ commands) states
unfolding backoff_states drop_oldest
backoff_states-Listed dir oldest newer commands h =
    let exact = dir ∷ oldest ∷ newer ∷ commands in
    let one = append_if_informative (exact ∷ []) (oldest ∷ newer ∷ commands) in
    (
      Listed-kept exact (newer ∷ commands) one
          (Listed-kept exact (oldest ∷ newer ∷ commands) (exact ∷ []) (inl refl)),
      Listed-kept (oldest ∷ newer ∷ commands) (newer ∷ commands) one (
          Listed-informative (oldest ∷ newer ∷ commands) (exact ∷ [])
            (all_empty-cons oldest (newer ∷ commands) h)),
      Listed-informative (newer ∷ commands) one h,
    )
