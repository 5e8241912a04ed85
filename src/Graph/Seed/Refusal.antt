-- ===== src/Graph/Seed/Refusal.antt =====
-- Which seeds are merged, what a refusal leaves, and what a merge makes of the counters.
use hunch.Base.{
  ℕ, ◌+◌, ◌≤◌, max, ◌≡◌, ◌≢◌, refl, ap, ◌∙◌, subst, inl, inr, Bool, true, false, Bool-cases, List,
  [], ◌∷◌, ◌++◌, some, Bytes, arith, if◌then◌else◌, bytes_eq, bytes_eq_iff, bytes_eq_sound, All,
  ◌&&◌, length, ◌==◌, ==_iff,
}
use mathlib.Core.List.{cons-ne-nil}
use hunch.Graph.{Graph, Entry, Transition, entry_at, or_zero, state_key}
use hunch.Graph.Observed.{entry_at-update}
use hunch.Graph.Seed.{
  MergeError, empty_state, empty_next, bad_count, Validation, valid, invalid, is_nil,
  check_transition, validate_from, validate_transitions, merge_entry, merge_one, merge_loop, merge,
  merge_checked, MergeResult, merged, rejected,
}

-- What `Merge` asks of a transition.
abbrev pub IsImportable : Transition → Type 0
IsImportable t = (t.state ≢ []) × (t.next ≢ []) × (1 ≤ t.count)

-- What an error says of the transition at its index: the test that it fails, behind those that it
-- passes.
abbrev pub Explains : MergeError → ℕ → Transition → Type 0
Explains (empty_state n) i t = (n ≡ i) × (t.state ≡ [])
Explains (empty_next n) i t = (n ≡ i) × (t.state ≢ []) × (t.next ≡ [])
Explains (bad_count n) i t = (n ≡ i) × (t.state ≢ []) × (t.next ≢ []) × (t.count ≡ 0)

abbrev Checked : ℕ → Transition → Validation → Type 0
Checked i t valid = IsImportable t
Checked i t (invalid e) = Explains e i t

is_nil-true : (l : List Bytes) → is_nil l ≡ true → l ≡ []
unfolding is_nil
is_nil-true [] h = refl
is_nil-true (x ∷ l) h = cc

is_nil-false : (l : List Bytes) → is_nil l ≡ false → l ≢ []
unfolding is_nil
is_nil-false [] h = cc
is_nil-false (x ∷ l) h = cons-ne-nil x l

bytes_eq-false : (s t : Bytes) → bytes_eq s t ≡ false → s ≢ t
bytes_eq-false s t h e = let same = (bytes_eq_iff s t).1 e in cc

check_lem : (i : ℕ) (t : Transition) → Checked i t (check_transition i t)
unfolding check_transition
check_lem i t = elim (Bool-cases (is_nil t.state)) [
  | inl e ↦ rw e (refl, is_nil-true t.state e)
  | inr e ↦ elim (Bool-cases (bytes_eq t.next [])) [
    | inl e' ↦ rw (e, e') (refl, is_nil-false t.state e, bytes_eq_sound t.next [] e')
    | inr e' ↦ elim (Bool-cases (t.count == 0)) [
      | inl e'' ↦
          rw (e, e', e'')
            (refl, is_nil-false t.state e, bytes_eq-false t.next [] e', (==_iff t.count 0).0 e'')
      | inr e'' ↦
          rw (e, e', e'') (is_nil-false t.state e, bytes_eq-false t.next [] e', ground arith)
    ]
  ]
]

-- A verdict on the transitions from index `i` on.
abbrev Verdict : ℕ → List Transition → Validation → Type 0
Verdict i ts valid = All IsImportable ts
Verdict i ts (invalid e) =
    (front : List Transition) × (bad : Transition) × (back : List Transition) × (ts
      ≡ front ++ bad ∷ back)
    × All IsImportable front
    × Explains e (i + length front) bad

Explains-same :
    (e : MergeError) {i j : ℕ} (t : Transition) → i ≡ j → Explains e i t → Explains e j t
Explains-same e t p h = subst (λ (n : ℕ). Explains e n t) p h

validate_lem : (i : ℕ) (ts : List Transition) → Verdict i ts (validate_from i ts)
unfolding validate_from
validate_lem i [] = tt
validate_lem i (t ∷ ts) =
    by_check (check_transition i t) (check_lem i t) (validate_from (i + 1) ts)
      (validate_lem (i + 1) ts)
  where
    by_rest : (w : Validation) → IsImportable t → Verdict (i + 1) ts w → Verdict i (t ∷ ts) w
    by_rest valid ht h = (ht, h)
    by_rest (invalid e) ht (front, bad, back, split, fine, why) = (
      t ∷ front,
      bad,
      back,
      ap (λ (l : List Transition). t ∷ l) split,
      (ht, fine),
      Explains-same e bad (omega arith) why,
    )

    by_check :
        (v : Validation)
        → Checked i t v
        → (w : Validation) → Verdict (i + 1) ts w
        → Verdict i (t ∷ ts) (elim v [ valid ↦ w | invalid e ↦ invalid e ])
    by_check valid ht w h = by_rest w ht h
    by_check (invalid e) why w h = ([], t, ts, refl, tt, Explains-same e t (omega arith) why)

-- What a result of `Merge` says: a seed is merged only if every transition is importable, and a
-- refusal leaves the graph as it was and names the first transition that is not, and why.
abbrev pub Reports : List Transition → Graph → MergeResult → Type 0
Reports seed g (merged g') = All IsImportable seed
Reports seed g (rejected e g') =
    (front : List Transition) × (bad : Transition) × (back : List Transition) × (g' ≡ g)
    × (seed ≡ front ++ bad ∷ back)
    × All IsImportable front
    × Explains e (length front) bad

-- A merge succeeds only if each transition has a state, a next command and a positive count.
-- Otherwise the graph is unchanged, and the error carries the index of the first transition that
-- fails, and the first test that it fails: the tests before that one are passed.
pub merge-Reports : (seed : List Transition) (g : Graph) → Reports seed g (merge seed g)
unfolding merge validate_transitions
merge-Reports seed g = by_verdict (validate_from 0 seed) (validate_lem 0 seed)
  where
    by_verdict : (v : Validation) → Verdict 0 seed v → Reports seed g (merge_checked v seed g)
    by_verdict valid h = h
    by_verdict (invalid e) (front, bad, back, split, fine, why) =
        (front, bad, back, refl, split, fine, Explains-same e bad (omega arith) why)

-- The largest value of a counter in the transitions of one state and next command, or `n`.
abbrev pub concerns_seed : Bytes → Bytes → Transition → Bool
concerns_seed sk next t = bytes_eq (state_key t.state) sk && bytes_eq t.next next

abbrev pub peak : (Transition → Bool) → (Transition → ℕ) → ℕ → List Transition → ℕ
peak p f n [] = n
peak p f n (t ∷ ts) = peak p f (if p t then max n (f t) else n) ts

-- An entry has the peaks of its counters.
pub record Peaks (c : Transition → Bool) (before after : Entry) (seed : List Transition)
    : Type 0 where
  pub count : after.count ≡ peak c (λ t. t.count) before.count seed
  pub last_seen : after.last_seen ≡ peak c (λ t. t.last_seen) before.last_seen seed
  pub next_success : after.next_success ≡ peak c (λ t. t.next_success) before.next_success seed
  pub next_failure : after.next_failure ≡ peak c (λ t. t.next_failure) before.next_failure seed
  pub prior_success : after.prior_success ≡ peak c (λ t. t.prior_success) before.prior_success seed
  pub prior_failure : after.prior_failure ≡ peak c (λ t. t.prior_failure) before.prior_failure seed
  pub accepted : after.accepted ≡ peak c (λ t. t.accepted) before.accepted seed

entry_at-merge_one :
    (t : Transition) (g : Graph) (sk next : Bytes)
    → or_zero (entry_at (merge_one t g) sk next) ≡ (
        if concerns_seed sk next t
        then merge_entry t (or_zero (entry_at g sk next))
        else or_zero (entry_at g sk next))
unfolding merge_one
entry_at-merge_one t g sk next =
    ap or_zero (entry_at-update (state_key t.state) t.next (merge_entry t) g sk next)
    ∙ by_keys (bytes_eq (state_key t.state) sk) (bytes_eq t.next next) refl refl
  where
    by_keys :
        (a b : Bool)
        → bytes_eq (state_key t.state) sk ≡ a
        → bytes_eq t.next next ≡ b
        → or_zero (
            if a && b
            then some (merge_entry t (or_zero (entry_at g (state_key t.state) t.next)))
            else entry_at g sk next)
          ≡ (if a && b
              then merge_entry t (or_zero (entry_at g sk next))
              else or_zero (entry_at g sk next))
    by_keys true true ea eb =
        rw (bytes_eq_sound (state_key t.state) sk ea, bytes_eq_sound t.next next eb)
    by_keys true false ea eb = refl
    by_keys false b ea eb = refl

Peaks-step :
    (c : Transition → Bool) (t : Transition) (seed : List Transition) (before after : Entry)
    → Peaks c (if c t then merge_entry t before else before) after seed
    → Peaks c before after (t ∷ seed)
unfolding merge_entry
Peaks-step c t seed before after k = record {
  count = k.count ∙ ap (λ (n : ℕ). peak c (λ t. t.count) n seed) (ground arith);
  last_seen = k.last_seen ∙ ap (λ (n : ℕ). peak c (λ t. t.last_seen) n seed) (later (c t));
  next_success =
      k.next_success ∙ ap (λ (n : ℕ). peak c (λ t. t.next_success) n seed) (ground arith);
  next_failure =
      k.next_failure ∙ ap (λ (n : ℕ). peak c (λ t. t.next_failure) n seed) (ground arith);
  prior_success =
      k.prior_success ∙ ap (λ (n : ℕ). peak c (λ t. t.prior_success) n seed) (ground arith);
  prior_failure =
      k.prior_failure ∙ ap (λ (n : ℕ). peak c (λ t. t.prior_failure) n seed) (ground arith);
  accepted = k.accepted ∙ ap (λ (n : ℕ). peak c (λ t. t.accepted) n seed) (ground arith);
}
  where
    later :
        (b : Bool)
        → (if b then merge_entry t before else before).last_seen
          ≡ (if b then max before.last_seen t.last_seen else before.last_seen)
    later true = ground arith
    later false = refl

merge_loop-Peaks :
    (seed : List Transition) (g : Graph) (sk next : Bytes)
    → Peaks
        (concerns_seed sk next)
        (or_zero (entry_at g sk next))
        (or_zero (entry_at (merge_loop seed g) sk next))
        seed
unfolding merge_loop
merge_loop-Peaks [] g sk next = record {
  count = refl;
  last_seen = refl;
  next_success = refl;
  next_failure = refl;
  prior_success = refl;
  prior_failure = refl;
  accepted = refl;
}
merge_loop-Peaks (t ∷ seed) g sk next =
    Peaks-step (concerns_seed sk next) t seed (or_zero (entry_at g sk next)) _ (
      subst
        (λ (x : Entry).
          Peaks (concerns_seed sk next) x
            (or_zero (entry_at (merge_loop seed (merge_one t g)) sk next)) seed)
        (entry_at-merge_one t g sk next) (merge_loop-Peaks seed (merge_one t g) sk next))

-- A merge combines counters by maximum, never by addition: each counter and the time of an entry
-- is the largest among what the entry held and what the seed's transitions for its state and next
-- command say.
pub merge-Peaks :
    (seed : List Transition) (g g' : Graph) (sk next : Bytes)
    → merge seed g ≡ merged g'
    → Peaks
        (concerns_seed sk next)
        (or_zero (entry_at g sk next))
        (or_zero (entry_at g' sk next))
        seed
unfolding merge
merge-Peaks seed g g' sk next h = by_verdict (validate_transitions seed) h
  where
    by_verdict :
        (v : Validation)
        → merge_checked v seed g ≡ merged g'
        → Peaks
            (concerns_seed sk next)
            (or_zero (entry_at g sk next))
            (or_zero (entry_at g' sk next))
            seed
    by_verdict valid e =
        let same : merge_loop seed g ≡ g' = cc in
        subst
          (λ (x : Graph).
            Peaks (concerns_seed sk next) (or_zero (entry_at g sk next))
              (or_zero (entry_at x sk next)) seed)
          same (merge_loop-Peaks seed g sk next)
    by_verdict (invalid e) k = cc
