-- ===== src/Classify/Collapse.antt =====
-- Runs of one class leave one placeholder.
use hunch.Base.{
  ℕ, ◌+◌, ◌≤◌, ◌≡◌, ◌≢◌, refl, ap, ◌∙◌, inl, inr, true, false, List, [], ◌∷◌, ◌++◌, Bytes, codes,
  arith, bytes_eq, bytes_eq_iff, contains, Bool-cases,
}
use hunch.Unwrap.{double_dash}
use hunch.Classify.{
  Classification, plain, flag, path, repo, hash, num, str, classify_token, last_is, collapse_append,
  append_class, collapse_loop, classify_from, classify_tokens,
}

-- No word is followed by itself.
abbrev pub NoRepeat : List Bytes → Type 0
NoRepeat [] = Unit
NoRepeat (x ∷ []) = Unit
NoRepeat (x ∷ y ∷ l) = (x ≢ y) × NoRepeat (y ∷ l)

last_is-append : (l : List Bytes) (v w : Bytes) → last_is w (l ++ v ∷ []) ≡ bytes_eq v w
unfolding last_is
last_is-append [] v w = refl
last_is-append (x ∷ []) v w = refl
last_is-append (x ∷ y ∷ l) v w = last_is-append (y ∷ l) v w

last_is-same : (l : List Bytes) (v w : Bytes) → last_is v l ≡ true → last_is w l ≡ bytes_eq v w
unfolding last_is
last_is-same [] v w h = cc
last_is-same (x ∷ []) v w h = ap (λ (t : Bytes). bytes_eq t w) ((bytes_eq_iff x v).0 h)
last_is-same (x ∷ y ∷ l) v w h = last_is-same (y ∷ l) v w h

NoRepeat-append :
    (l : List Bytes) (w : Bytes) → NoRepeat l → last_is w l ≡ false → NoRepeat (l ++ w ∷ [])
unfolding last_is
NoRepeat-append [] w n h = tt
NoRepeat-append (x ∷ []) w n h = (λ e. let same = (bytes_eq_iff x w).1 e in cc, tt)
NoRepeat-append (x ∷ y ∷ l) w n h = (n.0, NoRepeat-append (y ∷ l) w n.1 h)

-- What the loop keeps up: no repetition, and the separator's placeholder is not the last word.
record IsCollapsed (l : List Bytes) : Type 0 where
  distinct : NoRepeat l
  open_end : last_is (codes "KWARGS") l ≡ false

collapse_append-IsCollapsed :
    (l : List Bytes) (w : Bytes)
    → bytes_eq w (codes "KWARGS") ≡ false
    → IsCollapsed l
    → IsCollapsed (collapse_append l w)
unfolding collapse_append
collapse_append-IsCollapsed l w h c = elim (Bool-cases (last_is w l)) [
  | inl e ↦ rw e c
  | inr e ↦ rw e (record {
    distinct = NoRepeat-append l w c.distinct e;
    open_end = last_is-append l w (codes "KWARGS") ∙ h;
  })
]

append_class-IsCollapsed :
    (k : Classification) (t : Bytes) (l : List Bytes)
    → k ≢ plain
    → IsCollapsed l
    → IsCollapsed (append_class k t l)
unfolding append_class bytes_eq
append_class-IsCollapsed plain t l h c = absurd (h refl)
append_class-IsCollapsed flag t l h c = collapse_append-IsCollapsed l _ refl c
append_class-IsCollapsed path t l h c = collapse_append-IsCollapsed l _ refl c
append_class-IsCollapsed repo t l h c = collapse_append-IsCollapsed l _ refl c
append_class-IsCollapsed hash t l h c = collapse_append-IsCollapsed l _ refl c
append_class-IsCollapsed num t l h c = collapse_append-IsCollapsed l _ refl c
append_class-IsCollapsed str t l h c = collapse_append-IsCollapsed l _ refl c

in_kwargs-same :
    (ts : List Bytes) (ks : List Classification) (l : List Bytes) → collapse_loop ts ks l true ≡ l
unfolding collapse_loop
in_kwargs-same [] ks l = refl
in_kwargs-same (t ∷ ts) [] l = refl
in_kwargs-same (t ∷ ts) (k ∷ ks) l = in_kwargs-same ts ks l

module _ (parents : List Bytes) (first : Bytes) (stranger : contains parents first ≡ false) where
  never_plain :
      (t : Bytes) (i : ℕ)
      → 1 ≤ i
      → bytes_eq t double_dash ≡ false
      → classify_token t i first parents ≢ plain
  unfolding classify_token
  never_plain t i h d = λ p. ground arith

  loop-NoRepeat :
      (i : ℕ) (ts l : List Bytes)
      → 1 ≤ i
      → IsCollapsed l
      → NoRepeat (collapse_loop ts (classify_from i first parents ts) l false)
  unfolding collapse_loop classify_from
  loop-NoRepeat i [] l h c = c.distinct
  loop-NoRepeat i (t ∷ ts) l h c = elim (Bool-cases (bytes_eq t double_dash)) [
    | inl e ↦ rw (e, in_kwargs-same) (NoRepeat-append l (codes "KWARGS") c.distinct c.open_end)
    | inr e ↦ rw e (
        loop-NoRepeat (i + 1) ts _ (omega arith)
          (append_class-IsCollapsed (classify_token t i first parents) t l (never_plain t i h e) c))
  ]

-- In the template of a command that is no known parent and is not called KWARGS, no word stands
-- twice in a row: consecutive arguments of one class are one placeholder, and everything behind
-- the separator is one KWARGS.
pub classify_tokens-NoRepeat :
    (parents : List Bytes) (first : Bytes) (rest : List Bytes)
    → contains parents first ≡ false
    → first ≢ codes "KWARGS"
    → NoRepeat (classify_tokens (first ∷ rest) parents)
unfolding classify_tokens classify_from last_is
classify_tokens-NoRepeat parents first rest h k =
    loop-NoRepeat parents first h 1 rest (first ∷ []) (omega arith)
      (record { distinct = tt; open_end = ground (arith, bytes_eq_iff first (codes "KWARGS")) })
