-- ===== src/Classify/Privacy.antt =====
-- What of a command can show in its template.
use mathlib.Core.Logic.{◌⊎◌}
use hunch.Base.{
  ℕ, ◌+◌, ◌≤◌, ◌≡◌, ◌≢◌, refl, ap, inl, inr, Bool, true, false, List, [], ◌∷◌, ◌++◌, some, Bytes,
  codes, All, All-append, arith, head?, bytes_eq, bytes_eq_iff, contains, Bool-cases,
}
use hunch.Unwrap.{double_dash}
use hunch.Classify.{
  Classification, plain, flag, path, repo, hash, num, str, classify_token, classify_shape,
  collapse_append, append_class, collapse_loop, collapse_tokens, classify_from, classify_tokens,
}

-- The words that stand for concrete values.
abbrev pub IsPlaceholder : Bytes → Type 0
IsPlaceholder w =
    (w ≡ codes "FLAG")
    ⊎ (w ≡ codes "PATH")
    ⊎ (w ≡ codes "REPO")
    ⊎ (w ≡ codes "HASH")
    ⊎ (w ≡ codes "NUM")
    ⊎ (w ≡ codes "STR")
    ⊎ (w ≡ codes "KWARGS")

-- A word that a template may show behind the command's name: a placeholder, or the subcommand of
-- a known parent.
abbrev pub IsSafe : List Bytes → Bytes → List Bytes → Bytes → Type 0
IsSafe parents first rest w =
    IsPlaceholder w ⊎ ((contains parents first ≡ true) × (head? rest ≡ some w))

module _ (Safe : Bytes → Type 0) (placeholder : (w : Bytes) → IsPlaceholder w → Safe w) where
  -- Each token that its class keeps is safe.
  abbrev Kept : List Bytes → List Classification → Type 0
  Kept [] ks = Unit
  Kept (t ∷ ts) [] = Unit
  Kept (t ∷ ts) (k ∷ ks) = (k ≡ plain → t ≢ double_dash → Safe t) × Kept ts ks

  -- A result that is the command's name and safe words.
  record IsShown (first : Bytes) (result : List Bytes) : Type 0 where
    words : List Bytes
    split : result ≡ first ∷ words
    safe : All Safe words

  append-IsShown :
      (first : Bytes) (result : List Bytes) (w : Bytes)
      → Safe w
      → IsShown first result
      → IsShown first (result ++ w ∷ [])
  append-IsShown first result w h s = record {
    words = s.words ++ w ∷ [];
    split = ap (λ (l : List Bytes). l ++ w ∷ []) s.split;
    safe = All-append Safe s.words (w ∷ []) s.safe (h, tt);
  }

  collapse_append-IsShown :
      (first : Bytes) (result : List Bytes) (w : Bytes)
      → IsPlaceholder w
      → IsShown first result
      → IsShown first (collapse_append result w)
  unfolding collapse_append
  collapse_append-IsShown first result w h s = elim (Bool-cases (hunch.Classify.last_is w result)) [
    | inl e ↦ rw e s
    | inr e ↦ rw e (append-IsShown first result w (placeholder w h) s)
  ]

  append_class-IsShown :
      (first : Bytes) (result : List Bytes) (k : Classification) (t : Bytes)
      → (k ≡ plain → Safe t)
      → IsShown first result
      → IsShown first (append_class k t result)
  unfolding append_class
  append_class-IsShown first result plain t h s = append-IsShown first result t (h refl) s
  append_class-IsShown first result flag t h s = collapse_append-IsShown first result _ (inl refl) s
  append_class-IsShown first result path t h s =
      collapse_append-IsShown first result _ (inr (inl refl)) s
  append_class-IsShown first result repo t h s =
      collapse_append-IsShown first result _ (inr (inr (inl refl))) s
  append_class-IsShown first result hash t h s =
      collapse_append-IsShown first result _ (inr (inr (inr (inl refl)))) s
  append_class-IsShown first result num t h s =
      collapse_append-IsShown first result _ (inr (inr (inr (inr (inl refl))))) s
  append_class-IsShown first result str t h s =
      collapse_append-IsShown first result _ (inr (inr (inr (inr (inr (inl refl)))))) s

  collapse_loop-IsShown :
      (first : Bytes) (ts : List Bytes) (ks : List Classification) (result : List Bytes)
      (in_kwargs : Bool)
      → Kept ts ks
      → IsShown first result
      → IsShown first (collapse_loop ts ks result in_kwargs)
  unfolding collapse_loop
  collapse_loop-IsShown first [] ks result in_kwargs h s = s
  collapse_loop-IsShown first (t ∷ ts) [] result in_kwargs h s = s
  collapse_loop-IsShown first (t ∷ ts) (k ∷ ks) result true h s =
      collapse_loop-IsShown first ts ks result true h.1 s
  collapse_loop-IsShown first (t ∷ ts) (k ∷ ks) result false h s =
      elim (Bool-cases (bytes_eq t double_dash)) [
        | inl e ↦ rw e (
            collapse_loop-IsShown first ts ks _ true h.1 (
              append-IsShown first result _ (placeholder _ (inr (inr (inr (inr (inr (inr refl)))))))
                s))
        | inr e ↦ rw e (
            collapse_loop-IsShown first ts ks _ false h.1
              (append_class-IsShown first result k t (λ p. h.0 p (differs e)) s))
      ]
    where
      differs : bytes_eq t double_dash ≡ false → t ≢ double_dash
      differs e q = let same = (bytes_eq_iff t double_dash).1 q in cc

-- The shape of a token never makes it plain, so behind the second token only `--` is.
classify-plain :
    (t : Bytes) (i : ℕ) (first : Bytes) (parents : List Bytes)
    → 1 ≤ i
    → classify_token t i first parents ≡ plain
    → t ≢ double_dash
    → (i ≡ 1) × (contains parents first ≡ true)
unfolding classify_token
classify-plain t i first parents h e d = ground (arith, bytes_eq_iff t double_dash)

module _ (parents : List Bytes) (first : Bytes) where
  -- From the third token on, nothing is kept.
  Kept-behind :
      (rest : List Bytes) (i : ℕ) (ts : List Bytes)
      → 2 ≤ i
      → Kept (IsSafe parents first rest) (λ w p. inl p) ts (classify_from i first parents ts)
  unfolding classify_from
  Kept-behind rest i [] h = tt
  Kept-behind rest i (t ∷ ts) h = (
    λ p d.
        let (one, c) = classify-plain t i first parents (omega arith) p d in absurd (omega arith),
    Kept-behind rest (i + 1) ts (omega arith),
  )

  Kept-arguments :
      (ts : List Bytes)
      → Kept (IsSafe parents first ts) (λ w p. inl p) ts (classify_from 1 first parents ts)
  unfolding classify_from
  Kept-arguments [] = tt
  Kept-arguments (t ∷ ts) = (
    λ p d. let (one, c) = classify-plain t 1 first parents (omega arith) p d in inr (c, refl),
    Kept-behind (t ∷ ts) 2 ts (omega arith),
  )

pub classify_tokens-IsSafe :
    (parents : List Bytes) (first : Bytes) (rest : List Bytes)
    → (words : List Bytes) × (classify_tokens (first ∷ rest) parents ≡ first ∷ words)
      × All (IsSafe parents first rest) words
unfolding classify_tokens classify_from
classify_tokens-IsSafe parents first rest =
    let shown =
      collapse_loop-IsShown (IsSafe parents first rest) (λ w p. inl p) first rest
        (classify_from 1 first parents rest) (first ∷ []) false (Kept-arguments parents first rest)
        (record { words = []; split = refl; safe = tt }) in
    (shown.words, shown.split, shown.safe)
