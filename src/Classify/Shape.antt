-- ===== src/Classify/Shape.antt =====
-- A template depends on the classes of the arguments alone.
use hunch.Base.{
  ℕ, ◌+◌, ◌≡◌, refl, sym, ap, ◌∙◌, inl, inr, Bool, true, false, List, [], ◌∷◌, ◌++◌, Bytes, codes,
  arith, bytes_eq, bytes_eq_iff, Bool-cases,
}
use hunch.Unwrap.{double_dash}
use hunch.Classify.{
  Classification, plain, flag, path, repo, hash, num, str, classify_token, append_class,
  collapse_loop, classify_from, classify_tokens,
}

-- Two runs of arguments, at index `i`, with the same class at each place, and the same text where
-- the class keeps it.
abbrev pub SameShape : List Bytes → Bytes → ℕ → List Bytes → List Bytes → Type 0
SameShape parents first i [] [] = Unit
SameShape parents first i [] (u ∷ us) = ⊥
SameShape parents first i (t ∷ ts) [] = ⊥
SameShape parents first i (t ∷ ts) (u ∷ us) =
    (classify_token t i first parents ≡ classify_token u i first parents)
    × (classify_token t i first parents ≡ plain → t ≡ u)
    × SameShape parents first (i + 1) ts us

append_class-same :
    (k : Classification) (t u : Bytes) (result : List Bytes)
    → (k ≡ plain → t ≡ u)
    → append_class k t result ≡ append_class k u result
unfolding append_class
append_class-same plain t u result h = ap (λ (w : Bytes). result ++ w ∷ []) (h refl)
append_class-same flag t u result h = refl
append_class-same path t u result h = refl
append_class-same repo t u result h = refl
append_class-same hash t u result h = refl
append_class-same num t u result h = refl
append_class-same str t u result h = refl

-- The separator is plain, so two tokens of one shape are both the separator or neither is.
separator-same :
    (parents : List Bytes) (first t u : Bytes) (i : ℕ)
    → classify_token t i first parents ≡ classify_token u i first parents
    → (classify_token t i first parents ≡ plain → t ≡ u)
    → bytes_eq t double_dash ≡ bytes_eq u double_dash
unfolding classify_token
separator-same parents first t u i c p =
    ground (arith, bytes_eq_iff t double_dash, bytes_eq_iff u double_dash)

collapse_loop-same :
    (parents : List Bytes) (first : Bytes) (i : ℕ) (ts us result : List Bytes) (in_kwargs : Bool)
    → SameShape parents first i ts us
    → collapse_loop ts (classify_from i first parents ts) result in_kwargs
      ≡ collapse_loop us (classify_from i first parents us) result in_kwargs
unfolding collapse_loop classify_from
collapse_loop-same parents first i [] [] result in_kwargs h = refl
collapse_loop-same parents first i [] (u ∷ us) result in_kwargs h = absurd h
collapse_loop-same parents first i (t ∷ ts) [] result in_kwargs h = absurd h
collapse_loop-same parents first i (t ∷ ts) (u ∷ us) result true (c, p, h) =
    collapse_loop-same parents first (i + 1) ts us result true h
collapse_loop-same parents first i (t ∷ ts) (u ∷ us) result false (c, p, h) =
    let kwargs =
      collapse_loop-same parents first (i + 1) ts us (result ++ codes "KWARGS" ∷ []) true h in
    let k = classify_token t i first parents in
    let next = collapse_loop-same parents first (i + 1) ts us (append_class k t result) false h in
    let appended : append_class k t result
        ≡ append_class (classify_token u i first parents) u result =
      append_class-same k t u result p ∙ ap (λ (x : Classification). append_class x u result) c in
    let same = separator-same parents first t u i c p in
    elim (Bool-cases (bytes_eq t double_dash)) [
      | inl e ↦ rw (e, sym same ∙ e) kwargs
      | inr e ↦ rw (e, sym same ∙ e) (rw (← appended) next)
    ]

-- Commands that differ only in the values of arguments of the same classes have one template: the
-- values behind placeholders cannot be told from it.
pub classify_tokens-SameShape :
    (parents : List Bytes) (first : Bytes) (ts us : List Bytes)
    → SameShape parents first 1 ts us
    → classify_tokens (first ∷ ts) parents ≡ classify_tokens (first ∷ us) parents
unfolding classify_tokens classify_from
classify_tokens-SameShape parents first ts us h =
    collapse_loop-same parents first 1 ts us (first ∷ []) false h
