-- ===== src/Unwrap/Index.antt =====
-- Where the wrapped command is found.
use hunch.Base.{
  ℕ, suc, ◌+◌, ◌≤◌, ◌<◌, ◌≡◌, Bool, true, false, List, [], ◌∷◌, Option, none, some, Bytes, codes,
  arith, length, Bool-cases, inl, inr, bytes_eq,
}
use hunch.Unwrap.{
  separator, flag, flag_with_value, assignment, positional, command, classify_arg, walk, flock_walk,
  configured_index, wrapper_command_index,
}
use hunch.Unwrap.Wrappers.{WrapperConfig, wrapper_config}

-- `n` is an index into a list of `len` tokens that begins at `i`.
abbrev Within : ℕ → ℕ → Option ℕ → Type 0
Within i len none = Unit
Within i len (some n) = (i ≤ n) × (n < i + len)

weaken : (i j a b : ℕ) (o : Option ℕ) → Within j b o → i ≤ j → j + b ≤ i + a → Within i a o
weaken i j a b none w h k = tt
weaken i j a b (some n) w h k = omega arith

walk-Within :
    (cfg : WrapperConfig) (skipped i : ℕ) (ts : List Bytes)
    → Within i (length ts) (walk cfg skipped i ts)
unfolding walk
walk-Within cfg skipped i [] = tt
walk-Within cfg skipped i (tok ∷ []) =
    elim (classify_arg cfg skipped tok)
      as (λ a. Within i 1 (elim a [ command ↦ some i | _ ↦ none ])) [
        | command ↦ omega arith
        | _ ↦ tt
      ]
walk-Within cfg skipped i (tok ∷ v ∷ rest) =
    let one = walk-Within cfg skipped (i + 1) (v ∷ rest) in
    let two = walk-Within cfg skipped (i + 2) rest in
    let pos = walk-Within cfg (skipped + 1) (i + 1) (v ∷ rest) in
    elim (classify_arg cfg skipped tok)
      as (λ a. Within i (suc (suc (length rest))) (elim a [
        | separator ↦ some (i + 1)
        | flag ↦ walk cfg skipped (i + 1) (v ∷ rest)
        | flag_with_value ↦ walk cfg skipped (i + 2) rest
        | assignment ↦ walk cfg skipped (i + 1) (v ∷ rest)
        | positional ↦ walk cfg (skipped + 1) (i + 1) (v ∷ rest)
        | command ↦ some i
      ])) [
        | separator ↦ omega arith
        | flag ↦ weaken i (i + 1) _ _ _ one (omega arith) (omega arith)
        | flag_with_value ↦ weaken i (i + 2) _ _ _ two (omega arith) (omega arith)
        | assignment ↦ weaken i (i + 1) _ _ _ one (omega arith) (omega arith)
        | positional ↦ weaken i (i + 1) _ _ _ pos (omega arith) (omega arith)
        | command ↦ omega arith
      ]

flock-Within : (saw : Bool) (i : ℕ) (ts : List Bytes) → Within i (length ts) (flock_walk saw i ts)
unfolding flock_walk
flock-Within saw i [] = tt
flock-Within saw i (tok ∷ []) = ground arith
flock-Within saw i (tok ∷ v ∷ rest) =
    let keep =
      weaken i (i + 1) (suc (suc (length rest))) _ _ (flock-Within saw (i + 1) (v ∷ rest))
        (omega arith) (omega arith) in
    let lock =
      weaken i (i + 1) (suc (suc (length rest))) _ _ (flock-Within true (i + 1) (v ∷ rest))
        (omega arith) (omega arith) in
    ground arith

configured-Within :
    (o : Option WrapperConfig) (w : Bytes) (ts : List Bytes)
    → Within 1 (length ts) (configured_index o (w ∷ ts))
unfolding configured_index
configured-Within none w ts = tt
configured-Within (some cfg) w ts = walk-Within cfg 0 1 ts

wrapper-Within :
    (w : Bytes) (ts : List Bytes) → Within 1 (length ts) (wrapper_command_index (w ∷ ts))
unfolding wrapper_command_index
wrapper-Within w [] = tt
wrapper-Within w (a ∷ rest) = elim (Bool-cases (bytes_eq w (codes "flock"))) [
  | inl yes_flock ↦ rw yes_flock (flock-Within false 1 (a ∷ rest))
  | inr other ↦ rw other (configured-Within (wrapper_config w) w (a ∷ rest))
]

-- The index of the wrapped command, whichever wrapper it is and whatever its arguments, is above
-- that of the wrapper and below the number of tokens.
pub wrapper_command_index_bounds :
    (tokens : List Bytes) {n : ℕ}
    → wrapper_command_index tokens ≡ some n
    → (1 ≤ n) × (n < length tokens)
wrapper_command_index_bounds [] h = unfold wrapper_command_index in ground arith
wrapper_command_index_bounds (w ∷ ts) {n} h =
    let bound : Within 1 (length ts) (some n) = rw h at (wrapper-Within w ts) in omega arith
