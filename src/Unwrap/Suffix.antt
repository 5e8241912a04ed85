-- ===== src/Unwrap/Suffix.antt =====
-- What `unwrapPrefixTokens` leaves: the end of its input, unwrapped as far as it goes.
use mathlib.Core.List.{cons-ne-nil}
use hunch.Base.{
  ℕ, zero, suc, ◌≤◌, ◌<◌, ◌≡◌, ◌≢◌, refl, sym, ap, ◌⊎◌, inl, inr, true, false, not, ◌&&◌, List, [],
  ◌∷◌, ◌++◌, none, some, Bytes, arith, length, Bool-cases, Option-cases, drop, length-drop,
  append_assoc,
}
use hunch.Unwrap.{
  wrapper_command_index, strip_assignments, starts_with_wrapper, in_range, strip_wrappers,
  unwrap_prefix_tokens, is_flag, is_env_assignment,
}
use hunch.Unwrap.Index.{wrapper_command_index_bounds}

-- `rest` is what is left of `tokens` after some tokens at its front.
abbrev pub EndsWith : List Bytes → List Bytes → Type 0
EndsWith tokens rest = (front : List Bytes) × (tokens ≡ front ++ rest)

EndsWith-trans : (a b c : List Bytes) → EndsWith a b → EndsWith b c → EndsWith a c
EndsWith-trans a b c (f, p) (g, q) = (f ++ g, rw (p, q) (sym (append_assoc f g c)))

EndsWith-drop : (n : ℕ) (ts : List Bytes) → EndsWith ts (drop n ts)
EndsWith-drop zero ts = ([], refl)
EndsWith-drop (suc n) [] = ([], refl)
EndsWith-drop (suc n) (t ∷ ts) =
    let (f, p) = EndsWith-drop n ts in (t ∷ f, ap (λ (l : List Bytes). t ∷ l) p)

strip_assignments-EndsWith : (ts : List Bytes) → EndsWith ts (strip_assignments ts)
unfolding strip_assignments
strip_assignments-EndsWith [] = ([], refl)
strip_assignments-EndsWith (t ∷ []) = ([], refl)
strip_assignments-EndsWith (t ∷ u ∷ rest) =
    let (f, p) = strip_assignments-EndsWith (u ∷ rest) in
    elim (Bool-cases (not (is_flag t) && is_env_assignment t)) [
      | inl go ↦ rw go (t ∷ f, ap (λ (l : List Bytes). t ∷ l) p)
      | inr stay ↦ rw stay ([], refl)
    ]

strip_assignments-ne-nil : (t : Bytes) (ts : List Bytes) → strip_assignments (t ∷ ts) ≢ []
unfolding strip_assignments
strip_assignments-ne-nil t [] = cons-ne-nil t []
strip_assignments-ne-nil t (u ∷ rest) = ground (arith, strip_assignments-ne-nil u rest)

-- Either no wrapper command is in front, or its wrapped command cannot be found.
abbrev pub IsUnwrapped : List Bytes → Type 0
IsUnwrapped ts = (starts_with_wrapper ts ≡ false) ⊎ (wrapper_command_index ts ≡ none)

-- The test `next < 1 || next >= len(tokens)` never fires: the index is always in range.
index-in_range :
    (ts : List Bytes) (n : ℕ) → wrapper_command_index ts ≡ some n → in_range n ts ≡ true
unfolding in_range
index-in_range ts n h = let b = wrapper_command_index_bounds ts h in ground arith

drop-ne-nil : (n : ℕ) (ts : List Bytes) → n < length ts → drop n ts ≢ []
drop-ne-nil n ts h e = let l = length-drop n ts in absurd (omega (arith, ap (length {A = Bytes}) e))

-- One round that finds the wrapped command.
pub strip_wrappers_step :
    (fuel : ℕ) (ts : List Bytes) (n : ℕ)
    → starts_with_wrapper ts ≡ true
    → wrapper_command_index ts ≡ some n
    → strip_wrappers (suc fuel) ts ≡ strip_wrappers fuel (drop n ts)
unfolding strip_wrappers
strip_wrappers_step fuel ts n w h = rw (w, h, index-in_range ts n h, strip_wrappers)

pub strip_wrappers_done :
    (fuel : ℕ) (ts : List Bytes) → IsUnwrapped ts → strip_wrappers fuel ts ≡ ts
unfolding strip_wrappers
strip_wrappers_done zero ts h = refl
strip_wrappers_done (suc fuel) ts (inl h) = rw (h, strip_wrappers)
strip_wrappers_done (suc fuel) ts (inr h) = elim (Bool-cases (starts_with_wrapper ts)) [
  | inl w ↦ rw (w, h, strip_wrappers)
  | inr w ↦ rw (w, strip_wrappers)
]

-- Where the loop stands before a round.
pub data Round (ts : List Bytes) : Type 0 where
  done : IsUnwrapped ts → Round ts
  again : (n : ℕ) → starts_with_wrapper ts ≡ true → wrapper_command_index ts ≡ some n → Round ts

pub round : (ts : List Bytes) → Round ts
round ts = elim (Bool-cases (starts_with_wrapper ts)) [
  | inr w ↦ done (inl w)
  | inl w ↦ elim (Option-cases (wrapper_command_index ts)) [
    | inl h ↦ done (inr h)
    | inr found ↦ again found.0 w found.1
  ]
]

record Outcome (ts rest : List Bytes) : Type 0 where
  suffix : EndsWith ts rest
  kept : ts ≢ [] → rest ≢ []
  finished : IsUnwrapped rest

strip_wrappers-Outcome :
    (fuel : ℕ) (ts : List Bytes) → length ts ≤ fuel → Round ts → Outcome ts (strip_wrappers fuel ts)
strip_wrappers-Outcome fuel ts h (done d) =
    rw (strip_wrappers_done fuel ts d) (record { suffix = ([], refl); kept = λ k. k; finished = d })
strip_wrappers-Outcome zero ts h (again n w found) =
    let b = wrapper_command_index_bounds ts found in absurd (omega arith)
strip_wrappers-Outcome (suc fuel) ts h (again n w found) =
    let b = wrapper_command_index_bounds ts found in
    let ih =
      strip_wrappers-Outcome fuel (drop n ts) (omega (arith, length-drop n ts))
        (round (drop n ts)) in
    rw (strip_wrappers_step fuel ts n w found) (record {
      suffix = EndsWith-trans ts (drop n ts) _ (EndsWith-drop n ts) ih.suffix;
      kept = λ k. ih.kept (drop-ne-nil n ts b.1);
      finished = ih.finished;
    })

-- Of a command with a token, unwrapping only takes tokens off the front, and never all of them.
pub unwrap_suffix :
    (t : Bytes) (ts : List Bytes)
    → EndsWith (t ∷ ts) (unwrap_prefix_tokens (t ∷ ts)) × (unwrap_prefix_tokens (t ∷ ts) ≢ [])
unwrap_suffix t ts =
    let s = strip_assignments (t ∷ ts) in
    let o = strip_wrappers-Outcome (length s) s (omega arith) (round s) in
    unfold unwrap_prefix_tokens in
    (
      EndsWith-trans (t ∷ ts) s _ (strip_assignments-EndsWith (t ∷ ts)) o.suffix,
      o.kept (strip_assignments-ne-nil t ts),
    )

-- The number of tokens is fuel enough: what is left begins with no wrapper command, has one token
-- only, or is a wrapper whose own command cannot be found.
pub unwrap_complete : (ts : List Bytes) → IsUnwrapped (unwrap_prefix_tokens ts)
unfolding unwrap_prefix_tokens
unwrap_complete ts =
    let s = strip_assignments ts in
    (strip_wrappers-Outcome (length s) s (omega arith) (round s)).finished
