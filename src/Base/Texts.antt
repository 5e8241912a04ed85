-- ===== src/Base/Texts.antt =====
-- Texts as the lists of their bytes, the way the program reads them, and their comparison.
use Prim.Native.Nat.{ℕ, ◌+◌, ◌≤◌}
use Prim.Native.Char.{code}
use Prim.Native.String.{String}
use mathlib.Core.Path.{◌≡◌, refl, ap, ◌∙◌}
use mathlib.Core.Logic.{◌↔◌, ◌≢◌, inl, inr}
use mathlib.Core.Bool.{Bool, true, false, ◌&&◌, ◌||◌, false≢true}
use mathlib.Core.List.{List, [], ◌∷◌, ◌++◌}
use native.Mathlib.Omega.{arith}
use hunch.Base.Lists.{All, length}
use hunch.Base.Tests.{◌==◌, ==_iff, ltb, leb, if◌then◌else◌, Bool-cases}

abbrev pub Bytes : Type 0
Bytes = List ℕ

-- The code points of a literal; these are its bytes when the text is ASCII.
abbrev pub codes : String → Bytes
codes String.[] = []
codes (String.◌∷◌ c s) = code c ∷ codes s

unfoldable pub bytes_eq : Bytes → Bytes → Bool
bytes_eq [] [] = true
bytes_eq [] (b ∷ bs) = false
bytes_eq (a ∷ as') [] = false
bytes_eq (a ∷ as') (b ∷ bs) = a == b && bytes_eq as' bs

pub bytes_eq_sound : (s t : Bytes) → bytes_eq s t ≡ true → s ≡ t
unfolding bytes_eq
bytes_eq_sound [] [] h = refl
bytes_eq_sound [] (b ∷ bs) h = absurd (false≢true h)
bytes_eq_sound (a ∷ s) [] h = absurd (false≢true h)
bytes_eq_sound (a ∷ s) (b ∷ t) h = ground (arith, bytes_eq_sound s t)

pub bytes_eq_refl : (s : Bytes) → bytes_eq s s ≡ true
unfolding bytes_eq
bytes_eq_refl [] = refl
bytes_eq_refl (a ∷ s) = ground (arith, bytes_eq_refl s)

pub bytes_eq_iff : (s t : Bytes) → (bytes_eq s t ≡ true) ↔ (s ≡ t)
bytes_eq_iff s t = (bytes_eq_sound s t, λ e. rw e (bytes_eq_refl t))

pub bytes_eq-of_ne : (s t : Bytes) → s ≢ t → bytes_eq s t ≡ false
bytes_eq-of_ne s t h = elim (Bool-cases (bytes_eq s t)) [
  | inl e ↦ absurd (h (bytes_eq_sound s t e))
  | inr e ↦ e
]

pub bytes_eq-sym : (s t : Bytes) → bytes_eq s t ≡ bytes_eq t s
unfolding bytes_eq
bytes_eq-sym [] [] = refl
bytes_eq-sym [] (b ∷ t) = refl
bytes_eq-sym (a ∷ s) [] = refl
bytes_eq-sym (a ∷ s) (b ∷ t) = ground (arith, bytes_eq-sym s t)

-- Texts of different lengths are not equal.
pub bytes_eq-shorter : (s t : Bytes) → length s + 1 ≤ length t → bytes_eq s t ≡ false
bytes_eq-shorter s t h = elim (Bool-cases (bytes_eq s t)) [
  | inl e ↦ absurd (omega (arith, ap (λ (u : Bytes). length u) (bytes_eq_sound s t e)))
  | inr e ↦ e
]

pub bytes_eq-longer : (s t : Bytes) → length t + 1 ≤ length s → bytes_eq s t ≡ false
bytes_eq-longer s t h = elim (Bool-cases (bytes_eq s t)) [
  | inl e ↦ absurd (omega (arith, ap (λ (u : Bytes). length u) (bytes_eq_sound s t e)))
  | inr e ↦ e
]

-- The lexicographic order of Go's `<` on strings.
unfoldable pub bytes_lt : Bytes → Bytes → Bool
bytes_lt s [] = false
bytes_lt [] (b ∷ t) = true
bytes_lt (a ∷ s) (b ∷ t) = ltb a b || (a == b && bytes_lt s t)

unfoldable pub starts_with : Bytes → Bytes → Bool
starts_with [] s = true
starts_with (p ∷ ps) [] = false
starts_with (p ∷ ps) (c ∷ s) = p == c && starts_with ps s

-- Membership in a set of texts that the program writes as a list of cases.
unfoldable pub contains : List Bytes → Bytes → Bool
contains [] t = false
contains (x ∷ xs) t = bytes_eq x t || contains xs t

cons_first : ℕ → List Bytes → List Bytes
cons_first c [] = (c ∷ []) ∷ []
cons_first c (s ∷ ss) = (c ∷ s) ∷ ss

-- strings.Split by one byte: there is always a first part.
unfoldable pub split : ℕ → Bytes → List Bytes
unfolding cons_first
split sep [] = [] ∷ []
split sep (c ∷ s) = let rest = split sep s in if c == sep then [] ∷ rest else cons_first c rest

pub split-ne-nil : (sep : ℕ) (s : Bytes) → split sep s ≢ []
unfolding split
split-ne-nil sep [] = cc
split-ne-nil sep (c ∷ s) = elim (Bool-cases (c == sep)) [
  | inl e ↦ rw e (cc)
  | inr e ↦ rw e (first (split sep s))
]
  where
    first : (ss : List Bytes) → cons_first c ss ≢ []
    first [] = cc
    first (x ∷ xs) = cc

-- A separator ends a part.
pub split-append_separator :
    (sep : ℕ) (a s : Bytes) → split sep (a ++ sep ∷ s) ≡ split sep a ++ split sep s
unfolding split
split-append_separator sep [] s = rw ((==_iff sep sep).1 refl)
split-append_separator sep (c ∷ a) s = elim (Bool-cases (c == sep)) [
  | inl e ↦ rw e (ap (λ (l : List Bytes). [] ∷ l) (split-append_separator sep a s))
  | inr e ↦ rw e (
      ap (cons_first c) (split-append_separator sep a s) ∙ first (split sep a) (split-ne-nil sep a))
]
  where
    first :
        (ss : List Bytes)
        → ss ≢ []
        → cons_first c (ss ++ split sep s) ≡ cons_first c ss ++ split sep s
    first [] h = absurd (h refl)
    first (x ∷ xs) h = refl

-- Any other byte stands at the front of the first part.
pub split-byte :
    (sep c : ℕ) (s : Bytes)
    → (c == sep) ≡ false
    → (x : Bytes) × (xs : List Bytes) × (split sep s ≡ x ∷ xs) × (split sep (c ∷ s) ≡ (c ∷ x) ∷ xs)
unfolding split
split-byte sep c s h = first (split sep s) refl
  where
    first :
        (ss : List Bytes)
        → split sep s ≡ ss
        → (x : Bytes) × (xs : List Bytes) × (split sep s ≡ x ∷ xs)
          × (split sep (c ∷ s) ≡ (c ∷ x) ∷ xs)
    first [] e = absurd (split-ne-nil sep s e)
    first (x ∷ xs) e = (x, xs, e, rw h (ap (cons_first c) e))

-- A text without the separator is one part.
-- No part has the byte.
pub split-parts : (sep : ℕ) (s : Bytes) → All (All (λ c. c ≢ sep)) (split sep s)
unfolding split cons_first
split-parts sep [] = (tt, tt)
split-parts sep (c ∷ s) = elim (Bool-cases (c == sep)) [
  | inl e ↦ rw e (tt, split-parts sep s)
  | inr e ↦ rw e (first (split sep s) (λ k. absurd (cc ((==_iff c sep).1 k))) (split-parts sep s))
]
  where
    first :
        (ss : List Bytes)
        → c ≢ sep
        → All (All (λ c'. c' ≢ sep)) ss
        → All (All (λ c'. c' ≢ sep)) (cons_first c ss)
    first [] k h = ((k, tt), tt)
    first (t ∷ ss) k (ht, h) = ((k, ht), h)

pub split-one : (sep : ℕ) (s : Bytes) → All (λ c. c ≢ sep) s → split sep s ≡ s ∷ []
unfolding split
split-one sep [] h = refl
split-one sep (c ∷ s) (hc, h) = ground (arith, split-one sep s h)

-- The ASCII bytes that unicode.IsSpace takes for space.
unfoldable pub is_ascii_space : ℕ → Bool
is_ascii_space c = c == b' ' || (leb 9 c && leb c 13)
