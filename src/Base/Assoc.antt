-- ===== src/Base/Assoc.antt =====
-- Go maps with string keys, as association lists: `m[k]` and `m[k] = v`, `delete(m, k)`, `len(m)`.
use mathlib.Core.Path.{◌≡◌, refl, ap}
use mathlib.Core.Logic.{inl, inr}
use mathlib.Core.List.{List, [], ◌∷◌}
use mathlib.Core.Option.{Option, none, some}
use native.Mathlib.Omega.{arith}
use hunch.Base.Tests.{if◌then◌else◌, Bool-cases}
use hunch.Base.Texts.{Bytes, bytes_eq, bytes_eq_iff, bytes_eq_sound}

abbrev pub Assoc {ℓ} : Type ℓ → Type ℓ
Assoc V = List (Bytes × V)

module _ {ℓ} {V : Type ℓ} where
  unfoldable pub lookup : Bytes → Assoc V → Option V
  lookup k [] = none
  lookup k ((j, v) ∷ m) = if bytes_eq j k then some v else lookup k m

  -- A new key goes to the end.
  unfoldable pub insert : Bytes → V → Assoc V → Assoc V
  insert k v [] = (k, v) ∷ []
  insert k v ((j, w) ∷ m) = if bytes_eq j k then (k, v) ∷ m else (j, w) ∷ insert k v m

  pub lookup-insert :
      (k j : Bytes) (v : V) (m : Assoc V)
      → lookup j (insert k v m) ≡ (if bytes_eq k j then some v else lookup j m)
  unfolding lookup insert
  lookup-insert k j v [] = refl
  lookup-insert k j v ((i, w) ∷ m) =
      ground (arith, bytes_eq_iff k j, bytes_eq_iff i k, bytes_eq_iff i j, lookup-insert k j v m)

  -- Writing what is there changes nothing.
  pub insert-same : (k : Bytes) (v : V) (m : Assoc V) → lookup k m ≡ some v → insert k v m ≡ m
  unfolding lookup insert
  insert-same k v [] h = cc
  insert-same k v ((j, w) ∷ m) h = elim (Bool-cases (bytes_eq j k)) [
    | inl e ↦
        let h' : some w ≡ some v = rw e at h in
        let same : w ≡ v = cc in rw (e, bytes_eq_sound j k e, same)
    | inr e ↦ rw e (ap (λ (l : Assoc V). (j, w) ∷ l) (insert-same k v m (rw e at h)))
  ]
