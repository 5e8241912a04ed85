-- ===== src/Normalize/Joined.antt =====
-- The standard library's strings.Split by a byte and strings.Join with it undo each other.
use hunch.Base.{
  ℕ, ◌≡◌, ◌≢◌, refl, sym, ap, ◌∙◌, inl, inr, true, Bool-cases, List, [], ◌∷◌, append_assoc, Bytes,
  ◌==◌, ==_iff, split, split-append_separator, split-one, split-byte, split-ne-nil, All,
}
use hunch.Normalize.{join}

module _ (sep : ℕ) where
  join-first :
      (c : ℕ) (x : Bytes) (xs : List Bytes)
      → join ((c ∷ x) ∷ xs) (sep ∷ []) ≡ c ∷ join (x ∷ xs) (sep ∷ [])
  unfolding join
  join-first c x [] = refl
  join-first c x (y ∷ xs) = refl

  join-empty : (ss : List Bytes) → ss ≢ [] → join ([] ∷ ss) (sep ∷ []) ≡ sep ∷ join ss (sep ∷ [])
  unfolding join
  join-empty [] h = absurd (h refl)
  join-empty (t ∷ ss) h = refl

  split-separator : (c : ℕ) (s : Bytes) → (c == sep) ≡ true → split sep (c ∷ s) ≡ [] ∷ split sep s
  unfolding split
  split-separator c s e = rw e

  -- The parts of a text make up the text.
  pub join-split : (s : Bytes) → join (split sep s) (sep ∷ []) ≡ s
  join-split [] = unfold split join in refl
  join-split (c ∷ s) = elim (Bool-cases (c == sep)) [
    | inl e ↦
        ap (λ (l : List Bytes). join l (sep ∷ [])) (split-separator c s e)
        ∙ join-empty (split sep s) (split-ne-nil sep s)
        ∙ ap (λ (t : Bytes). sep ∷ t) (join-split s)
        ∙ ap (λ (d : ℕ). d ∷ s) (sym ((==_iff c sep).0 e))
    | inr e ↦
        let (x, xs, whole, parts) = split-byte sep c s e in
        ap (λ (l : List Bytes). join l (sep ∷ [])) parts
        ∙ join-first c x xs
        ∙ ap (λ (l : List Bytes). c ∷ join l (sep ∷ [])) (sym whole)
        ∙ ap (λ (t : Bytes). c ∷ t) (join-split s)
  ]

  -- Parts that are joined are read back, if there is one and none holds the separator.
  pub split-join :
      (part : Bytes) (parts : List Bytes)
      → All (All (λ c. c ≢ sep)) (part ∷ parts)
      → split sep (join (part ∷ parts) (sep ∷ [])) ≡ part ∷ parts
  unfolding join
  split-join part [] (hp, h) = split-one sep part hp
  split-join part (other ∷ parts) (hp, h) =
      ap (split sep) (append_assoc part (sep ∷ []) (join (other ∷ parts) (sep ∷ [])))
      ∙ split-append_separator sep part (join (other ∷ parts) (sep ∷ []))
      ∙ rw (split-one sep part hp) (ap (λ (l : List Bytes). part ∷ l) (split-join other parts h))
