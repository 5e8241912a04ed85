-- ===== src/RawStore/Keys.antt =====
-- Whether a key of the store is read back as it was written.
use hunch.Base.{
  ◌≡◌, ◌≢◌, refl, sym, ap, ◌∙◌, ℕ, List, [], ◌∷◌, ◌++◌, append_assoc, append-nil, Option, none,
  some, Bytes, All, arith, split,
}
use hunch.Normalize.{join}
use hunch.RawStore.{
  non_empty, raw_outer_key, cut_delimiter, split_state, split_outer_key, key_separator,
  key_delimiter,
}

-- No byte is the null byte.
abbrev pub IsNulFree : Bytes → Type 0
IsNulFree = All (λ c. c ≢ 0)

-- A null-free text that is not empty.
abbrev pub IsKeyWord : Bytes → Type 0
IsKeyWord w = (w ≢ []) × IsNulFree w

abbrev prepend : Bytes → Option (Bytes × Bytes) → Option (Bytes × Bytes)
prepend w none = none
prepend w (some (u, v)) = some (w ++ u, v)

prepend-prepend :
    (w u : Bytes) (o : Option (Bytes × Bytes)) → prepend w (prepend u o) ≡ prepend (w ++ u) o
prepend-prepend w u none = refl
prepend-prepend w u (some (x, y)) = ap (λ (t : Bytes). some (t, y)) (sym (append_assoc w u x))

cut_delimiter-byte :
    (c : ℕ) (s : Bytes) → c ≢ 0 → cut_delimiter (c ∷ s) ≡ prepend (c ∷ []) (cut_delimiter s)
unfolding cut_delimiter
cut_delimiter-byte c [] h = refl
cut_delimiter-byte c (d ∷ s) h = ground (arith)

cut_delimiter-separator :
    (d : ℕ) (s : Bytes)
    → d ≢ 0
    → cut_delimiter (0 ∷ d ∷ s) ≡ prepend (0 ∷ []) (cut_delimiter (d ∷ s))
unfolding cut_delimiter
cut_delimiter-separator d s h = ground (arith)

prepend-nil : (o : Option (Bytes × Bytes)) → prepend [] o ≡ o
prepend-nil none = refl
prepend-nil (some (u, v)) = refl

cut_delimiter-append :
    (w s : Bytes) → IsNulFree w → cut_delimiter (w ++ s) ≡ prepend w (cut_delimiter s)
cut_delimiter-append [] s h = sym (prepend-nil (cut_delimiter s))
cut_delimiter-append (c ∷ w) s (hc, h) =
    cut_delimiter-byte c (w ++ s) hc
    ∙ ap (prepend (c ∷ [])) (cut_delimiter-append w s h)
    ∙ prepend-prepend (c ∷ []) w (cut_delimiter s)

join-head :
    (d : ℕ) (v : Bytes) (words : List Bytes)
    → (r : Bytes) × (join ((d ∷ v) ∷ words) key_separator ≡ d ∷ r)
unfolding join
join-head d v [] = (v, refl)
join-head d v (w ∷ words) = (v ++ key_separator ++ join (w ∷ words) key_separator, refl)

cut_delimiter-next :
    {d : ℕ} (u s : Bytes)
    → (r : Bytes) × (u ≡ d ∷ r)
    → d ≢ 0
    → cut_delimiter (0 ∷ (u ++ s)) ≡ prepend (0 ∷ []) (cut_delimiter (u ++ s))
cut_delimiter-next {d} u s (r, e) h = rw e (cut_delimiter-separator d (r ++ s) h)

cut_delimiter-join :
    (words : List Bytes) (template : Bytes)
    → All IsKeyWord words
    → cut_delimiter (join words key_separator ++ 0 ∷ 0 ∷ template)
      ≡ some (join words key_separator, template)
unfolding join cut_delimiter
cut_delimiter-join [] template h = refl
cut_delimiter-join (w ∷ []) template (hw, h) =
    cut_delimiter-append w (0 ∷ 0 ∷ template) hw.1
    ∙ ap (λ (u : Bytes). some (u, template)) (append-nil w)
cut_delimiter-join (w ∷ [] ∷ words) template (hw, (hv, h)) = absurd (hv.0 refl)
cut_delimiter-join (w ∷ (d ∷ v) ∷ words) template (hw, (hv, h)) =
    let rest = join ((d ∷ v) ∷ words) key_separator in
    ap cut_delimiter (
      append_assoc (w ++ key_separator) rest (0 ∷ 0 ∷ template)
      ∙ append_assoc w key_separator (rest ++ 0 ∷ 0 ∷ template))
    ∙ cut_delimiter-append w (0 ∷ (rest ++ 0 ∷ 0 ∷ template)) hw.1
    ∙ ap (prepend w) (cut_delimiter-next rest (0 ∷ 0 ∷ template) (join-head d v words) hv.1.0)
    ∙ ap (λ (o : Option (Bytes × Bytes)). prepend w (prepend (0 ∷ []) o))
        (cut_delimiter-join ((d ∷ v) ∷ words) template (hv, h))
    ∙ ap (λ (u : Bytes). some (u, template)) (sym (append_assoc w key_separator rest))

split-append :
    (w s x : Bytes) (xs : List Bytes)
    → IsNulFree w
    → split 0 s ≡ x ∷ xs
    → split 0 (w ++ s) ≡ (w ++ x) ∷ xs
unfolding split
split-append [] s x xs h e = e
split-append (c ∷ w) s x xs (hc, h) e = let ih = split-append w s x xs h e in ground (arith, ih)

split-join :
    (w : Bytes) (words : List Bytes)
    → All IsKeyWord (w ∷ words)
    → split 0 (join (w ∷ words) key_separator) ≡ w ∷ words
unfolding split join
split-join w [] (hw, h) =
    ap (split 0) (sym (append-nil w))
    ∙ split-append w [] [] [] hw.1 refl
    ∙ ap (λ (u : Bytes). u ∷ []) (append-nil w)
split-join w (v ∷ words) (hw, h) =
    ap (split 0) (append_assoc w key_separator (join (v ∷ words) key_separator))
    ∙ split-append w (0 ∷ join (v ∷ words) key_separator) [] (v ∷ words) hw.1
        (ap (λ (l : List Bytes). [] ∷ l) (split-join v words h))
    ∙ ap (λ (u : Bytes). u ∷ v ∷ words) (append-nil w)

split_state-join :
    (words : List Bytes) → All IsKeyWord words → split_state (join words key_separator) ≡ words
unfolding split_state
split_state-join [] h = unfold join in refl
split_state-join (w ∷ words) (hw, h) =
    nonempty (join (w ∷ words) key_separator) (joined w words hw.0) ∙ split-join w words (hw, h)
  where
    nonempty : (u : Bytes) → u ≢ [] → split_state u ≡ split 0 u
    nonempty [] k = absurd (k refl)
    nonempty (c ∷ u) k = refl

    joined : (w : Bytes) (words : List Bytes) → w ≢ [] → join (w ∷ words) key_separator ≢ []
    joined [] words k = absurd (k refl)
    joined (c ∷ w) words k =
        let (r, e) = join-head c w words in λ (z : join ((c ∷ w) ∷ words) key_separator ≡ []). cc

non_empty-IsKeyWord : (state : List Bytes) → All IsNulFree state → All IsKeyWord (non_empty state)
unfolding non_empty
non_empty-IsKeyWord [] h = tt
non_empty-IsKeyWord ([] ∷ state) (hs, h) = non_empty-IsKeyWord state h
non_empty-IsKeyWord ((c ∷ s) ∷ state) (hs, h) = ((cc, hs), non_empty-IsKeyWord state h)

split_outer_key_cut :
    (key u v : Bytes)
    → cut_delimiter key ≡ some (u, v)
    → split_outer_key key ≡ some (split_state u, v)
unfolding split_outer_key
split_outer_key_cut key u v e = rw (split_outer_key, e)

-- A key is read back as it was written: the state without its empty texts, and the template, if no
-- text of the state has a null byte.
pub split_outer_key-raw_outer_key :
    (state : List Bytes) (template : Bytes)
    → All IsNulFree state
    → split_outer_key (raw_outer_key state template) ≡ some (non_empty state, template)
unfolding split_outer_key raw_outer_key
split_outer_key-raw_outer_key state template h =
    let words = non_empty state in
    let good = non_empty-IsKeyWord state h in
    let cut : cut_delimiter ((join words key_separator ++ key_delimiter) ++ template)
        ≡ some (join words key_separator, template) =
      ap cut_delimiter (append_assoc (join words key_separator) key_delimiter template)
      ∙ cut_delimiter-join words template good in
    split_outer_key_cut ((join words key_separator ++ key_delimiter) ++ template)
      (join words key_separator) template cut
    ∙ ap (λ (l : List Bytes). some (l, template)) (split_state-join words good)
