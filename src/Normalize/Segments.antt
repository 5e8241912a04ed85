-- ===== src/Normalize/Segments.antt =====
-- Segments are normalized independently of one another.
use hunch.Base.{
  ◌≡◌, refl, sym, ap, ◌∙◌, inl, inr, true, Bool-cases, List, [], ◌∷◌, ◌++◌, append_assoc,
  append-nil, Bytes,
}
use hunch.Normalize.{is_operator, push_segment, segment_loop, segments_of}

module _ (parents : List Bytes) where
  push-append :
      (segs segs' cur : List Bytes)
      → push_segment parents (segs ++ segs') cur ≡ segs ++ push_segment parents segs' cur
  unfolding push_segment
  push-append segs segs' [] = refl
  push-append segs segs' (t ∷ ts) = append_assoc segs segs' _

  -- The segments so far are only added to.
  loop-append :
      (ts segs segs' cur : List Bytes)
      → segment_loop parents ts (segs ++ segs') cur ≡ segs ++ segment_loop parents ts segs' cur
  unfolding segment_loop
  loop-append [] segs segs' cur = push-append segs segs' cur
  loop-append (t ∷ ts) segs segs' cur = elim (Bool-cases (is_operator t)) [
    | inl e ↦ rw (e, push-append segs segs' cur, append_assoc) (loop-append ts segs _ [])
    | inr e ↦ rw e (loop-append ts segs segs' (cur ++ t ∷ []))
  ]

  loop-operator :
      (xs : List Bytes) (op : Bytes) (ys segs cur : List Bytes)
      → is_operator op ≡ true
      → segment_loop parents (xs ++ op ∷ ys) segs cur
        ≡ segment_loop parents xs segs cur ++ op ∷ segment_loop parents ys [] []
  unfolding segment_loop
  loop-operator [] op ys segs cur h = rw h (
      ap (λ (l : List Bytes). segment_loop parents ys l []) (sym (append-nil _))
      ∙ loop-append ys (push_segment parents segs cur ++ op ∷ []) [] []
      ∙ append_assoc (push_segment parents segs cur) (op ∷ []) _)
  loop-operator (x ∷ xs) op ys segs cur h = elim (Bool-cases (is_operator x)) [
    | inl e ↦ rw e (loop-operator xs op ys _ [] h)
    | inr e ↦ rw e (loop-operator xs op ys segs (cur ++ x ∷ []) h)
  ]

-- An operator splits a command: the template's parts are those of the tokens before it, the
-- operator itself, and those of the tokens behind it.
pub segments_of-operator :
    (parents xs : List Bytes) (op : Bytes) (ys : List Bytes)
    → is_operator op ≡ true
    → segments_of (xs ++ op ∷ ys) parents ≡ segments_of xs parents ++ op ∷ segments_of ys parents
unfolding segments_of
segments_of-operator parents xs op ys h = loop-operator parents xs op ys [] [] h
