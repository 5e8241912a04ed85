-- ===== src/Normalize/Private.antt =====
-- No concrete value of a command is in its template, whatever the command.
use hunch.Base.{
  ◌≡◌, ◌≢◌, refl, sym, ap, ◌∙◌, ◌⊎◌, inl, inr, true, false, Bool-cases, List, [], ◌∷◌, ◌++◌,
  append_assoc, Option, Bytes, All, All-append,
}
use mathlib.Core.List.{cons-ne-nil}
use hunch.Tokenize.{tokenize}
use hunch.Unwrap.{unwrap_prefix_tokens}
use hunch.Unwrap.Suffix.{unwrap_suffix, EndsWith}
use hunch.Classify.{classify_tokens}
use hunch.Classify.Privacy.{IsSafe, classify_tokens-IsSafe}
use hunch.Normalize.{
  join, blank, is_operator, normalize_one, push_segment, segment_loop, segments_of,
  normalize_tokens, parents_or_default, normalize,
}

-- A cut of the tokens: nothing is left, or an operator stands there.
abbrev pub EndsCut : List Bytes → Type 0
EndsCut front =
    (front ≡ [])
    ⊎ ((before : List Bytes) × (o : Bytes) × (is_operator o ≡ true) × (front ≡ before ++ o ∷ []))

abbrev pub StartsCut : List Bytes → Type 0
StartsCut [] = Unit
StartsCut (o ∷ back) = is_operator o ≡ true

-- A part of a template that comes from a segment of the tokens, which reaches from one operator to
-- the next: the first token that unwrapping leaves of the segment, with safe words behind it.
pub record Template (parents tokens : List Bytes) (part : Bytes) : Type 0 where
  pub front : List Bytes
  pub segment : List Bytes
  pub back : List Bytes
  pub first : Bytes
  pub rest : List Bytes
  pub words : List Bytes
  pub place : tokens ≡ front ++ (segment ++ back)
  pub starts : EndsCut front
  pub no_operator : All (λ t. is_operator t ≡ false) segment
  pub ends : StartsCut back
  pub unwrapped : unwrap_prefix_tokens segment ≡ first ∷ rest
  pub text : part ≡ join (first ∷ words) blank
  pub safe : All (IsSafe parents first rest) words

abbrev pub SafePart : List Bytes → List Bytes → Bytes → Type 0
SafePart parents tokens part = (is_operator part ≡ true) ⊎ Template parents tokens part

kept_suffix :
    (cur : List Bytes)
    → cur ≢ []
    → EndsWith cur (unwrap_prefix_tokens cur) × (unwrap_prefix_tokens cur ≢ [])
kept_suffix [] h = absurd (h refl)
kept_suffix (t ∷ ts) h = unwrap_suffix t ts

module _ (parents tokens : List Bytes) where
  normalize_one-Template :
      (before cur after : List Bytes)
      → cur ≢ []
      → EndsCut before
      → All (λ t. is_operator t ≡ false) cur
      → StartsCut after
      → tokens ≡ before ++ (cur ++ after)
      → Template parents tokens (normalize_one cur parents)
  unfolding normalize_one
  normalize_one-Template before cur after h starts plain ends e = go (unwrap_prefix_tokens cur) refl
    where
      go :
          (l : List Bytes)
          → unwrap_prefix_tokens cur ≡ l
          → Template parents tokens
              (join (classify_tokens (unwrap_prefix_tokens cur) parents) blank)
      go [] u = absurd ((kept_suffix cur h).1 u)
      go (first ∷ rest) u =
          let (words, shown, safe) = classify_tokens-IsSafe parents first rest in
          record {
            front = before;
            segment = cur;
            back = after;
            first = first;
            rest = rest;
            words = words;
            place = e;
            starts = starts;
            no_operator = plain;
            ends = ends;
            unwrapped = u;
            text =
                ap (λ (l : List Bytes). join (classify_tokens l parents) blank) u
                ∙ ap (λ (l : List Bytes). join l blank) shown;
            safe = safe;
          }

  push-safe :
      (segs before cur after : List Bytes)
      → All (SafePart parents tokens) segs
      → EndsCut before
      → All (λ t. is_operator t ≡ false) cur
      → StartsCut after
      → tokens ≡ before ++ (cur ++ after)
      → All (SafePart parents tokens) (push_segment parents segs cur)
  unfolding push_segment
  push-safe segs before [] after h starts plain ends e = h
  push-safe segs before (c ∷ cur) after h starts plain ends e =
      All-append (SafePart parents tokens) segs _ h (
        inr (normalize_one-Template before (c ∷ cur) after (cons-ne-nil c cur) starts plain ends e),
        tt,
      )

  loop-safe :
      (ts segs before cur : List Bytes)
      → All (SafePart parents tokens) segs
      → EndsCut before
      → All (λ t. is_operator t ≡ false) cur
      → tokens ≡ before ++ (cur ++ ts)
      → All (SafePart parents tokens) (segment_loop parents ts segs cur)
  unfolding segment_loop
  loop-safe [] segs before cur h starts plain e = push-safe segs before cur [] h starts plain tt e
  loop-safe (t ∷ ts) segs before cur h starts plain e = elim (Bool-cases (is_operator t)) [
    | inl o ↦ rw o (
        loop-safe ts _ (before ++ (cur ++ t ∷ [])) []
          (All-append (SafePart parents tokens) _ (t ∷ [])
            (push-safe segs before cur (t ∷ ts) h starts plain o e) (inl o, tt))
          (inr (before ++ cur, t, o, simp append_assoc)) tt (e ∙ simp append_assoc))
    | inr o ↦ rw o (
        loop-safe ts segs before (cur ++ t ∷ []) h starts
          (All-append (λ u. is_operator u ≡ false) cur (t ∷ []) plain (o, tt))
          (e ∙ simp append_assoc))
  ]

join-no_tokens : (parents : List Bytes) → join (segments_of [] parents) blank ≡ []
unfolding segments_of segment_loop push_segment
join-no_tokens parents = unfold join in refl

-- The template of any command is its parts joined by blanks. Each part is an operator, or comes from
-- a segment between two operators: it is the first token that unwrapping leaves of the segment, with
-- safe words behind it, that is, placeholders, and for a known parent the token behind its name. No
-- other text of the command shows.
pub normalize-private :
    (raw : Bytes) (parents : Option (List Bytes))
    → (parts : List Bytes) × (normalize raw parents ≡ join parts blank)
      × All (SafePart (parents_or_default parents) (tokenize raw)) parts
unfolding normalize
normalize-private raw parents =
    let ps = parents_or_default parents in
    (
      segments_of (tokenize raw) ps,
      by_tokens (tokenize raw) ps,
      unfold segments_of in
          loop-safe ps (tokenize raw) (tokenize raw) [] [] [] tt (inl refl) tt refl,
    )
  where
    by_tokens : (ts ps : List Bytes) → normalize_tokens ts ps ≡ join (segments_of ts ps) blank
    by_tokens [] ps = sym (join-no_tokens ps)
    by_tokens (t ∷ ts) ps = refl
