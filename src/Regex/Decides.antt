-- ===== src/Regex/Decides.antt =====
-- The matcher decides the language.
use hunch.Base.{
  ℕ, ◌≡◌, refl, sym, ap, ◌∙◌, ◌↔◌, ◌⊎◌, inl, inr, Bool, true, false≢true, [], ◌∷◌, ◌++◌, Bytes,
  Bool-cases, arith, and-eq_true,
}
use hunch.Regex.{
  Regex, never, empty, one, seq, alt, star, Matches, empty_text, one_byte, in_sequence, left, right,
  stop, more, join_seq, join_alt, nullable, derivative, match_string,
}

append-eq-nil : (u v : Bytes) → [] ≡ u ++ v → ([] ≡ u) × ([] ≡ v)
append-eq-nil [] v e = (refl, e)
append-eq-nil (x ∷ u) v e = cc

nullable_sound : (r : Regex) → nullable r ≡ true → Matches r []
unfolding nullable
nullable_sound never h = absurd (false≢true h)
nullable_sound empty h = empty_text refl
nullable_sound (one p) h = absurd (false≢true h)
nullable_sound (seq a b) h =
    let (ha, hb) = and-eq_true (nullable a) (nullable b) h in
    in_sequence [] [] (nullable_sound a ha) (nullable_sound b hb) refl
nullable_sound (alt a b) h = elim (Bool-cases (nullable a)) [
  | inl ha ↦ left (nullable_sound a ha)
  | inr na ↦ right (nullable_sound b (rw na at h))
]
nullable_sound (star a) h = stop refl

nullable_complete : {r : Regex} {s : Bytes} → Matches r s → [] ≡ s → nullable r ≡ true
unfolding nullable
nullable_complete (empty_text e) h = refl
nullable_complete (one_byte c p e) h = absurd (cc)
nullable_complete (in_sequence u v ma mb e) h =
    let (eu, ev) = append-eq-nil u v (h ∙ e) in
    ground (arith, nullable_complete ma eu, nullable_complete mb ev)
nullable_complete (left m) h = ground (arith, nullable_complete m h)
nullable_complete (right m) h = ground (arith, nullable_complete m h)
nullable_complete (stop e) h = refl
nullable_complete (more u v ma ms e) h = refl

-- Inversion, over a variable index.
abbrev pub SeqParts : Regex → Regex → Bytes → Type 0
SeqParts a b s = (u : Bytes) × (v : Bytes) × Matches a u × Matches b v × (s ≡ u ++ v)

pub seq_parts : {a b : Regex} {s : Bytes} → Matches (seq a b) s → SeqParts a b s
seq_parts (in_sequence u v ma mb e) = (u, v, ma, mb, e)

pub never-Matches : {s : Bytes} → Matches never s → ⊥
never-Matches m = elim m [ ]

pub empty_parts : {s : Bytes} → Matches empty s → s ≡ []
empty_parts (empty_text e) = e

module _ {s : Bytes} where
  join_seq-from : (a b : Regex) → Matches (join_seq a b) s → Matches (seq a b) s
  unfolding join_seq
  join_seq-from never b m = absurd (never-Matches m)
  join_seq-from empty b m = in_sequence [] s (empty_text refl) m refl
  join_seq-from _ b m = m

  join_seq-to : (a b : Regex) → Matches (seq a b) s → Matches (join_seq a b) s
  unfolding join_seq
  join_seq-to never b m = let (u, v, ma, mb, e) = seq_parts m in absurd (never-Matches ma)
  join_seq-to empty b m =
      let (u, v, ma, mb, e) = seq_parts m in
      let at_end : s ≡ v = e ∙ ap (λ (w : Bytes). w ++ v) (empty_parts ma) in rw at_end mb
  join_seq-to _ b m = m

  pub alt_parts : {a b : Regex} → Matches (alt a b) s → Matches a s ⊎ Matches b s
  alt_parts (left m) = inl m
  alt_parts (right m) = inr m

  join_alt-from : (a b : Regex) → Matches (join_alt a b) s → Matches (alt a b) s
  unfolding join_alt
  join_alt-from never b m = right m
  join_alt-from _ never m = left m
  join_alt-from _ _ m = m

  join_alt-to : (a b : Regex) → Matches (alt a b) s → Matches (join_alt a b) s
  unfolding join_alt
  join_alt-to never b m = elim (alt_parts m) [ inl l ↦ absurd (never-Matches l) | inr r ↦ r ]
  join_alt-to _ never m = elim (alt_parts m) [ inl l ↦ l | inr r ↦ absurd (never-Matches r) ]
  join_alt-to _ _ m = m

pub one_parts :
    {p : ℕ → Bool} {s : Bytes} → Matches (one p) s → (c : ℕ) × (p c ≡ true) × (s ≡ c ∷ [])
one_parts (one_byte c h e) = (c, h, e)

derivative_sound : (c : ℕ) (r : Regex) (s : Bytes) → Matches (derivative c r) s → Matches r (c ∷ s)
unfolding derivative
derivative_sound c never s m = absurd (never-Matches m)
derivative_sound c empty s m = absurd (never-Matches m)
derivative_sound c (one p) s m = elim (Bool-cases (p c)) [
  | inl h ↦ one_byte c h (ap (λ (t : Bytes). c ∷ t) (empty_parts (rw h at m)))
  | inr h ↦ absurd (never-Matches (rw h at m))
]
derivative_sound c (seq a b) s m =
    let inside : Matches (join_seq (derivative c a) b) s → Matches (seq a b) (c ∷ s) = λ k.
      let (u, v, ma, mb, e) = seq_parts (join_seq-from (derivative c a) b k) in
      in_sequence (c ∷ u) v (derivative_sound c a u ma) mb (ap (λ (t : Bytes). c ∷ t) e) in
    let through : nullable a ≡ true → Matches (derivative c b) s → Matches (seq a b) (c ∷ s) =
      λ n k. in_sequence [] (c ∷ s) (nullable_sound a n) (derivative_sound c b s k) refl in
    elim (Bool-cases (nullable a)) [
      | inl n ↦ elim (alt_parts (join_alt-from _ _ (rw n at m))) [
        | inl k ↦ inside k
        | inr k ↦ through n k
      ]
      | inr n ↦ inside (rw n at m)
    ]
derivative_sound c (alt a b) s m = elim (alt_parts (join_alt-from _ _ m)) [
  | inl k ↦ left (derivative_sound c a s k)
  | inr k ↦ right (derivative_sound c b s k)
]
derivative_sound c (star a) s m =
    let (u, v, ma, mb, e) = seq_parts (join_seq-from (derivative c a) (star a) m) in
    more (c ∷ u) v (derivative_sound c a u ma) mb (ap (λ (t : Bytes). c ∷ t) e)

-- The two ways in which a sequence can hold a first byte.
data Split (c : ℕ) (s u v : Bytes) : Type 0 where
  before : (u' : Bytes) → u ≡ c ∷ u' → s ≡ u' ++ v → Split c s u v
  behind : u ≡ [] → v ≡ c ∷ s → Split c s u v

split : (c : ℕ) (s u v : Bytes) → c ∷ s ≡ u ++ v → Split c s u v
split c s [] v e = behind refl (sym e)
split c s (x ∷ u) v e = before u (cc) (cc)

seq-inside :
    (c : ℕ) (a b : Regex) {s : Bytes} (u v : Bytes)
    → Matches (derivative c a) u
    → Matches b v
    → s ≡ u ++ v
    → Matches (derivative c (seq a b)) s
unfolding derivative
seq-inside c a b u v ma mb e =
    let k = join_seq-to (derivative c a) b (in_sequence u v ma mb e) in
    elim (Bool-cases (nullable a)) [ inl n ↦ rw n (join_alt-to _ _ (left k)) | inr n ↦ rw n k ]

seq-through :
    (c : ℕ) (a b : Regex) {s : Bytes}
    → nullable a ≡ true
    → Matches (derivative c b) s
    → Matches (derivative c (seq a b)) s
unfolding derivative
seq-through c a b n m = rw n (join_alt-to _ _ (right m))

derivative_complete :
    (c : ℕ) (s : Bytes) {r : Regex} {t : Bytes}
    → Matches r t
    → t ≡ c ∷ s
    → Matches (derivative c r) s
unfolding derivative
derivative_complete c s (empty_text e) h = absurd (cc)
derivative_complete c s (one_byte {p = p} d pd e) h =
    let same : d ≡ c = cc in let here : p c ≡ true = rw (sym same) pd in rw here (empty_text (cc))
derivative_complete c s (in_sequence {a = a} {b = b} u v ma mb e) h =
    elim (split c s u v (sym h ∙ e)) [
      | before u' eu es ↦ seq-inside c a b u' v (derivative_complete c u' ma eu) mb es
      | behind eu ev ↦
          seq-through c a b (nullable_complete ma (sym eu)) (derivative_complete c s mb ev)
    ]
derivative_complete c s (left m) h = join_alt-to _ _ (left (derivative_complete c s m h))
derivative_complete c s (right m) h = join_alt-to _ _ (right (derivative_complete c s m h))
derivative_complete c s (stop e) h = absurd (cc)
derivative_complete c s (more {a = a} u v ma ms e) h = elim (split c s u v (sym h ∙ e)) [
  | before u' eu es ↦
      join_seq-to (derivative c a) (star a)
        (in_sequence u' v (derivative_complete c u' ma eu) ms es)
  | behind eu ev ↦ derivative_complete c s ms ev
]

match_string_sound : (r : Regex) (s : Bytes) → match_string r s ≡ true → Matches r s
unfolding match_string
match_string_sound r [] h = nullable_sound r h
match_string_sound r (c ∷ s) h = derivative_sound c r s (match_string_sound (derivative c r) s h)

match_string_complete : (s : Bytes) {r : Regex} → Matches r s → match_string r s ≡ true
unfolding match_string
match_string_complete [] m = nullable_complete m refl
match_string_complete (c ∷ s) m = match_string_complete s (derivative_complete c s m refl)

-- The matcher accepts exactly the language of its expression.
pub match_string_iff : (r : Regex) (s : Bytes) → (match_string r s ≡ true) ↔ Matches r s
match_string_iff r s = (match_string_sound r s, match_string_complete s)
