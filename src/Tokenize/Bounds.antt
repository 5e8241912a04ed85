-- ===== src/Tokenize/Bounds.antt =====
-- Bounds on the scanner's output, for every input, quoted correctly or not.
use hunch.Base.{
  ℕ, ◌+◌, ◌≤◌, ◌≢◌, ◌≡◌, Bool, false, if◌then◌else◌, Bool-cases, inl, inr, List, [], ◌∷◌, ◌++◌,
  Option, none, some, Bytes, All, All-append, arith, length, length-append,
}
use hunch.Tokenize.{Scan, scan, step, flush, push_current, start, tokenize}

abbrev pub total_length : List Bytes → ℕ
total_length [] = 0
total_length (t ∷ ts) = length t + total_length ts

total_length-append :
    (xs ys : List Bytes) → total_length (xs ++ ys) ≡ total_length xs + total_length ys
total_length-append [] ys = omega arith
total_length-append (x ∷ xs) ys = omega (arith, total_length-append xs ys)

-- The bytes that a state holds.
abbrev held : Scan → ℕ
held s = total_length s.tokens + length s.current

abbrev NonEmpty : Bytes → Type 0
NonEmpty t = t ≢ []

push-NonEmpty :
    (ts : List Bytes) (cur : Bytes) → All NonEmpty ts → All NonEmpty (push_current ts cur)
unfolding push_current
push-NonEmpty ts [] h = h
push-NonEmpty ts (c ∷ cur) h = All-append NonEmpty ts _ h (ground arith, tt)

push-total :
    (ts : List Bytes) (cur : Bytes)
    → total_length (push_current ts cur) ≡ total_length ts + length cur
unfolding push_current
push-total ts [] = omega arith
push-total ts (c ∷ cur) = omega (arith, total_length-append ts ((c ∷ cur) ∷ []))

operator-NonEmpty :
    (ts : List Bytes) (cur : Bytes) (c : ℕ) (o : Bytes)
    → All NonEmpty ts
    → All NonEmpty (push_current ts cur ++ (c ∷ o) ∷ [])
operator-NonEmpty ts cur c o h =
    All-append NonEmpty _ ((c ∷ o) ∷ []) (push-NonEmpty ts cur h) (ground arith, tt)

step-NonEmpty :
    (c : ℕ) (p : Option ℕ) (s : Scan) → All NonEmpty s.tokens → All NonEmpty (step c p s).0.tokens
unfolding step flush
step-NonEmpty c p s h = ground (
  arith,
  push-NonEmpty s.tokens s.current h,
  operator-NonEmpty s.tokens s.current b'|' [] h,
  operator-NonEmpty s.tokens s.current b'|' (b'|' ∷ []) h,
  operator-NonEmpty s.tokens s.current b'&' (b'&' ∷ []) h,
  operator-NonEmpty s.tokens s.current b';' [] h,
)

-- What one step may add: a byte for each byte read.
abbrev consumed : Bool → ℕ
consumed skip = if skip then 2 else 1

step-held :
    (c : ℕ) (p : Option ℕ) (s : Scan) → held (step c p s).0 ≤ held s + consumed (step c p s).1
unfolding step flush
step-held c p s =
    let pushed = push_current s.tokens s.current in
    ground (
      arith,
      push-total s.tokens s.current,
      length-append s.current (c ∷ []),
      total_length-append pushed ((b'|' ∷ []) ∷ []),
      total_length-append pushed ((b'|' ∷ b'|' ∷ []) ∷ []),
      total_length-append pushed ((b'&' ∷ b'&' ∷ []) ∷ []),
      total_length-append pushed ((b';' ∷ []) ∷ []),
    )

-- At the end of the input there is nothing to look ahead to.
step_at_end : (c : ℕ) (s : Scan) → (step c none s).1 ≡ false
unfolding step
step_at_end c s = ground arith

scan-NonEmpty : (raw : Bytes) (s : Scan) → All NonEmpty s.tokens → All NonEmpty (scan raw s).tokens
unfolding scan
scan-NonEmpty [] s h = h
scan-NonEmpty (c ∷ []) s h = step-NonEmpty c none s h
scan-NonEmpty (c ∷ d ∷ rest) s h =
    let h' = step-NonEmpty c (some d) s h in
    elim (Bool-cases (step c (some d) s).1) [
      | inl two ↦ rw two (scan-NonEmpty rest (step c (some d) s).0 h')
      | inr one ↦ rw one (scan-NonEmpty (d ∷ rest) (step c (some d) s).0 h')
    ]

scan-held : (raw : Bytes) (s : Scan) → held (scan raw s) ≤ held s + length raw
unfolding scan
scan-held [] s = omega arith
scan-held (c ∷ []) s = ground (arith, step-held c none s, step_at_end c s)
scan-held (c ∷ d ∷ rest) s =
    let bound = step-held c (some d) s in
    elim (Bool-cases (step c (some d) s).1) [
      | inl two ↦ rw two (omega (arith, scan-held rest (step c (some d) s).0, rw two at bound))
      | inr one ↦
          rw one (omega (arith, scan-held (d ∷ rest) (step c (some d) s).0, rw one at bound))
    ]

-- No token is empty, whatever the input.
pub tokenize-NonEmpty : (raw : Bytes) → All (λ t. t ≢ []) (tokenize raw)
unfolding tokenize flush
tokenize-NonEmpty raw = push-NonEmpty _ _ (scan-NonEmpty raw start tt)

-- No token is empty, and the tokens together hold at most as many bytes as the input, whatever
-- the input.
pub tokenize_bounds :
    (raw : Bytes) → All (λ t. t ≢ []) (tokenize raw) × (total_length (tokenize raw) ≤ length raw)
unfolding tokenize flush
tokenize_bounds raw = (
  tokenize-NonEmpty raw,
  omega (arith, scan-held raw start, push-total (scan raw start).tokens (scan raw start).current),
)
