-- ===== src/Tokenize/Quoting.antt =====
-- The scanner reads back every line of the grammar.
use hunch.Base.{
  ℕ, ◌≢◌, ◌≡◌, refl, sym, ap, not, Bool, true, false, List, [], ◌∷◌, ◌++◌, append_assoc, append-nil,
  some, Bytes, All, arith, head?,
}
use hunch.Tokenize.{Scan, scan, step, flush, push_current, tokenize}
use hunch.Tokenize.Grammar.{
  IsBare, IsBlank, Inner, raw, escape, spell_inner, inner_value, Piece, bare, amp, backslash,
  single, double, spell_piece, piece_value, Operator, pipe, or_else, and_then, semicolon,
  spell_operator, Item, piece, blank, operator, spell, word_of, tokens_of, IsUnambiguous,
}

abbrev plain : List Bytes → Bytes → Scan
plain ts cur = record {
  tokens = ts;
  current = cur;
  in_single = false;
  in_double = false;
  escaped = false;
}

abbrev in_quotes : Bool → Bool → List Bytes → Bytes → Scan
in_quotes s d ts cur = record {
  tokens = ts;
  current = cur;
  in_single = s;
  in_double = d;
  escaped = false;
}

-- One step that consumes one byte.
scan-cons :
    (c : ℕ) (rest : Bytes) (s t : Scan)
    → step c (head? rest) s ≡ (t, false)
    → scan (c ∷ rest) s ≡ scan rest t
unfolding scan
scan-cons c [] s t h = ap (λ (r : Scan × Bool). r.0) h
scan-cons c (d ∷ rest) s t h = rw (h, scan)

-- One step that consumes two.
scan_two :
    (c d : ℕ) (rest : Bytes) (s t : Scan)
    → step c (some d) s ≡ (t, true)
    → scan (c ∷ d ∷ rest) s ≡ scan rest t
unfolding scan
scan_two c d rest s t h = rw (h, scan)

module _ (rest : Bytes) (ts : List Bytes) (cur : Bytes) where
  scan-bare :
      (c : ℕ) → IsBare c → scan (c ∷ rest) (plain ts cur) ≡ scan rest (plain ts (cur ++ c ∷ []))
  scan-bare c h = scan-cons c rest _ _ (unfold step in ground arith)

  scan-escape :
      (c : ℕ) (q d : Bool)
      → scan
          (c ∷ rest)
          (record { tokens = ts; current = cur; in_single = q; in_double = d; escaped = true })
        ≡ scan rest (in_quotes q d ts (cur ++ c ∷ []))
  scan-escape c q d = scan-cons c rest _ _ (unfold step in refl)

  scan-backslash :
      (d : Bool)
      → scan (b'\\' ∷ rest) (in_quotes false d ts cur)
        ≡ scan rest (record {
          tokens = ts;
          current = cur;
          in_single = false;
          in_double = d;
          escaped = true;
        })
  scan-backslash d = scan-cons _ rest _ _ (unfold step in refl)

  scan_single_quote :
      (q : Bool)
      → scan (b'\'' ∷ rest) (in_quotes q false ts cur) ≡ scan rest (in_quotes (not q) false ts cur)
  scan_single_quote true = scan-cons _ rest _ _ (unfold step in refl)
  scan_single_quote false = scan-cons _ rest _ _ (unfold step in refl)

  scan_double_quote :
      (d : Bool)
      → scan (b'"' ∷ rest) (in_quotes false d ts cur) ≡ scan rest (in_quotes false (not d) ts cur)
  scan_double_quote d = scan-cons _ rest _ _ (unfold step in refl)

  scan_in_single :
      (c : ℕ)
      → c ≢ b'\''
      → scan (c ∷ rest) (in_quotes true false ts cur)
        ≡ scan rest (in_quotes true false ts (cur ++ c ∷ []))
  scan_in_single c h = scan-cons c rest _ _ (unfold step in ground arith)

  scan_in_double :
      (c : ℕ)
      → c ≢ b'\\'
      → c ≢ b'"'
      → scan (c ∷ rest) (in_quotes false true ts cur)
        ≡ scan rest (in_quotes false true ts (cur ++ c ∷ []))
  scan_in_double c h k = scan-cons c rest _ _ (unfold step in ground arith)

  scan-blank :
      (c : ℕ)
      → IsBlank c
      → scan (c ∷ rest) (plain ts cur) ≡ scan rest (plain (push_current ts cur) [])
  scan-blank c h = scan-cons c rest _ _ (unfold step in ground arith)

  scan-amp :
      (c : ℕ)
      → IsBare c
      → scan (b'&' ∷ c ∷ rest) (plain ts cur) ≡ scan (c ∷ rest) (plain ts (cur ++ b'&' ∷ []))
  scan-amp c h = scan-cons b'&' (c ∷ rest) _ _ (unfold step in ground arith)

push_current-word_of : (ts : List Bytes) (cur : Bytes) → push_current ts cur ≡ ts ++ word_of cur
unfolding push_current
push_current-word_of ts [] = sym (append-nil ts)
push_current-word_of ts (c ∷ cur) = refl

module _ (rest : Bytes) where
  scan_single_body :
      (s : Bytes) (ts : List Bytes) (cur : Bytes)
      → All (λ c. c ≢ b'\'') s
      → scan (s ++ b'\'' ∷ rest) (in_quotes true false ts cur) ≡ scan rest (plain ts (cur ++ s))
  scan_single_body [] ts cur h = rw append-nil (scan_single_quote rest ts cur true)
  scan_single_body (c ∷ s) ts cur (hc, hs) =
      rw (scan_in_single (s ++ b'\'' ∷ rest) ts cur c hc)
        (rw (scan_single_body s ts (cur ++ c ∷ []) hs, append_assoc))

  scan_double_body :
      (ds : List Inner) (ts : List Bytes) (cur : Bytes)
      → scan (spell_inner ds ++ b'"' ∷ rest) (in_quotes false true ts cur)
        ≡ scan rest (plain ts (cur ++ inner_value ds))
  scan_double_body [] ts cur = rw append-nil (scan_double_quote rest ts cur true)
  scan_double_body (raw c h k ∷ ds) ts cur =
      rw (scan_in_double (spell_inner ds ++ b'"' ∷ rest) ts cur c h k)
        (rw (scan_double_body ds ts (cur ++ c ∷ []), append_assoc))
  scan_double_body (escape c ∷ ds) ts cur =
      let more = spell_inner ds ++ b'"' ∷ rest in
      rw (scan-backslash (c ∷ more) ts cur true, scan-escape more ts cur c false true)
        (rw (scan_double_body ds ts (cur ++ c ∷ []), append_assoc))

  scan-piece :
      (p : Piece) (ts : List Bytes) (cur : Bytes)
      → scan (spell_piece p ++ rest) (plain ts cur) ≡ scan rest (plain ts (cur ++ piece_value p))
  scan-piece (bare c h) ts cur = scan-bare rest ts cur c h
  scan-piece (amp c h) ts cur =
      rw (scan-amp rest ts cur c h, scan-bare rest ts (cur ++ b'&' ∷ []) c h, append_assoc)
  scan-piece (backslash c) ts cur =
      rw (scan-backslash (c ∷ rest) ts cur false, scan-escape rest ts cur c false false)
  scan-piece (single s h) ts cur =
      rw (scan_single_quote ((s ++ b'\'' ∷ []) ++ rest) ts cur false, append_assoc)
        (scan_single_body s ts cur h)
  scan-piece (double ds) ts cur =
      rw (scan_double_quote ((spell_inner ds ++ b'"' ∷ []) ++ rest) ts cur false, append_assoc)
        (scan_double_body ds ts cur)

-- The pipe looks ahead: it must not be followed by another.
abbrev OperatorFits : Operator → Bytes → Type 0
OperatorFits pipe rest = head? rest ≢ some b'|'
OperatorFits _ rest = Unit

scan-operator :
    (o : Operator) (rest : Bytes) (ts : List Bytes) (cur : Bytes)
    → OperatorFits o rest
    → scan (spell_operator o ++ rest) (plain ts cur)
      ≡ scan rest (plain (push_current ts cur ++ spell_operator o ∷ []) [])
scan-operator pipe [] ts cur h = scan-cons b'|' [] _ _ (unfold step in refl)
scan-operator pipe (d ∷ rest) ts cur h =
    scan-cons b'|' (d ∷ rest) _ _ (unfold step in ground (arith, λ (e : d ≡ b'|'). h (ap some e)))
scan-operator or_else rest ts cur h = scan_two b'|' b'|' rest _ _ (unfold step in refl)
scan-operator and_then rest ts cur h = scan_two b'&' b'&' rest _ _ (unfold step in refl)
scan-operator semicolon rest ts cur h = scan-cons b';' rest _ _ (unfold step in refl)

-- After a pipe that the grammar allows, the spelling does not begin with a pipe.
fits_of_unambiguous :
    (o : Operator) (xs : List Item) → IsUnambiguous (operator o ∷ xs) → OperatorFits o (spell xs)
fits_of_unambiguous pipe [] h = cc
fits_of_unambiguous pipe (piece (bare c k) ∷ xs) h = λ e. ground arith
fits_of_unambiguous pipe (piece (amp c k) ∷ xs) h = λ e. ground arith
fits_of_unambiguous pipe (piece (backslash c) ∷ xs) h = λ e. ground arith
fits_of_unambiguous pipe (piece (single s k) ∷ xs) h = λ e. ground arith
fits_of_unambiguous pipe (piece (double ds) ∷ xs) h = λ e. ground arith
fits_of_unambiguous pipe (blank c k ∷ xs) h = λ e. ground arith
fits_of_unambiguous pipe (operator pipe ∷ xs) h = absurd h.0
fits_of_unambiguous pipe (operator or_else ∷ xs) h = absurd h.0
fits_of_unambiguous pipe (operator and_then ∷ xs) h = λ e. ground arith
fits_of_unambiguous pipe (operator semicolon ∷ xs) h = λ e. ground arith
fits_of_unambiguous or_else xs h = tt
fits_of_unambiguous and_then xs h = tt
fits_of_unambiguous semicolon xs h = tt

IsUnambiguous-tail : (x : Item) (xs : List Item) → IsUnambiguous (x ∷ xs) → IsUnambiguous xs
IsUnambiguous-tail (operator pipe) xs h = h.1
IsUnambiguous-tail (operator or_else) xs h = h
IsUnambiguous-tail (operator and_then) xs h = h
IsUnambiguous-tail (operator semicolon) xs h = h
IsUnambiguous-tail (piece p) xs h = h
IsUnambiguous-tail (blank c k) xs h = h

scan-spell :
    (xs : List Item) (ts : List Bytes) (cur : Bytes)
    → IsUnambiguous xs
    → (flush (scan (spell xs) (plain ts cur))).tokens ≡ ts ++ tokens_of cur xs
scan-spell [] ts cur h = unfold scan flush in push_current-word_of ts cur
scan-spell (piece p ∷ xs) ts cur h =
    rw (scan-piece (spell xs) p ts cur) (scan-spell xs ts (cur ++ piece_value p) h)
scan-spell (blank c k ∷ xs) ts cur h =
    rw (scan-blank (spell xs) ts cur c k)
      (rw (scan-spell xs (push_current ts cur) [] h, push_current-word_of, append_assoc))
scan-spell (operator o ∷ xs) ts cur h =
    rw (scan-operator o (spell xs) ts cur (fits_of_unambiguous o xs h)) (
      rw (
        scan-spell xs (push_current ts cur ++ spell_operator o ∷ []) []
            (IsUnambiguous-tail (operator o) xs h),
        push_current-word_of,
        append_assoc,
        append_assoc,
      ))

-- Tokenize reads every command line of the grammar: bare text, backslash escapes, both kinds of
-- quotes and single ampersands are joined into words with the quotes removed, blanks separate
-- words, empty words are dropped, and the operators are tokens of their own with or without
-- blanks around them. The one condition is that no pipe directly follows a pipe.
pub tokenize-spell : (xs : List Item) → IsUnambiguous xs → tokenize (spell xs) ≡ tokens_of [] xs
unfolding tokenize
tokenize-spell xs h = scan-spell xs [] [] h
