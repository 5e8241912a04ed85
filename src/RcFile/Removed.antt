-- ===== src/RcFile/Removed.antt =====
-- What is left of a start-up file once the installation is removed.
use hunch.Base.{
  ◌≡◌, ◌≢◌, refl, ap, ◌∙◌, Bool, true, false, not, ◌&&◌, List, [], ◌∷◌, ◌++◌, append_assoc, none,
  some, Bytes, codes, if◌then◌else◌, starts_with, split, split-append_separator, split-one,
  split-parts, subst, and_false, any, All, All-append,
}
use hunch.Normalize.{join}
use hunch.Daemon.Paths.{trim_space}
use hunch.RcFile.{
  is_sourcing, newline, contains_text, begin_marker, end_marker, has_source_prefix, is_source_line,
  has_hunch_source_line, Removal, remove_line, remove_lines, untouched, remove_rc_line,
}

-- A line: no byte ends it.
abbrev pub IsLine : Bytes → Type 0
IsLine = All (λ c. c ≢ 10)

-- A line that does not source hunch.
abbrev IsPlain : Bytes → Type 0
IsPlain line = IsLine line × (is_source_line line ≡ false)

any-split_join :
    (line : Bytes) (lines : List Bytes)
    → All IsPlain (line ∷ lines)
    → any is_source_line (split 10 (join (line ∷ lines) newline)) ≡ false
unfolding join
any-split_join line [] ((hl, plain), h) = rw (split-one 10 line hl, plain)
any-split_join line (other ∷ lines) ((hl, plain), h) =
    ap (λ (text : Bytes). any is_source_line (split 10 text))
      (append_assoc line newline (join (other ∷ lines) newline))
    ∙ ap (any is_source_line) (split-append_separator 10 line (join (other ∷ lines) newline))
    ∙ rw (split-one 10 line hl, plain) (any-split_join other lines h)

remove_line-IsPlain :
    (r : Removal) (line : Bytes)
    → All IsPlain r.lines
    → IsLine line
    → All IsPlain (remove_line r line).lines
unfolding remove_line is_source_line has_source_prefix is_sourcing
remove_line-IsPlain r line h hl =
    by_tests (contains_text (trim_space line) begin_marker)
      (contains_text (trim_space line) end_marker) r.in_hunch_block
      (contains_text (trim_space line) (codes "hunch") && is_sourcing (trim_space line)) refl
  where
    by_tests :
        (begins ends within sources : Bool)
        → (contains_text (trim_space line) (codes "hunch") && is_sourcing (trim_space line))
          ≡ sources
        → All IsPlain (
            (if begins
              then record r { in_hunch_block = true; changed = true }
              else if ends
              then record r { in_hunch_block = false }
              else if within
              then r
              else if sources
              then record r { changed = true }
              else record r { lines = r.lines ++ line ∷ [] }).lines)
    by_tests true ends within sources e = h
    by_tests false true within sources e = h
    by_tests false false true sources e = h
    by_tests false false false true e = h
    by_tests false false false false e = All-append IsPlain r.lines (line ∷ []) h (
      (
        hl,
        ap (λ (b : Bool). not (starts_with (codes "#") (trim_space line)) && b) e
            ∙ and_false (not (starts_with (codes "#") (trim_space line))),
      ),
      tt,
    )

remove_lines-IsPlain :
    (lines : List Bytes) (r : Removal)
    → All IsPlain r.lines
    → All IsLine lines
    → All IsPlain (remove_lines r lines).lines
unfolding remove_lines
remove_lines-IsPlain [] r h hl = h
remove_lines-IsPlain (line ∷ lines) r h (hl, hls) =
    remove_lines-IsPlain lines (remove_line r line) (remove_line-IsPlain r line h hl) hls

join-unsourced :
    (lines : List Bytes) → All IsPlain lines → has_hunch_source_line (join lines newline) ≡ false
unfolding has_hunch_source_line join starts_with split
join-unsourced [] h = refl
join-unsourced (line ∷ lines) h = any-split_join line lines h

-- Whatever the start-up file holds, when the removal writes it the file that it leaves sources
-- hunch nowhere: the diagnosis finds no source line in it.
pub remove_rc_line-unsourced :
    (content left : Bytes) → remove_rc_line content ≡ some left → has_hunch_source_line left ≡ false
unfolding remove_rc_line
remove_rc_line-unsourced content left removed =
    by_change (remove_lines untouched (split 10 content)).changed removed
  where
    lines : List Bytes
    lines = (remove_lines untouched (split 10 content)).lines

    by_change :
        (changed : Bool)
        → (if changed then some (join lines newline) else none) ≡ some left
        → has_hunch_source_line left ≡ false
    by_change true e =
        let same : join lines newline ≡ left = cc in
        subst (λ (text : Bytes). has_hunch_source_line text ≡ false) same
          (join-unsourced lines
            (remove_lines-IsPlain (split 10 content) untouched tt (split-parts 10 content)))
    by_change false e = absurd (cc)
