-- ===== src/RcFile/Restored.antt =====
-- An installation that is removed again.
use hunch.Base.{
  ◌≡◌, refl, sym, ap, ◌∙◌, Bool, true, false, ◌&&◌, List, [], ◌∷◌, ◌++◌, append_assoc, append-nil,
  none, some, Bytes, codes, arith, if◌then◌else◌, split, split-append_separator, starts_with,
  is_ascii_space, All,
}
use hunch.Normalize.{join}
use hunch.Normalize.Joined.{join-split, split-join}
use hunch.Daemon.Paths.{trim_space}
use hunch.RcFile.{
  newline, contains_text, begin_marker, end_marker, is_sourcing, Removal, remove_line, remove_lines,
  untouched, remove_rc_line, block_lines, block, end_line, append_to_rc,
}
use hunch.RcFile.Removed.{IsLine}

-- A line of the user's own: no marker, and no line that sources hunch.
pub record IsOwn (line : Bytes) : Type 0 where
  pub no_begin : contains_text (trim_space line) begin_marker ≡ false
  pub no_end : contains_text (trim_space line) end_marker ≡ false
  pub no_source :
      (contains_text (trim_space line) (codes "hunch") && is_sourcing (trim_space line)) ≡ false

-- A line of the block between its markers.
pub record IsInner (line : Bytes) : Type 0 where
  pub is_line : IsLine line
  pub no_begin : contains_text (trim_space line) begin_marker ≡ false
  pub no_end : contains_text (trim_space line) end_marker ≡ false

remove_lines-append :
    (xs ys : List Bytes) (r : Removal)
    → remove_lines r (xs ++ ys) ≡ remove_lines (remove_lines r xs) ys
unfolding remove_lines
remove_lines-append [] ys r = refl
remove_lines-append (x ∷ xs) ys r = remove_lines-append xs ys (remove_line r x)

remove_line-own :
    (line : Bytes) (kept : List Bytes) (changed : Bool)
    → IsOwn line
    → remove_line (record { lines = kept; changed = changed; in_hunch_block = false }) line
      ≡ record { lines = kept ++ line ∷ []; changed = changed; in_hunch_block = false }
unfolding remove_line
remove_line-own line kept changed h = rw (h.no_begin, h.no_end, h.no_source)

remove_lines-own :
    (lines kept : List Bytes) (changed : Bool)
    → All IsOwn lines
    → remove_lines (record { lines = kept; changed = changed; in_hunch_block = false }) lines
      ≡ record { lines = kept ++ lines; changed = changed; in_hunch_block = false }
unfolding remove_lines
remove_lines-own [] kept changed h = rw (append-nil kept)
remove_lines-own (line ∷ lines) kept changed (hl, h) = rw (remove_line-own line kept changed hl) (
    remove_lines-own lines (kept ++ line ∷ []) changed h ∙ rw (append_assoc kept (line ∷ []) lines))

begin-marked : contains_text (trim_space begin_marker) begin_marker ≡ true
unfolding contains_text trim_space starts_with is_ascii_space
begin-marked = refl

end-marked :
    (contains_text (trim_space end_marker) begin_marker ≡ false)
    × (contains_text (trim_space end_marker) end_marker ≡ true)
unfolding contains_text trim_space starts_with is_ascii_space
end-marked = (refl, refl)

nil-IsOwn : IsOwn []
unfolding contains_text trim_space starts_with is_ascii_space is_sourcing
nil-IsOwn = record { no_begin = refl; no_end = refl; no_source = refl }

abbrev within : List Bytes → Removal
within kept = record { lines = kept; changed = true; in_hunch_block = true }

remove_line-begin :
    (kept : List Bytes)
    → remove_line (record { lines = kept; changed = false; in_hunch_block = false }) begin_marker
      ≡ within kept
unfolding remove_line
remove_line-begin kept = rw begin-marked

remove_line-inner :
    (line : Bytes) (kept : List Bytes) → IsInner line → remove_line (within kept) line ≡ within kept
unfolding remove_line
remove_line-inner line kept h = rw (h.no_begin, h.no_end)

remove_line-end :
    (kept : List Bytes)
    → remove_line (within kept) end_marker
      ≡ record { lines = kept; changed = true; in_hunch_block = false }
unfolding remove_line
remove_line-end kept = rw (end-marked.0, end-marked.1)

-- Nothing of the block is kept.
remove_lines-block :
    (export source : Bytes) (kept : List Bytes)
    → IsInner export
    → IsInner source
    → remove_lines
        (record { lines = kept; changed = false; in_hunch_block = false })
        (begin_marker ∷ export ∷ source ∷ end_marker ∷ [] ∷ [])
      ≡ record { lines = kept ++ [] ∷ []; changed = true; in_hunch_block = false }
unfolding remove_lines
remove_lines-block export source kept he hs = rw (
  remove_line-begin kept,
  remove_line-inner export kept he,
  remove_line-inner source kept hs,
  remove_line-end kept,
  remove_line-own [] kept true nil-IsOwn,
)

begin-IsLine : IsLine begin_marker
begin-IsLine = omega arith

end-IsLine : IsLine end_marker
end-IsLine = omega arith

split-nil : split 10 [] ≡ [] ∷ []
unfolding split
split-nil = refl

-- The lines of an installed file.
split-installed :
    (bin_dir source_line start : Bytes)
    → All IsLine (block_lines bin_dir source_line)
    → split 10 (start ++ newline ++ block bin_dir source_line ++ newline)
      ≡ split 10 start ++ (block_lines bin_dir source_line ++ [] ∷ [])
unfolding block
split-installed bin_dir source_line start h =
    let text = join (block_lines bin_dir source_line) newline in
    ap (split 10)
      (append_assoc (start ++ newline) text newline ∙ append_assoc start newline (text ++ newline))
    ∙ split-append_separator 10 start (text ++ newline)
    ∙ ap (λ (l : List Bytes). split 10 start ++ l)
        (split-append_separator 10 text []
          ∙ ap (λ (l : List Bytes). l ++ split 10 [])
              (split-join 10 begin_marker
                ((codes "export PATH=\"$PATH:" ++ bin_dir ++ codes "\"")
                  ∷ (codes "source " ++ source_line)
                  ∷ end_marker
                  ∷ [])
                h)
          ∙ ap (λ (l : List Bytes). block_lines bin_dir source_line ++ l) split-nil)

-- An installation that is removed again leaves the start-up file as it was, but for an ended last
-- line and one blank line more, if no line of it has a marker or sources hunch, and the paths of
-- the binary and of the integration hold no end of line and no marker.
pub remove_rc_line-append_to_rc :
    (bin_dir source_line content : Bytes)
    → contains_text content source_line ≡ false
    → All IsOwn (split 10 (end_line content))
    → All IsInner (
        (codes "export PATH=\"$PATH:" ++ bin_dir ++ codes "\"")
        ∷ (codes "source " ++ source_line)
        ∷ [])
    → (installed : Bytes) × (append_to_rc bin_dir source_line content ≡ some installed)
      × (remove_rc_line installed ≡ some (end_line content ++ newline))
unfolding append_to_rc remove_rc_line
remove_rc_line-append_to_rc bin_dir source_line content missing own (export, (source, _)) =
    let start = end_line content in
    let lines = block_lines bin_dir source_line in
    let removal =
      ap (remove_lines untouched) (
        split-installed bin_dir source_line start
          (begin-IsLine, (export.is_line, (source.is_line, (end-IsLine, tt)))))
      ∙ remove_lines-append (split 10 start) (lines ++ [] ∷ []) untouched
      ∙ ap (λ (r : Removal). remove_lines r (lines ++ [] ∷ []))
          (remove_lines-own (split 10 start) [] false own)
      ∙ remove_lines-block (codes "export PATH=\"$PATH:" ++ bin_dir ++ codes "\"")
          (codes "source " ++ source_line) (split 10 start) export source in
    (
      start ++ newline ++ block bin_dir source_line ++ newline,
      rw missing,
      ap (λ (r : Removal). if r.changed then some (join r.lines newline) else none) removal
          ∙ ap (λ (l : List Bytes). some (join l newline))
              (ap (λ (l : List Bytes). split 10 start ++ l) (sym split-nil)
                ∙ sym (split-append_separator 10 start []))
          ∙ ap some (join-split 10 (start ++ newline)),
    )
