-- ===== src/History/Lines.antt =====
-- The lines of a zsh history, and the commands that they hold.
use hunch.Base.{
  ℕ, ◌<◌, ◌≡◌, ◌≢◌, refl, ap, false, List, [], ◌∷◌, ◌++◌, none, some, length, leb, Bytes, arith,
  ==_iff, bytes_eq-of_ne, All, map,
}
use hunch.History.{
  after_byte, or_no_text, behind_meta, strip_zsh_meta, parse_zsh_history, max_history_line, prepend,
  split_lines, drop_cr, scan_lines, read_commands,
}

-- `: <start>:<elapsed>;<command>`
abbrev pub history_line : Bytes → Bytes → Bytes → Bytes
history_line start elapsed cmd = b':' ∷ (start ++ b':' ∷ (elapsed ++ b';' ∷ cmd))

pub record HistoryEntry : Type 0 where
  pub start : Bytes
  pub elapsed : Bytes
  pub command : Bytes

-- The last byte is not a carriage return.
abbrev pub EndsPlain : Bytes → Type 0
EndsPlain [] = Unit
EndsPlain (c ∷ []) = c ≢ 13
EndsPlain (c ∷ d ∷ s) = EndsPlain (d ∷ s)

abbrev pub line_of : HistoryEntry → Bytes
line_of e = history_line e.start e.elapsed e.command

abbrev pub command_of : HistoryEntry → Bytes
command_of e = e.command

-- The times hold no mark of their own, the command is not empty, and the line is one that the scan
-- takes whole: without a line feed, without a carriage return at its end, and below the limit.
pub record IsWritten (e : HistoryEntry) : Type 0 where
  pub start : All (λ c. c ≢ b':') e.start
  pub elapsed : All (λ c. c ≢ b';') e.elapsed
  pub command : e.command ≢ []
  pub one_line : All (λ c. c ≢ 10) (line_of e)
  pub plain_end : EndsPlain e.command
  pub short : length (line_of e) < max_history_line

-- The file that holds the lines, each with its line feed.
abbrev pub history_of : List HistoryEntry → Bytes
history_of [] = []
history_of (e ∷ entries) = line_of e ++ 10 ∷ history_of entries

split_lines-line :
    (line rest : Bytes)
    → All (λ c. c ≢ 10) line
    → split_lines (line ++ 10 ∷ rest) ≡ line ∷ split_lines rest
unfolding split_lines prepend
split_lines-line [] rest h = refl
split_lines-line (c ∷ line) rest (hc, h) = rw (split_lines-line line rest h) (ground arith)

drop_cr-EndsPlain : (s : Bytes) → EndsPlain s → drop_cr s ≡ s
unfolding drop_cr
drop_cr-EndsPlain [] h = refl
drop_cr-EndsPlain (c ∷ []) h = ground arith
drop_cr-EndsPlain (c ∷ d ∷ s) h = ap (λ (l : Bytes). c ∷ l) (drop_cr-EndsPlain (d ∷ s) h)

EndsPlain-append : (p s : Bytes) → s ≢ [] → EndsPlain s → EndsPlain (p ++ s)
EndsPlain-append [] s n h = h
EndsPlain-append (x ∷ []) [] n h = absurd (n refl)
EndsPlain-append (x ∷ []) (c ∷ s) n h = h
EndsPlain-append (x ∷ y ∷ p) s n h = EndsPlain-append (y ∷ p) s n h

line_of-EndsPlain : (e : HistoryEntry) → IsWritten e → EndsPlain (line_of e)
line_of-EndsPlain e h =
    EndsPlain-append (b':' ∷ e.start) (b':' ∷ (e.elapsed ++ b';' ∷ e.command)) (λ k. absurd (cc k))
      (EndsPlain-append (b':' ∷ e.elapsed) (b';' ∷ e.command) (λ k. absurd (cc k))
        (EndsPlain-append (b';' ∷ []) e.command h.command h.plain_end))

scan_lines-history :
    (entries : List HistoryEntry)
    → All IsWritten entries
    → scan_lines (split_lines (history_of entries)) ≡ (map line_of entries, none)
unfolding scan_lines
scan_lines-history [] h = unfold split_lines in refl
scan_lines-history (e ∷ entries) (he, h) =
    let fits : leb max_history_line (length (line_of e)) ≡ false = ground (arith, he.short) in
    rw (
      split_lines-line (line_of e) (history_of entries) he.one_line,
      scan_lines-history entries h,
      fits,
      drop_cr-EndsPlain (line_of e) (line_of-EndsPlain e he),
    )

after_byte-append :
    (b : ℕ) (s rest : Bytes) → All (λ c. c ≢ b) s → after_byte b (s ++ b ∷ rest) ≡ some rest
unfolding after_byte
after_byte-append b [] rest h = rw ((==_iff b b).1 refl)
after_byte-append b (c ∷ s) rest (hc, h) = ground (arith, after_byte-append b s rest h)

strip_zsh_meta-line : (e : HistoryEntry) → IsWritten e → strip_zsh_meta (line_of e) ≡ e.command
unfolding strip_zsh_meta behind_meta or_no_text
strip_zsh_meta-line e h = rw (
  after_byte-append b':' e.start (e.elapsed ++ b';' ∷ e.command) h.start,
  after_byte-append b';' e.elapsed e.command h.elapsed,
)

read_commands-lines :
    (entries : List HistoryEntry)
    → All IsWritten entries
    → read_commands (map line_of entries) ≡ map command_of entries
unfolding read_commands
read_commands-lines [] h = refl
read_commands-lines (e ∷ entries) (he, h) =
    let read : behind_meta (after_byte b':' (e.start ++ b':' ∷ (e.elapsed ++ b';' ∷ e.command)))
        ≡ e.command =
      unfold strip_zsh_meta in strip_zsh_meta-line e he in
    rw (read, bytes_eq-of_ne e.command [] he.command)
      (ap (λ (l : List Bytes). e.command ∷ l) (read_commands-lines entries h))

-- The text of a history of one-line commands, each on a line with its times that stays below a
-- mebibyte and does not end in a carriage return, is read back as its commands, in order and
-- without an error, whatever colons and semicolons these hold themselves.
pub parse_zsh_history-lines :
    (entries : List HistoryEntry)
    → All IsWritten entries
    → parse_zsh_history (history_of entries) ≡ (map command_of entries, none)
unfolding parse_zsh_history
parse_zsh_history-lines entries h = rw (scan_lines-history entries h, read_commands-lines entries h)
