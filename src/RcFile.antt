-- ===== src/RcFile.antt =====
-- cli/init.go, appendToRc, cli/uninstall.go, removeRcLine, and cli/doctor.go, hasHunchSourceLine:
-- the block that an installation writes to the shell's start-up file. Each is a function of the
-- text of the file, and says the new text where it writes one; reading and writing the file, its
-- permissions and the path of the binary are left out.
pub mod Removed
pub mod Restored
mod Examples
use hunch.Base.{
  Bool, true, false, not, ◌&&◌, ◌||◌, List, [], ◌∷◌, ◌++◌, Option, none, some, Bytes, codes,
  if◌then◌else◌, bytes_eq, starts_with, split, any,
}
use hunch.Normalize.{join}
use hunch.Daemon.Filters.{ends_with}
use hunch.Daemon.Paths.{trim_space}

abbrev pub newline : Bytes
newline = 10 ∷ []

-- strings.Contains
unfoldable pub contains_text : Bytes → Bytes → Bool
contains_text [] text = starts_with text []
contains_text (c ∷ s) text = starts_with text (c ∷ s) || contains_text s text

abbrev pub begin_marker : Bytes
begin_marker = codes "# BEGIN hunch config"

abbrev pub end_marker : Bytes
end_marker = codes "# END hunch config"

-- The three ways in which a line sources a file, as `hasHunchSourceLine` lists them.
unfoldable pub has_source_prefix : Bytes → Bool
has_source_prefix trimmed =
    starts_with (codes "source ") trimmed
    || (starts_with (codes ". ") trimmed || starts_with (codes "Import-Module ") trimmed)

-- One round of the loop of `hasHunchSourceLine`.
unfoldable pub is_source_line : Bytes → Bool
unfolding contains_text has_source_prefix trim_space
is_source_line line =
    let trimmed = trim_space line in
    not (starts_with (codes "#") trimmed)
    && (contains_text trimmed (codes "hunch") && has_source_prefix trimmed)

unfoldable pub has_hunch_source_line : Bytes → Bool
unfolding is_source_line
has_hunch_source_line content = any is_source_line (split 10 content)

-- The same three ways, as `removeRcLine` lists them.
unfoldable pub is_sourcing : Bytes → Bool
is_sourcing trimmed =
    starts_with (codes "source ") trimmed
    || (starts_with (codes ". ") trimmed || starts_with (codes "Import-Module ") trimmed)

-- The variables of the loop of `removeRcLine`.
pub record Removal : Type 0 where
  pub lines : List Bytes
  pub changed : Bool
  pub in_hunch_block : Bool

unfoldable pub remove_line : Removal → Bytes → Removal
unfolding contains_text is_sourcing trim_space
remove_line r line =
    let trimmed = trim_space line in
    if contains_text trimmed begin_marker
    then record r { in_hunch_block = true; changed = true }
    else if contains_text trimmed end_marker
    then record r { in_hunch_block = false }
    else if r.in_hunch_block
    then r
    else if contains_text trimmed (codes "hunch") && is_sourcing trimmed
    then record r { changed = true }
    else record r { lines = r.lines ++ line ∷ [] }

unfoldable pub remove_lines : Removal → List Bytes → Removal
unfolding remove_line
remove_lines r [] = r
remove_lines r (line ∷ lines) = remove_lines (remove_line r line) lines

abbrev pub untouched : Removal
untouched = record { lines = []; changed = false; in_hunch_block = false }

-- removeRcLine; `none` where the file is left as it is.
unfoldable pub remove_rc_line : Bytes → Option Bytes
unfolding remove_lines join
remove_rc_line content =
    let r = remove_lines untouched (split 10 content) in
    if r.changed then some (join r.lines newline) else none

-- The four lines between which the format stands.
abbrev pub block_lines : Bytes → Bytes → List Bytes
block_lines bin_dir source_line =
    begin_marker
    ∷ (codes "export PATH=\"$PATH:" ++ bin_dir ++ codes "\"")
    ∷ (codes "source " ++ source_line)
    ∷ end_marker
    ∷ []

unfoldable pub block : Bytes → Bytes → Bytes
unfolding join
block bin_dir source_line = join (block_lines bin_dir source_line) newline

-- `if content != "" && !strings.HasSuffix(content, "\n") { content += "\n" }`
unfoldable pub end_line : Bytes → Bytes
unfolding ends_with
end_line content =
    if not (bytes_eq content []) && not (ends_with newline content)
    then content ++ newline
    else content

-- appendToRc; a file that is missing is empty here, and `none` is the line that is already there.
unfoldable pub append_to_rc : Bytes → Bytes → Bytes → Option Bytes
unfolding contains_text end_line block
append_to_rc bin_dir source_line content =
    if contains_text content source_line
    then none
    else some (end_line content ++ newline ++ block bin_dir source_line ++ newline)
