-- ===== src/RcFile/Examples.antt =====
-- The theorems at a short start-up file.
use hunch.Base.{
  ◌≡◌, refl, false, [], ◌∷◌, ◌++◌, some, Bytes, codes, arith, split, starts_with, is_ascii_space,
  bytes_eq, All,
}
use hunch.Normalize.{join}
use hunch.Daemon.Paths.{trim_space}
use hunch.Daemon.Filters.{ends_with}
use hunch.RcFile.{
  newline, contains_text, is_sourcing, has_hunch_source_line, remove_rc_line, append_to_rc,
  end_line,
}
use hunch.RcFile.Removed.{remove_rc_line-unsourced}
use hunch.RcFile.Restored.{IsOwn, IsInner, remove_rc_line-append_to_rc}

abbrev old_file : Bytes
old_file = codes "ls" ++ newline ++ codes "source ~/hunch.zsh" ++ newline

old_removed : remove_rc_line old_file ≡ some (codes "ls" ++ newline)
unfolding remove_rc_line split contains_text is_sourcing trim_space starts_with is_ascii_space join
old_removed = refl

remove_rc_line-unsourced_example : has_hunch_source_line (codes "ls" ++ newline) ≡ false
remove_rc_line-unsourced_example =
    remove_rc_line-unsourced old_file (codes "ls" ++ newline) old_removed

abbrev file : Bytes
file = codes "ls"

file_missing : contains_text file (codes "/i.zsh") ≡ false
unfolding contains_text starts_with
file_missing = refl

file-IsOwn : All IsOwn (split 10 (end_line file))
unfolding contains_text trim_space starts_with is_ascii_space is_sourcing split end_line ends_with
    bytes_eq
file-IsOwn = (
  record { no_begin = refl; no_end = refl; no_source = refl },
  (record { no_begin = refl; no_end = refl; no_source = refl }, tt),
)

block-IsInner : All IsInner (
    (codes "export PATH=\"$PATH:" ++ codes "/b" ++ codes "\"")
    ∷ (codes "source " ++ codes "/i.zsh")
    ∷ [])
unfolding contains_text trim_space starts_with is_ascii_space
block-IsInner = (
  record { is_line = omega arith; no_begin = refl; no_end = refl },
  (record { is_line = omega arith; no_begin = refl; no_end = refl }, tt),
)

remove_rc_line-append_to_rc_example :
    (installed : Bytes) × (append_to_rc (codes "/b") (codes "/i.zsh") file ≡ some installed)
    × (remove_rc_line installed ≡ some (end_line file ++ newline))
remove_rc_line-append_to_rc_example =
    remove_rc_line-append_to_rc (codes "/b") (codes "/i.zsh") file file_missing file-IsOwn
      block-IsInner
