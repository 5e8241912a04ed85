-- ===== src/History.antt =====
-- cli/import_history.go: reading a zsh history file, and what is sent to the daemon for it. The file
-- is its text, which the lines of `bufio.Scanner` are cut from; opening and reading it, sockets, the
-- encoding of the seed and the messages to the user are left out. The counts of the raw examples are kept in the order in which they are first met,
-- which is one of the orders that ranging over the Go map may have.
pub mod Lines
pub mod Workers
mod Examples
use hunch.Base.{
  ℕ, zero, suc, ◌+◌, Bool, true, false, not, ◌&&◌, List, [], ◌∷◌, ◌++◌, Option, none, some, Bytes,
  if◌then◌else◌, ◌==◌, bytes_eq, length, leb,
}
use hunch.Base.Assoc.{Assoc, lookup, insert}
use hunch.Classify.Parents.{default_parents}
use hunch.Normalize.{join, normalize}
use hunch.Graph.{Graph, Transition, record_plain, new}
use hunch.Graph.Export.{all}
use hunch.Backoff.{backoff_states}
use hunch.RawStore.{RawExample}

-- strings.IndexByte, and what stands behind the byte.
after_byte : ℕ → Bytes → Option Bytes
after_byte b [] = none
after_byte b (c ∷ s) = let rest = after_byte b s in if c == b then some s else rest

or_no_text : Option Bytes → Bytes
or_no_text none = []
or_no_text (some s) = s

-- What stands behind the second colon, up to its own first semicolon.
behind_meta : Option Bytes → Bytes
unfolding after_byte or_no_text
behind_meta none = []
behind_meta (some rest) = or_no_text (after_byte b';' rest)

unfoldable pub strip_zsh_meta : Bytes → Bytes
unfolding after_byte behind_meta
strip_zsh_meta [] = []
strip_zsh_meta (c ∷ line) = if c == b':' then behind_meta (after_byte b':' line) else []

-- The bytes behind which `bufio.Scanner` gives up on a line.
abbrev pub max_history_line : ℕ
max_history_line = 1048576

pub data ScanError : Type 0 where
  token_too_long : ScanError

prepend : ℕ → List Bytes → List Bytes
prepend c [] = (c ∷ []) ∷ []
prepend c (line ∷ lines) = (c ∷ line) ∷ lines

-- The pieces between line feeds; behind the last line feed an empty piece is none.
unfoldable pub split_lines : Bytes → List Bytes
unfolding prepend
split_lines [] = []
split_lines (c ∷ s) = let lines = split_lines s in if c == 10 then [] ∷ lines else prepend c lines

-- A carriage return at the end of a line is dropped.
unfoldable pub drop_cr : Bytes → Bytes
drop_cr [] = []
drop_cr (c ∷ []) = if c == 13 then [] else c ∷ []
drop_cr (c ∷ d ∷ line) = c ∷ drop_cr (d ∷ line)

-- The lines that `sc.Scan` hands out, and `sc.Err`: a line that does not fit the buffer with its
-- line feed ends the scan.
unfoldable pub scan_lines : List Bytes → List Bytes × Option ScanError
unfolding drop_cr
scan_lines [] = ([], none)
scan_lines (line ∷ lines) =
    let rest = scan_lines lines in
    if leb max_history_line (length line)
    then ([], some token_too_long)
    else (drop_cr line ∷ rest.0, rest.1)

unfoldable pub read_commands : List Bytes → List Bytes
unfolding strip_zsh_meta
read_commands [] = []
read_commands (line ∷ lines) =
    let cmds = read_commands lines in
    let cmd = strip_zsh_meta line in if bytes_eq cmd [] then cmds else cmd ∷ cmds

-- The commands, which the error does not take back.
unfoldable pub parse_zsh_history : Bytes → List Bytes × Option ScanError
unfolding split_lines scan_lines read_commands
parse_zsh_history text =
    let scanned = scan_lines (split_lines text) in (read_commands scanned.0, scanned.1)

-- `job`
pub record Job : Type 0 where
  pub idx : ℕ
  pub raw : Bytes

-- `normalized[i] = v`
set_slot : List Bytes → ℕ → Bytes → List Bytes
set_slot [] i v = []
set_slot (s ∷ slots) zero v = v ∷ slots
set_slot (s ∷ slots) (suc i) v = s ∷ set_slot slots i v

-- What the workers leave in the slots, in the order in which they finish their jobs.
unfoldable pub finish_jobs : List Job → List Bytes → List Bytes
unfolding set_slot normalize
finish_jobs [] slots = slots
finish_jobs (j ∷ jobs) slots =
    finish_jobs jobs (set_slot slots j.idx (normalize j.raw (some default_parents)))

unfoldable pub empty_slots : List Bytes → List Bytes
empty_slots [] = []
empty_slots (raw ∷ raws) = [] ∷ empty_slots raws

-- normalizeConcurrent, with the jobs in the order in which they are done.
unfoldable pub normalize_concurrent : List Job → List Bytes → List Bytes
unfolding finish_jobs empty_slots
normalize_concurrent jobs raws = finish_jobs jobs (empty_slots raws)

record_states : ℕ → Bytes → List (List Bytes) → Graph → Graph
unfolding record_plain
record_states now cmd [] g = g
record_states now cmd (state ∷ states) g =
    record_states now cmd states (record_plain state cmd now g)

unfoldable pub learn_from : ℕ → Bytes → Bytes → List Bytes → Graph → Graph
unfolding record_states backoff_states
learn_from now prev1 prev2 [] g = g
learn_from now prev1 prev2 (cmd ∷ normalized) g = learn_from now prev2 cmd normalized (
    if bytes_eq cmd []
    then g
    else record_states now cmd (backoff_states (prev1 ∷ prev2 ∷ []) false) g)

unfoldable pub build_transitions : ℕ → List Bytes → List Transition
unfolding learn_from all new
build_transitions now normalized = all (learn_from now [] [] normalized (new 2))

pub non_empty : List Bytes → List Bytes
non_empty [] = []
non_empty (s ∷ state) = let out = non_empty state in if bytes_eq s [] then out else s ∷ out

-- `stateKey`, with the trimmed state that `states` keeps for its joined text.
pub record StateKey : Type 0 where
  pub joined : Bytes
  pub trimmed : List Bytes
  pub template : Bytes
  pub raw : Bytes

pub record StateCount : Type 0 where
  pub key : StateKey
  pub count : ℕ

same_key : StateKey → StateKey → Bool
same_key a b =
    bytes_eq a.joined b.joined && (bytes_eq a.template b.template && bytes_eq a.raw b.raw)

-- `states[joined] = trimmed; stateCounts[key]++`
pub count_key : StateKey → List StateCount → List StateCount
unfolding same_key
count_key key [] = record { key = key; count = 1 } ∷ []
count_key key (c ∷ counts) =
    if same_key c.key key
    then record c { count = c.count + 1 } ∷ counts
    else c ∷ count_key key counts

count_states : Bytes → Bytes → List (List Bytes) → List StateCount → List StateCount
unfolding count_key non_empty join
count_states template raw [] counts = counts
count_states template raw (state ∷ states) counts =
    let trimmed = non_empty state in
    count_states template raw states (
      count_key
        (record {
          joined = join trimmed (0 ∷ []);
          trimmed = trimmed;
          template = template;
          raw = raw;
        })
        counts)

-- The loop of `buildRawMappings`, over the commands with their templates.
count_raws : Bytes → Bytes → List (Bytes × Bytes) → List StateCount → List StateCount
unfolding count_states backoff_states
count_raws prev1 prev2 [] counts = counts
count_raws prev1 prev2 ((raw, template) ∷ cmds) counts = count_raws prev2 template cmds (
    if not (bytes_eq template []) && not (bytes_eq raw [])
    then count_states template raw (backoff_states (prev1 ∷ prev2 ∷ []) false) counts
    else counts)

to_example : StateCount → RawExample
to_example c = record {
  state = c.key.trimmed;
  template = c.key.template;
  raw = c.key.raw;
  count = c.count;
  last_seen = 0;
}

list_examples : List StateCount → List RawExample
unfolding to_example
list_examples [] = []
list_examples (c ∷ counts) = to_example c ∷ list_examples counts

unfoldable pub build_raw_mappings : List (Bytes × Bytes) → List RawExample
unfolding count_raws list_examples
build_raw_mappings cmds = list_examples (count_raws [] [] cmds [])
