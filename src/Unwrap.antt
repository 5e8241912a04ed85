-- ===== src/Unwrap.antt =====
-- core/normalize/unwrap.go: stripping the wrapper commands in front of a command.
-- An index that the source gives as -1 is `none`. A loop over `tokens[i:]` walks that list and
-- carries `i`; `classify_arg` is the chain of tests that the body of `findInnerCommand` makes.
pub mod Wrappers
pub mod Index
pub mod Suffix
pub mod Options
mod Examples
use hunch.Base.{
  ℕ, zero, suc, ◌+◌, Bool, true, false, not, ◌&&◌, ◌||◌, List, [], ◌∷◌, Option, none, some, Bytes,
  codes, ◌==◌, ltb, leb, if◌then◌else◌, bytes_eq, length, drop,
}
use hunch.Unwrap.Wrappers.{WrapperConfig, wrapper_config}

unfoldable pub is_flag : Bytes → Bool
is_flag [] = false
is_flag (c ∷ tok) = c == b'-'

has_equals : Bytes → Bool
has_equals [] = false
has_equals (c ∷ tok) = c == b'=' || has_equals tok

-- An equals sign at an index above 0.
unfoldable pub is_env_assignment : Bytes → Bool
unfolding has_equals
is_env_assignment [] = false
is_env_assignment (c ∷ tok) = has_equals tok

abbrev pub double_dash : Bytes
double_dash = codes "--"

-- flock reads a lone dash as its lock file.
is_flock_flag : Bytes → Bool
unfolding is_flag
is_flock_flag tok = is_flag tok && not (bytes_eq tok (codes "-"))

unfoldable pub is_wrapper : Bytes → Bool
unfolding wrapper_config
is_wrapper tok = elim (wrapper_config tok) [ none ↦ false | some _ ↦ true ]

-- What one argument of a wrapper is.
pub data Argument : Type 0 where
  separator flag flag_with_value assignment positional command : Argument

unfoldable pub long_flag_takes_value : Option (Bytes → Bool) → Bytes → Bool
long_flag_takes_value none tok = false
long_flag_takes_value (some f) tok = f tok

unfoldable pub classify_arg : WrapperConfig → ℕ → Bytes → Argument
unfolding long_flag_takes_value
classify_arg cfg skipped tok =
    if cfg.honor_double_dash && bytes_eq tok double_dash
    then separator
    else if cfg.skip_flags && is_flag tok
    then (if long_flag_takes_value cfg.long_flag_value tok
        then flag_with_value
        else if cfg.short_flag_value && length tok == 2
        then flag_with_value
        else flag)
    else if cfg.skip_env_assignment && is_env_assignment tok
    then assignment
    else if ltb skipped cfg.positional_skip
    then positional
    else command

-- The loop of `findInnerCommand` over `tokens[i:]`; a flag with a value makes `i++` twice.
walk : WrapperConfig → ℕ → ℕ → List Bytes → Option ℕ
walk cfg skipped i [] = none
walk cfg skipped i (tok ∷ []) = elim (classify_arg cfg skipped tok) [ command ↦ some i | _ ↦ none ]
walk cfg skipped i (tok ∷ v ∷ rest) = elim (classify_arg cfg skipped tok) [
  | separator ↦ some (i + 1)
  | flag ↦ walk cfg skipped (i + 1) (v ∷ rest)
  | flag_with_value ↦ walk cfg skipped (i + 2) rest
  | assignment ↦ walk cfg skipped (i + 1) (v ∷ rest)
  | positional ↦ walk cfg (skipped + 1) (i + 1) (v ∷ rest)
  | command ↦ some i
]

find_inner_command : List Bytes → WrapperConfig → Option ℕ
unfolding walk classify_arg
find_inner_command tokens cfg = walk cfg 0 1 (drop 1 tokens)

-- The loop of `flockCommandIndex` over `tokens[i:]`.
flock_walk : Bool → ℕ → List Bytes → Option ℕ
flock_walk saw_non_flag i [] = none
flock_walk saw_non_flag i (tok ∷ rest) =
    let skip = flock_walk saw_non_flag (i + 1) rest in
    let lock_file = flock_walk true (i + 1) rest in
    if bytes_eq tok (codes "-c") || bytes_eq tok (codes "--command")
    then elim rest [ [] ↦ none | _ ∷ _ ↦ some (i + 1) ]
    else if is_flock_flag tok
    then skip
    else if not saw_non_flag
    then lock_file
    else some i

flock_command_index : List Bytes → Option ℕ
unfolding flock_walk is_flock_flag
flock_command_index tokens = flock_walk false 1 (drop 1 tokens)

configured_index : Option WrapperConfig → List Bytes → Option ℕ
unfolding find_inner_command
configured_index none tokens = none
configured_index (some cfg) tokens = find_inner_command tokens cfg

unfoldable pub wrapper_command_index : List Bytes → Option ℕ
unfolding flock_command_index configured_index
wrapper_command_index [] = none
wrapper_command_index (w ∷ []) = none
wrapper_command_index (w ∷ a ∷ rest) =
    if bytes_eq w (codes "flock")
    then flock_command_index (w ∷ a ∷ rest)
    else configured_index (wrapper_config w) (w ∷ a ∷ rest)

-- `for len(tokens) > 1 && !isFlag(tokens[0]) && isEnvAssignment(tokens[0])`
unfoldable pub strip_assignments : List Bytes → List Bytes
unfolding is_flag is_env_assignment
strip_assignments [] = []
strip_assignments (t ∷ []) = t ∷ []
strip_assignments (t ∷ u ∷ rest) =
    if not (is_flag t) && is_env_assignment t then strip_assignments (u ∷ rest) else t ∷ u ∷ rest

-- The second loop of `unwrapPrefixTokens`. Each round drops a token, so the number of tokens is
-- fuel enough.
pub starts_with_wrapper : List Bytes → Bool
unfolding is_wrapper
starts_with_wrapper [] = false
starts_with_wrapper (w ∷ []) = false
starts_with_wrapper (w ∷ a ∷ rest) = is_wrapper w

-- `next < 1 || next >= len(tokens)`
in_range : ℕ → List Bytes → Bool
in_range next tokens = not (ltb next 1 || leb (length tokens) next)

pub strip_wrappers : ℕ → List Bytes → List Bytes
strip_wrappers zero tokens = tokens
strip_wrappers (suc fuel) tokens = elim (starts_with_wrapper tokens) [
  | false ↦ tokens
  | true ↦ elim (wrapper_command_index tokens) [
    | none ↦ tokens
    | some next ↦
        let more = strip_wrappers fuel (drop next tokens) in
        if in_range next tokens then more else tokens
  ]
]

unfoldable pub unwrap_prefix_tokens : List Bytes → List Bytes
unfolding strip_assignments strip_wrappers starts_with_wrapper in_range wrapper_command_index
unwrap_prefix_tokens tokens =
    let stripped = strip_assignments tokens in strip_wrappers (length stripped) stripped
