-- ===== src/Normalize.antt =====
-- core/normalize/normalize.go, and `ExtractArgTokens` of core/normalize/classify.go: from a raw
-- command to its template, segment by segment.
pub mod Joined
pub mod Segments
pub mod Private
pub mod Quoted
mod Examples
use hunch.Base.{
  ℕ, Bool, true, false, ◌||◌, List, [], ◌∷◌, ◌++◌, Option, none, some, Bytes, codes, if◌then◌else◌,
  bytes_eq,
}
use hunch.Tokenize.{tokenize}
use hunch.Unwrap.{unwrap_prefix_tokens}
use hunch.Classify.{classify_tokens, argument_tokens}
use hunch.Classify.Parents.{default_parents}

-- strings.Join
unfoldable pub join : List Bytes → Bytes → Bytes
join [] sep = []
join (s ∷ []) sep = s
join (s ∷ t ∷ l) sep = s ++ sep ++ join (t ∷ l) sep

abbrev pub blank : Bytes
blank = codes " "

unfoldable pub is_operator : Bytes → Bool
is_operator tok =
    bytes_eq tok (codes "|")
    || bytes_eq tok (codes "||")
    || bytes_eq tok (codes "&&")
    || bytes_eq tok (codes ";")

-- normalizeOne
unfoldable pub normalize_one : List Bytes → List Bytes → Bytes
unfolding unwrap_prefix_tokens classify_tokens join
normalize_one tokens parents = join (classify_tokens (unwrap_prefix_tokens tokens) parents) blank

-- `if len(current) > 0 { segments = append(segments, normalizeOne(current, parents)) }`
push_segment : List Bytes → List Bytes → List Bytes → List Bytes
push_segment parents segments [] = segments
push_segment parents segments (t ∷ ts) = segments ++ normalize_one (t ∷ ts) parents ∷ []

-- The loop of `normalizeSegments`, over `segments` and `current`.
segment_loop : List Bytes → List Bytes → List Bytes → List Bytes → List Bytes
unfolding push_segment
segment_loop parents [] segments current = push_segment parents segments current
segment_loop parents (tok ∷ tokens) segments current =
    let cut = segment_loop parents tokens (push_segment parents segments current ++ tok ∷ []) [] in
    let grow = segment_loop parents tokens segments (current ++ tok ∷ []) in
    if is_operator tok then cut else grow

unfoldable pub segments_of : List Bytes → List Bytes → List Bytes
unfolding segment_loop
segments_of tokens parents = segment_loop parents tokens [] []

unfoldable pub normalize_segments : List Bytes → List Bytes → Bytes
unfolding segments_of join
normalize_segments tokens parents = join (segments_of tokens parents) blank

-- `none` is the nil list, which means the default.
abbrev pub parents_or_default : Option (List Bytes) → List Bytes
parents_or_default none = default_parents
parents_or_default (some parents) = parents

normalize_tokens : List Bytes → List Bytes → Bytes
normalize_tokens [] parents = []
normalize_tokens (t ∷ ts) parents = normalize_segments (t ∷ ts) parents

unfoldable pub normalize : Bytes → Option (List Bytes) → Bytes
unfolding normalize_tokens normalize_segments is_operator normalize_one tokenize
normalize raw parents = normalize_tokens (tokenize raw) (parents_or_default parents)

unfoldable pub merge_parents : List Bytes → List Bytes
merge_parents [] = default_parents
merge_parents (e ∷ extras) = default_parents ++ e ∷ extras

arguments_of : List Bytes → List Bytes → List Bytes
arguments_of [] parents = []
arguments_of (t ∷ ts) parents = argument_tokens 0 t parents (t ∷ ts)

-- ExtractArgTokens
unfoldable pub extract_arg_tokens : Bytes → Option (List Bytes) → List Bytes
unfolding arguments_of
extract_arg_tokens raw parents =
    arguments_of (unwrap_prefix_tokens (tokenize raw)) (parents_or_default parents)
