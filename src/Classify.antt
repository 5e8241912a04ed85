-- ===== src/Classify.antt =====
-- core/normalize/classify.go: the classes of tokens, and the template that they leave of a command.
-- `makeSet(parents)` is the list itself, read by membership; the pool of buffers and the fast path
-- for `DefaultParents` change no result and are left out.
pub mod Parents
pub mod Privacy
pub mod Shape
pub mod Collapse
mod Examples
use hunch.Base.{
  ℕ, zero, suc, ◌+◌, Bool, true, false, not, ◌&&◌, ◌||◌, List, [], ◌∷◌, ◌++◌, Option, none, some,
  Bytes, codes, ◌==◌, if◌then◌else◌, any, bytes_eq, contains,
}
use hunch.Regex.{Regex, one, seq, alt, star, match_string}
use hunch.Regex.Build.{
  anything, byte, plus, optional, literal, between, is_digit, is_lower, is_upper, byte_range,
}
use hunch.Unwrap.{double_dash}

-- ^-{1,2}
abbrev pub flag_re : Regex
flag_re = seq (byte b'-') (seq (optional (byte b'-')) anything)

abbrev pub letter : ℕ → Bool
letter c = is_lower c || is_upper c

-- [a-zA-Z][a-zA-Z0-9+.-]*://
abbrev pub scheme : Regex
scheme = seq (one letter) (
    seq (star (one (λ c. letter c || is_digit c || c == b'+' || c == b'.' || c == b'-')))
      (literal (codes "://")))

-- ^(scheme|www\.)|@.*:|\.git$
abbrev pub repo_re : Regex
repo_re = alt (seq (alt scheme (literal (codes "www."))) anything) (
    alt
      (seq anything
        (seq (byte b'@') (seq (star (one (λ c. not (c == b'\n')))) (seq (byte b':') anything))))
      (seq anything (literal (codes ".git"))))

abbrev pub hex_digit : ℕ → Bool
hex_digit c = is_digit c || byte_range b'a' b'f' c || byte_range b'A' b'F' c

-- ^[0-9a-fA-F]{6,40}$
abbrev pub hash_re : Regex
hash_re = between 6 34 (one hex_digit)

-- ^-?\d+(\.\d+)?$
abbrev pub num_re : Regex
num_re =
    seq (optional (byte b'-'))
      (seq (plus (one is_digit)) (optional (seq (byte b'.') (plus (one is_digit)))))

pub data Classification : Type 0 where
  plain flag path repo hash num str : Classification

starts_path : Bytes → Bool
starts_path [] = false
starts_path (c ∷ tok) = c == b'.' || c == b'~'

-- The tests behind the position: by the shape of the token alone.
classify_shape : Bytes → Classification
unfolding match_string starts_path
classify_shape tok =
    if match_string repo_re tok
    then repo
    else if match_string num_re tok
    then num
    else if match_string hash_re tok
    then hash
    else if any (λ c. c == b'/') tok || starts_path tok
    then path
    else str

unfoldable pub classify_token : Bytes → ℕ → Bytes → List Bytes → Classification
unfolding classify_shape
classify_token tok idx first_tok parents =
    if bytes_eq tok double_dash
    then plain
    else if match_string flag_re tok
    then flag
    else if idx == 0
    then plain
    else if idx == 1 && contains parents first_tok
    then plain
    else classify_shape tok

last_is : Bytes → List Bytes → Bool
last_is token [] = false
last_is token (t ∷ []) = bytes_eq t token
last_is token (t ∷ u ∷ ts) = last_is token (u ∷ ts)

collapse_append : List Bytes → Bytes → List Bytes
unfolding last_is
collapse_append result token = if last_is token result then result else result ++ token ∷ []

-- The switch on `classified[i]`.
append_class : Classification → Bytes → List Bytes → List Bytes
append_class plain tok result = result ++ tok ∷ []
append_class flag tok result = collapse_append result (codes "FLAG")
append_class path tok result = collapse_append result (codes "PATH")
append_class repo tok result = collapse_append result (codes "REPO")
append_class hash tok result = collapse_append result (codes "HASH")
append_class num tok result = collapse_append result (codes "NUM")
append_class str tok result = collapse_append result (codes "STR")

-- The loop of `collapseTokens` over `tokens[i:]` and `classified[i:]`.
collapse_loop : List Bytes → List Classification → List Bytes → Bool → List Bytes
collapse_loop [] ks result in_kwargs = result
collapse_loop (t ∷ ts) [] result in_kwargs = result
collapse_loop (t ∷ ts) (k ∷ ks) result in_kwargs =
    let kwargs = collapse_loop ts ks (result ++ codes "KWARGS" ∷ []) true in
    let skip = collapse_loop ts ks result true in
    let next = collapse_loop ts ks (append_class k t result) false in
    if in_kwargs then skip else if bytes_eq t double_dash then kwargs else next

unfoldable pub collapse_tokens : List Bytes → List Classification → List Bytes
unfolding collapse_loop append_class collapse_append
collapse_tokens [] classified = []
collapse_tokens (t ∷ ts) [] = t ∷ []
collapse_tokens (t ∷ ts) (k ∷ ks) = collapse_loop ts ks (t ∷ []) false

-- The loop that classifies `tokens[i:]`.
classify_from : ℕ → Bytes → List Bytes → List Bytes → List Classification
classify_from i first_tok parents [] = []
classify_from i first_tok parents (t ∷ ts) =
    classify_token t i first_tok parents ∷ classify_from (i + 1) first_tok parents ts

unfoldable pub classify_tokens : List Bytes → List Bytes → List Bytes
unfolding classify_from collapse_tokens classify_token
classify_tokens [] parents = []
classify_tokens (t ∷ ts) parents = collapse_tokens (t ∷ ts) (classify_from 0 t parents (t ∷ ts))

unfoldable pub is_argument : Classification → Bool
is_argument plain = false
is_argument flag = false
is_argument _ = true

-- The loop of `ExtractArgTokens` over `tokens[i:]`.
unfoldable pub argument_tokens : ℕ → Bytes → List Bytes → List Bytes → List Bytes
argument_tokens i first_tok parents [] = []
argument_tokens i first_tok parents (t ∷ ts) =
    let rest = argument_tokens (i + 1) first_tok parents ts in
    if is_argument (classify_token t i first_tok parents) then t ∷ rest else rest
