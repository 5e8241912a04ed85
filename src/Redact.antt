-- ===== src/Redact.antt =====
-- core/redact/redact.go: which commands are too sensitive to record.
-- `regexp.Compile` of a user's own pattern is the parameter `compile`; the four built-in patterns
-- are spelled out as expressions. The texts are read as ASCII.
pub mod Coverage
pub mod Restraint
mod Examples
use hunch.Base.{
  ℕ, ◌+◌, Bool, true, false, not, ◌&&◌, ◌||◌, List, [], ◌∷◌, ◌++◌, Option, none, some, Bytes, codes,
  ◌==◌, any, if◌then◌else◌, map,
}
use hunch.Regex.{Regex, empty, one, seq, alt, star, match_string}
use hunch.Regex.Build.{
  anything, byte, plus, optional, one_of, is_digit, is_lower, is_upper, is_space,
}

unfoldable pub to_lower : ℕ → ℕ
unfolding is_upper
to_lower c = if is_upper c then c + 32 else c

-- A letter under (?i).
abbrev pub either_case : ℕ → Regex
either_case b = one (λ c. to_lower c == to_lower b)

abbrev pub word : Bytes → Regex
word [] = empty
word (b ∷ s) = seq (either_case b) (word s)

abbrev pub space : Regex
space = one is_space

abbrev pub nonspace : Regex
nonspace = one (λ c. not (is_space c))

-- (^|\s)
abbrev pub at_word_start : Regex
at_word_start = alt empty (seq anything space)

-- [A-Z0-9_] under (?i)
abbrev pub name_byte : Regex
name_byte = one (λ c. is_upper c || is_lower c || is_digit c || c == b'_')

-- [_-]?
abbrev pub joint : Regex
joint = optional (one (λ c. c == b'_' || c == b'-'))

abbrev pub secret_names : List Regex
secret_names =
    word (codes "SECRET")
    ∷ word (codes "TOKEN")
    ∷ word (codes "PASSWORD")
    ∷ word (codes "PASSWD")
    ∷ seq (word (codes "API")) (seq joint (word (codes "KEY")))
    ∷ seq (word (codes "ACCESS")) (seq joint (word (codes "KEY")))
    ∷ seq (word (codes "PRIVATE")) (seq joint (word (codes "KEY")))
    ∷ word (codes "CREDENTIAL")
    ∷ []

abbrev pub secret_name : Regex
secret_name = one_of secret_names

abbrev pub assignment_pattern : Regex
assignment_pattern = seq at_word_start (
    seq (star name_byte) (
      seq secret_name (
        seq (star name_byte)
          (seq (star space) (seq (byte b'=') (seq (star space) (seq nonspace anything)))))))

abbrev pub flag_names : List Regex
flag_names =
    word (codes "password")
    ∷ word (codes "passwd")
    ∷ word (codes "pass")
    ∷ word (codes "token")
    ∷ word (codes "secret")
    ∷ seq (word (codes "api")) (seq joint (word (codes "key")))
    ∷ word (codes "auth")
    ∷ []

abbrev pub flag_name : Regex
flag_name = one_of flag_names

abbrev pub flag_value : Regex
flag_value = alt (seq (byte b'=') nonspace) (seq (plus space) nonspace)

abbrev pub flag_pattern : Regex
flag_pattern =
    seq at_word_start
      (seq (byte b'-') (seq (optional (byte b'-')) (seq flag_name (seq flag_value anything))))

abbrev pub header_pattern : Regex
header_pattern = seq anything (
    seq (word (codes "authorization:"))
      (seq (star space) (seq (plus nonspace) (seq (plus space) (seq nonspace anything)))))

abbrev pub user_pattern : Regex
user_pattern = seq at_word_start (
    seq (byte b'-') (
      seq (byte b'u')
        (seq (plus space) (seq (plus nonspace) (seq (byte b':') (seq nonspace anything))))))

pub builtin_patterns : List Regex
builtin_patterns = assignment_pattern ∷ flag_pattern ∷ header_pattern ∷ user_pattern ∷ []

-- A compiled pattern is what `MatchString` makes of it.
pub record Matcher : Type 0 where
  pub patterns : List (Bytes → Bool)

-- The loop of `New`: an empty or invalid extra pattern is skipped.
compile_extra : (Bytes → Option (Bytes → Bool)) → List Bytes → List (Bytes → Bool)
compile_extra compile [] = []
compile_extra compile ([] ∷ extra) = compile_extra compile extra
compile_extra compile ((b ∷ p) ∷ extra) =
    let rest = compile_extra compile extra in
    elim (compile (b ∷ p)) [ none ↦ rest | some re ↦ re ∷ rest ]

unfoldable pub new : (Bytes → Option (Bytes → Bool)) → List Bytes → Matcher
unfolding compile_extra builtin_patterns
new compile extra = record {
  patterns = map match_string builtin_patterns ++ compile_extra compile extra;
}

match_any : List (Bytes → Bool) → Bytes → Bool
match_any [] raw = false
match_any (re ∷ res) raw = if re raw then true else match_any res raw

unfoldable pub is_sensitive : Matcher → Bytes → Bool
unfolding match_any
is_sensitive m raw = match_any m.patterns raw
