-- ===== src/Regex/Build.antt =====
-- The notations of the patterns in use.
use hunch.Base.{ℕ, zero, suc, Bool, true, ◌&&◌, ◌||◌, List, [], ◌∷◌, Bytes, ◌==◌, leb}
use hunch.Regex.{Regex, never, empty, one, seq, alt, star}

abbrev pub any_byte : Regex
any_byte = one (λ _. true)

-- .* across the text that an unanchored pattern leaves out
abbrev pub anything : Regex
anything = star any_byte

abbrev pub byte : ℕ → Regex
byte b = one (λ c. c == b)

abbrev pub plus : Regex → Regex
plus r = seq r (star r)

abbrev pub optional : Regex → Regex
optional r = alt empty r

abbrev pub literal : Bytes → Regex
literal [] = empty
literal (b ∷ s) = seq (byte b) (literal s)

-- r{0,n}
abbrev pub at_most : ℕ → Regex → Regex
at_most zero r = empty
at_most (suc n) r = optional (seq r (at_most n r))

-- r{n,n+m}
abbrev pub between : ℕ → ℕ → Regex → Regex
between zero m r = at_most m r
between (suc n) m r = seq r (between n m r)

abbrev pub one_of : List Regex → Regex
one_of [] = never
one_of (r ∷ rs) = alt r (one_of rs)

abbrev pub byte_range : ℕ → ℕ → ℕ → Bool
byte_range lo hi c = leb lo c && leb c hi

unfoldable pub is_digit : ℕ → Bool
is_digit = byte_range b'0' b'9'

unfoldable pub is_lower : ℕ → Bool
is_lower = byte_range b'a' b'z'

unfoldable pub is_upper : ℕ → Bool
is_upper = byte_range b'A' b'Z'

-- \s is [\t\n\f\r ] in Go's syntax
unfoldable pub is_space : ℕ → Bool
is_space c = c == b'\t' || c == b'\n' || c == 12 || c == b'\r' || c == b' '
