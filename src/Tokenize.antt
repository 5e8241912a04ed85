-- ===== src/Tokenize.antt =====
-- core/normalize/tokenize.go: the quote-aware scanner behind every template.
-- `Scan` holds the variables of `Tokenize`'s loop, `step` is its switch on one byte, with the byte
-- behind it for the look-ahead of `||` and `&&`, and its Boolean is the extra `i++`.
pub mod Grammar
pub mod Quoting
pub mod Bounds
mod Examples
use hunch.Base.{
  ℕ, Bool, true, false, not, ◌&&◌, ◌||◌, List, [], ◌∷◌, ◌++◌, Option, none, some, Bytes, codes,
  ◌==◌, if◌then◌else◌,
}

pub record Scan : Type 0 where
  pub tokens : List Bytes
  pub current : Bytes
  pub in_single : Bool
  pub in_double : Bool
  pub escaped : Bool

-- `if current.Len() > 0 { tokens = append(tokens, current.String()); current.Reset() }`
push_current : List Bytes → Bytes → List Bytes
push_current tokens [] = tokens
push_current tokens (c ∷ cur) = tokens ++ (c ∷ cur) ∷ []

flush : Scan → Scan
unfolding push_current
flush s = record s { tokens = push_current s.tokens s.current; current = [] }

write_byte : ℕ → Scan → Scan
write_byte ch s = record s { current = s.current ++ ch ∷ [] }

-- An operator ends the current token and is a token itself.
push_operator : Bytes → Scan → Scan
unfolding flush
push_operator op s = let f = flush s in record f { tokens = f.tokens ++ op ∷ [] }

unquoted : Scan → Bool
unquoted s = not s.in_single && not s.in_double

is_blank : ℕ → Bool
is_blank ch = ch == b' ' || ch == b'\t' || ch == b'\n' || ch == b'\r'

next_is : ℕ → Option ℕ → Bool
next_is ch none = false
next_is ch (some d) = d == ch

-- The switch below its first four cases, which handle escapes and quotes.
step_plain : ℕ → Option ℕ → Scan → Scan × Bool
unfolding write_byte push_operator unquoted is_blank next_is
step_plain ch peek s =
    if is_blank ch
    then (if unquoted s then flush s else write_byte ch s, false)
    else if ch == b'|' && unquoted s
    then (if next_is b'|' peek
        then (push_operator (codes "||") s, true)
        else (push_operator (codes "|") s, false))
    else if ch == b'&' && unquoted s
    then (if next_is b'&' peek
        then (push_operator (codes "&&") s, true)
        else (write_byte ch s, false))
    else if ch == b';' && unquoted s
    then (push_operator (codes ";") s, false)
    else (write_byte ch s, false)

step : ℕ → Option ℕ → Scan → Scan × Bool
unfolding step_plain
step ch peek s =
    if s.escaped
    then (record (write_byte ch s) { escaped = false }, false)
    else if ch == b'\\' && not s.in_single
    then (record s { escaped = true }, false)
    else if ch == b'\'' && not s.in_double
    then (record s { in_single = not s.in_single }, false)
    else if ch == b'"' && not s.in_single
    then (record s { in_double = not s.in_double }, false)
    else step_plain ch peek s

scan : Bytes → Scan → Scan
scan [] s = s
scan (ch ∷ []) s = (step ch none s).0
scan (ch ∷ d ∷ rest) s =
    let r = step ch (some d) s in
    let two = scan rest r.0 in let one = scan (d ∷ rest) r.0 in if r.1 then two else one

abbrev start : Scan
start = record { tokens = []; current = []; in_single = false; in_double = false; escaped = false }

unfoldable pub tokenize : Bytes → List Bytes
unfolding scan step
tokenize raw = (flush (scan raw start)).tokens
