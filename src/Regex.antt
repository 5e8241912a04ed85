-- ===== src/Regex.antt =====
-- The regular expressions that core/normalize/classify.go and core/redact/redact.go write, with a
-- matcher by derivatives. `match_string r` is `regexp.MatchString` for a pattern that is spelled out
-- over the whole text: an unanchored side of a pattern is `anything`.
pub mod Decides
pub mod Build
use hunch.Base.{
  ℕ, zero, suc, ◌≡◌, Bool, true, false, ◌&&◌, ◌||◌, List, [], ◌∷◌, ◌++◌, Bytes, if◌then◌else◌, ◌==◌,
  ltb, leb,
}

pub data Regex : Type 0 where
  never : Regex
  empty : Regex
  one : (ℕ → Bool) → Regex
  seq : Regex → Regex → Regex
  alt : Regex → Regex → Regex
  star : Regex → Regex

-- The language of an expression.
pub data Matches : Regex → Bytes → Type 0 where
  empty_text : {s : Bytes} → s ≡ [] → Matches empty s
  one_byte : {p : ℕ → Bool} {s : Bytes} (c : ℕ) → p c ≡ true → s ≡ c ∷ [] → Matches (one p) s
  in_sequence :
      {a b : Regex} {s : Bytes} (u v : Bytes)
      → Matches a u
      → Matches b v
      → s ≡ u ++ v
      → Matches (seq a b) s
  left : {a b : Regex} {s : Bytes} → Matches a s → Matches (alt a b) s
  right : {a b : Regex} {s : Bytes} → Matches b s → Matches (alt a b) s
  stop : {a : Regex} {s : Bytes} → s ≡ [] → Matches (star a) s
  more :
      {a : Regex} {s : Bytes} (u v : Bytes)
      → Matches a u
      → Matches (star a) v
      → s ≡ u ++ v
      → Matches (star a) s

-- `seq` and `alt` with the trivial cases taken off, so that derivatives stay small.
join_seq : Regex → Regex → Regex
join_seq never b = never
join_seq empty b = b
join_seq a b = seq a b

join_alt : Regex → Regex → Regex
join_alt never b = b
join_alt a never = a
join_alt a b = alt a b

nullable : Regex → Bool
nullable never = false
nullable empty = true
nullable (one p) = false
nullable (seq a b) = nullable a && nullable b
nullable (alt a b) = nullable a || nullable b
nullable (star a) = true

-- What is left to match behind the byte `c`.
derivative : ℕ → Regex → Regex
unfolding join_seq join_alt nullable
derivative c never = never
derivative c empty = never
derivative c (one p) = if p c then empty else never
derivative c (seq a b) =
    let through = derivative c b in
    let inside = join_seq (derivative c a) b in
    if nullable a then join_alt inside through else inside
derivative c (alt a b) = join_alt (derivative c a) (derivative c b)
derivative c (star a) = join_seq (derivative c a) (star a)

unfoldable pub match_string : Regex → Bytes → Bool
unfolding nullable derivative
match_string r [] = nullable r
match_string r (c ∷ s) = match_string (derivative c r) s
