-- ===== src/Config/Numbers.antt =====
-- strconv.Atoi, as the program reads numbers with it: a sign and decimal digits within 64 bits.
use hunch.Base.{
  ℕ, ◌+◌, ◌-◌, ◌*◌, ◌&&◌, [], ◌∷◌, Option, none, some, Bytes, ◌==◌, ltb, leb, if◌then◌else◌,
}

-- `negsuc n` is -(n + 1).
pub data ℤ : Type 0 where
  pos : ℕ → ℤ
  negsuc : ℕ → ℤ

read_digits : ℕ → Bytes → Option ℕ
read_digits n [] = some n
read_digits n (c ∷ s) =
    let rest = read_digits (n * 10 + (c - b'0')) s in
    if leb b'0' c && leb c b'9' then rest else none

read_decimal : Bytes → Option ℕ
unfolding read_digits
read_decimal [] = none
read_decimal (c ∷ s) = read_digits 0 (c ∷ s)

positive : Option ℕ → Option ℤ
positive none = none
positive (some n) = if ltb n 9223372036854775808 then some (pos n) else none

negative : Option ℕ → Option ℤ
negative none = none
negative (some n) =
    if n == 0
    then some (pos 0)
    else if leb n 9223372036854775808
    then some (negsuc (n - 1))
    else none

unfoldable pub atoi : Bytes → Option ℤ
unfolding read_decimal positive negative
atoi [] = none
atoi (c ∷ s) =
    if c == b'-'
    then negative (read_decimal s)
    else if c == b'+'
    then positive (read_decimal s)
    else positive (read_decimal (c ∷ s))
