-- ===== src/Tokenize/Grammar.antt =====
-- What `Tokenize` promises to read: command lines as words, operators and blanks, independent of
-- the scanner. A word is a run of pieces, each with its spelling and the bytes it stands for.
use hunch.Base.{ℕ, ◌≢◌, ◌≡◌, List, [], ◌∷◌, ◌++◌, Bytes, codes, All, ◌⊎◌}

-- Bytes with no meaning to the scanner outside quotes.
abbrev pub IsBare : ℕ → Type 0
IsBare c =
    (c ≢ b'\\')
    × (c ≢ b'\'')
    × (c ≢ b'"')
    × (c ≢ b' ')
    × (c ≢ b'\t')
    × (c ≢ b'\n')
    × (c ≢ b'\r')
    × (c ≢ b'|')
    × (c ≢ b'&')
    × (c ≢ b';')

abbrev pub IsBlank : ℕ → Type 0
IsBlank c = (c ≡ b' ') ⊎ (c ≡ b'\t') ⊎ (c ≡ b'\n') ⊎ (c ≡ b'\r')

-- One unit between double quotes: a byte as it is, or any byte behind a backslash.
pub data Inner : Type 0 where
  raw : (c : ℕ) → c ≢ b'\\' → c ≢ b'"' → Inner
  escape : ℕ → Inner

abbrev pub spell_inner : List Inner → Bytes
spell_inner [] = []
spell_inner (raw c _ _ ∷ ds) = c ∷ spell_inner ds
spell_inner (escape c ∷ ds) = b'\\' ∷ c ∷ spell_inner ds

abbrev pub inner_value : List Inner → Bytes
inner_value [] = []
inner_value (raw c _ _ ∷ ds) = c ∷ inner_value ds
inner_value (escape c ∷ ds) = c ∷ inner_value ds

-- `amp` is a single & with a bare byte behind it, as in 2>&1.
pub data Piece : Type 0 where
  bare : (c : ℕ) → IsBare c → Piece
  amp : (c : ℕ) → IsBare c → Piece
  backslash : ℕ → Piece
  single : (s : Bytes) → All (λ c. c ≢ b'\'') s → Piece
  double : List Inner → Piece

abbrev pub spell_piece : Piece → Bytes
spell_piece (bare c _) = c ∷ []
spell_piece (amp c _) = b'&' ∷ c ∷ []
spell_piece (backslash c) = b'\\' ∷ c ∷ []
spell_piece (single s _) = b'\'' ∷ (s ++ b'\'' ∷ [])
spell_piece (double ds) = b'"' ∷ (spell_inner ds ++ b'"' ∷ [])

abbrev pub piece_value : Piece → Bytes
piece_value (bare c _) = c ∷ []
piece_value (amp c _) = b'&' ∷ c ∷ []
piece_value (backslash c) = c ∷ []
piece_value (single s _) = s
piece_value (double ds) = inner_value ds

pub data Operator : Type 0 where
  pipe or_else and_then semicolon : Operator

abbrev pub spell_operator : Operator → Bytes
spell_operator pipe = codes "|"
spell_operator or_else = codes "||"
spell_operator and_then = codes "&&"
spell_operator semicolon = codes ";"

pub data Item : Type 0 where
  piece : Piece → Item
  blank : (c : ℕ) → IsBlank c → Item
  operator : Operator → Item

abbrev pub spell_item : Item → Bytes
spell_item (piece p) = spell_piece p
spell_item (blank c _) = c ∷ []
spell_item (operator o) = spell_operator o

abbrev pub spell : List Item → Bytes
spell [] = []
spell (x ∷ xs) = spell_item x ++ spell xs

-- A finished word; one that stands for no bytes, such as '', is dropped.
abbrev pub word_of : Bytes → List Bytes
word_of [] = []
word_of (c ∷ w) = (c ∷ w) ∷ []

-- The tokens of a line, behind the bytes `cur` of a word that has begun.
abbrev pub tokens_of : Bytes → List Item → List Bytes
tokens_of cur [] = word_of cur
tokens_of cur (piece p ∷ xs) = tokens_of (cur ++ piece_value p) xs
tokens_of cur (blank _ _ ∷ xs) = word_of cur ++ tokens_of [] xs
tokens_of cur (operator o ∷ xs) = word_of cur ++ spell_operator o ∷ tokens_of [] xs

-- Two pipes side by side would be read as one ||, so something stands between them.
abbrev NotPipe : List Item → Type 0
NotPipe (operator pipe ∷ xs) = ⊥
NotPipe (operator or_else ∷ xs) = ⊥
NotPipe _ = Unit {0}

abbrev pub IsUnambiguous : List Item → Type 0
IsUnambiguous [] = Unit
IsUnambiguous (operator pipe ∷ xs) = NotPipe xs × IsUnambiguous xs
IsUnambiguous (_ ∷ xs) = IsUnambiguous xs
