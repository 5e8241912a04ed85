-- ===== src/Tokenize/Examples.antt =====
-- Runs of the scanner, and the theorems at concrete lines.
use hunch.Base.{◌≡◌, refl, inl, [], ◌∷◌, List, codes, arith}
use hunch.Tokenize.{tokenize}
use hunch.Tokenize.Grammar.{Item, piece, blank, operator, single, bare, and_then, spell, tokens_of}
use hunch.Tokenize.Quoting.{tokenize-spell}

redirect :
    tokenize (codes "make 2>&1|tee 'a b'\"c\"&&x;y||z")
    ≡ codes "make"
      ∷ codes "2>&1"
      ∷ codes "|"
      ∷ codes "tee"
      ∷ codes "a bc"
      ∷ codes "&&"
      ∷ codes "x"
      ∷ codes ";"
      ∷ codes "y"
      ∷ codes "||"
      ∷ codes "z"
      ∷ []
unfolding tokenize
redirect = refl

-- l 'a b'&&l
abbrev line : List Item
line =
    piece (bare b'l' (omega arith))
    ∷ blank b' ' (inl refl)
    ∷ piece (single (codes "a b") (omega arith))
    ∷ operator and_then
    ∷ piece (bare b'l' (omega arith))
    ∷ []

tokenize-spell_example : tokenize (spell line) ≡ tokens_of [] line
tokenize-spell_example = tokenize-spell line tt
