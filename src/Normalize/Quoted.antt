-- ===== src/Normalize/Quoted.antt =====
-- An operator inside quotes is taken for the operator.
use hunch.Base.{◌≡◌, ◌≢◌, refl, sym, ap, ◌∙◌, inl, List, [], ◌∷◌, ◌++◌, Option, Bytes, All, arith}
use hunch.Tokenize.Grammar.{
  Item, piece, blank, operator, single, Operator, pipe, or_else, and_then, semicolon,
  spell_operator, spell, tokens_of, word_of, piece_value, IsUnambiguous,
}
use hunch.Tokenize.Quoting.{tokenize-spell}
use hunch.Normalize.{normalize, normalize_tokens, parents_or_default}

pub operator_unquoted : (o : Operator) → All (λ c. c ≢ b'\'') (spell_operator o)
operator_unquoted pipe = omega arith
operator_unquoted or_else = omega arith
operator_unquoted and_then = omega arith
operator_unquoted semicolon = omega arith

abbrev pub space : Item
space = blank b' ' (inl refl)

-- The operator between single quotes, as a word of its own.
abbrev pub quoted : Operator → Item
quoted o = piece (single (spell_operator o) (operator_unquoted o))

word_of-operator : (o : Operator) → word_of (spell_operator o) ≡ spell_operator o ∷ []
word_of-operator pipe = refl
word_of-operator or_else = refl
word_of-operator and_then = refl
word_of-operator semicolon = refl

tokens-quoted :
    (o : Operator) (xs ys : List Item) (cur : Bytes)
    → tokens_of cur (xs ++ space ∷ quoted o ∷ space ∷ ys)
      ≡ tokens_of cur (xs ++ space ∷ operator o ∷ space ∷ ys)
tokens-quoted o [] ys cur =
    ap (λ (l : List Bytes). word_of cur ++ (l ++ tokens_of [] ys)) (word_of-operator o)
tokens-quoted o (piece p ∷ xs) ys cur = tokens-quoted o xs ys (cur ++ piece_value p)
tokens-quoted o (blank c h ∷ xs) ys cur =
    ap (λ (l : List Bytes). word_of cur ++ l) (tokens-quoted o xs ys [])
tokens-quoted o (operator p ∷ xs) ys cur =
    ap (λ (l : List Bytes). word_of cur ++ spell_operator p ∷ l) (tokens-quoted o xs ys [])

-- A word that is an operator in single quotes gives the same template as the bare operator, with
-- any text around it: the quotes that would make it an argument are lost before the split.
pub normalize-quoted_operator :
    (o : Operator) (xs ys : List Item) (parents : Option (List Bytes))
    → IsUnambiguous (xs ++ space ∷ quoted o ∷ space ∷ ys)
    → IsUnambiguous (xs ++ space ∷ operator o ∷ space ∷ ys)
    → normalize (spell (xs ++ space ∷ quoted o ∷ space ∷ ys)) parents
      ≡ normalize (spell (xs ++ space ∷ operator o ∷ space ∷ ys)) parents
unfolding normalize
normalize-quoted_operator o xs ys parents h k =
    ap (λ (l : List Bytes). normalize_tokens l (parents_or_default parents))
      (tokenize-spell (xs ++ space ∷ quoted o ∷ space ∷ ys) h
        ∙ tokens-quoted o xs ys []
        ∙ sym (tokenize-spell (xs ++ space ∷ operator o ∷ space ∷ ys) k))
