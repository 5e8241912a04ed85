-- ===== src/Redact/Restraint.antt =====
-- Commands that the built-in patterns leave alone, and what extra patterns may change.
use hunch.Base.{
  ℕ, ◌≡◌, refl, sym, ◌∙◌, inl, inr, Bool, true, false, ◌||◌, false≢true, List, [], ◌∷◌, ◌++◌,
  Option, none, some, Bytes, arith, ◌==◌, any, map, Bool-cases,
}
use hunch.Regex.{Regex, empty, one, seq, alt, star, Matches, left, right, in_sequence, match_string}
use hunch.Regex.Build.{byte}
use hunch.Regex.Decides.{match_string_iff, seq_parts, one_parts}
use hunch.Redact.{
  to_lower, either_case, assignment_pattern, flag_pattern, header_pattern, user_pattern, new,
  is_sensitive, match_any, builtin_patterns, compile_extra,
}

-- The bytes that tie a secret to a name: = of an assignment, - of a flag, : of a header.
abbrev pub is_marker : ℕ → Bool
is_marker c = c == b'=' || c == b'-' || c == b':'

any-append : (p : ℕ → Bool) (u v : Bytes) → any p (u ++ v) ≡ (any p u || any p v)
any-append p [] v = refl
any-append p (c ∷ u) v = ground (arith, any-append p u v)

-- Every text of the language holds a marker.
record Needs (r : Regex) : Type 0 where
  holds : (s : Bytes) → Matches r s → any is_marker s ≡ true

Needs-one : (p : ℕ → Bool) → ((c : ℕ) → p c ≡ true → is_marker c ≡ true) → Needs (one p)
Needs-one p h = record {
  holds = λ s m. let (c, pc, e) = one_parts m in rw e (ground (arith, h c pc));
}

Needs-left : (a b : Regex) → Needs a → Needs (seq a b)
Needs-left a b n = record {
  holds = λ s m.
      let (u, v, ma, mb, e) = seq_parts m in rw (e, any-append) (ground (arith, n.holds u ma));
}

Needs-right : (a b : Regex) → Needs b → Needs (seq a b)
Needs-right a b n = record {
  holds = λ s m.
      let (u, v, ma, mb, e) = seq_parts m in rw (e, any-append) (ground (arith, n.holds v mb));
}

Needs-equals : Needs (byte b'=')
Needs-equals = Needs-one _ (λ c h. ground arith)

Needs-dash : Needs (byte b'-')
Needs-dash = Needs-one _ (λ c h. ground arith)

Needs-colon : Needs (either_case b':')
Needs-colon =
    Needs-one (λ c. to_lower c == to_lower b':')
      (λ c h. unfold to_lower hunch.Regex.Build.is_upper in ground arith)

ruleset needs = (Needs-left, Needs-right, Needs-equals, Needs-dash, Needs-colon)

Needs-assignment : Needs assignment_pattern
Needs-assignment = search needs depth 9

Needs-flag : Needs flag_pattern
Needs-flag = search needs

Needs-header : Needs header_pattern
Needs-header = search needs depth 20

Needs-user : Needs user_pattern
Needs-user = search needs

not_matched :
    (r : Regex) (raw : Bytes) → Needs r → any is_marker raw ≡ false → match_string r raw ≡ false
not_matched r raw n h = elim (Bool-cases (match_string r raw)) [
  | inr e ↦ e
  | inl e ↦ absurd (false≢true (sym h ∙ n.holds raw ((match_string_iff r raw).0 e)))
]

-- A command with no equals sign, no dash and no colon is recorded under the built-in patterns,
-- whatever words it holds.
pub plain_command_not_sensitive :
    (compile : Bytes → Option (Bytes → Bool)) (raw : Bytes)
    → any is_marker raw ≡ false
    → is_sensitive (new compile []) raw ≡ false
unfolding is_sensitive new
plain_command_not_sensitive compile raw h = rw (
  not_matched assignment_pattern raw Needs-assignment h,
  not_matched flag_pattern raw Needs-flag h,
  not_matched header_pattern raw Needs-header h,
  not_matched user_pattern raw Needs-user h,
)

-- A user's pattern, if it is not empty and compiles, on a text.
abbrev pub user_match : (Bytes → Option (Bytes → Bool)) → Bytes → Bytes → Bool
user_match compile raw [] = false
user_match compile raw (b ∷ p) = elim (compile (b ∷ p)) [ none ↦ false | some re ↦ re raw ]

match_any-append :
    (xs ys : List (Bytes → Bool)) (raw : Bytes)
    → match_any (xs ++ ys) raw ≡ (match_any xs raw || match_any ys raw)
unfolding match_any
match_any-append [] ys raw = refl
match_any-append (x ∷ xs) ys raw = ground (arith, match_any-append xs ys raw)

match_any-extra :
    (compile : Bytes → Option (Bytes → Bool)) (extra : List Bytes) (raw : Bytes)
    → match_any (compile_extra compile extra) raw ≡ any (user_match compile raw) extra
unfolding match_any compile_extra
match_any-extra compile [] raw = refl
match_any-extra compile ([] ∷ extra) raw = match_any-extra compile extra raw
match_any-extra compile ((b ∷ p) ∷ extra) raw = ground (arith, match_any-extra compile extra raw)

-- A command is sensitive exactly if it is so under the built-in patterns or one of the user's
-- patterns matches it; empty and invalid patterns of the user change nothing, and no pattern of
-- the user can take a built-in one away.
pub is_sensitive-new :
    (compile : Bytes → Option (Bytes → Bool)) (extra : List Bytes) (raw : Bytes)
    → is_sensitive (new compile extra) raw
      ≡ (is_sensitive (new compile []) raw || any (user_match compile raw) extra)
unfolding is_sensitive new
is_sensitive-new compile extra raw =
    let builtin = map match_string builtin_patterns in
    ground (
      arith,
      match_any-append builtin (compile_extra compile extra) raw,
      match_any-append builtin [] raw,
      match_any-extra compile extra raw,
    )
