-- ===== src/Redact/Coverage.antt =====
-- Commands that the built-in patterns catch, whatever stands around the secret.
use hunch.Base.{
  ℕ, ◌≡◌, refl, ◌⊎◌, inl, inr, Bool, true, false, ◌||◌, List, [], ◌∷◌, ◌++◌, Option, some, zero,
  suc, get_elem?, Bytes, codes, All, map, arith, ◌==◌,
}
use hunch.Regex.{
  Regex, empty, one, seq, alt, star, Matches, empty_text, one_byte, in_sequence, left, right, stop,
  more, match_string,
}
use hunch.Regex.Build.{anything, byte, one_of, is_digit, is_lower, is_upper, is_space}
use hunch.Regex.Decides.{match_string_iff}
use hunch.Redact.{
  to_lower, word, at_word_start, secret_names, secret_name, assignment_pattern, flag_names,
  flag_name, flag_value, flag_pattern, new, is_sensitive, match_any,
}

-- A place where a word can begin: the start of the text, or behind white space.
abbrev pub WordStart : Bytes → Type 0
WordStart front =
    (front ≡ []) ⊎ ((f : Bytes) × (b : ℕ) × (is_space b ≡ true) × (front ≡ f ++ b ∷ []))

-- `t` is one of the words, in upper or lower case.
abbrev pub IsWord : List Bytes → Bytes → Type 0
IsWord [] t = ⊥
IsWord (w ∷ ws) t = (map to_lower t ≡ map to_lower w) ⊎ IsWord ws t

anything-Matches : (s : Bytes) → Matches anything s
anything-Matches [] = stop refl
anything-Matches (c ∷ s) = more (c ∷ []) s (one_byte c refl refl) (anything-Matches s) refl

star-Matches : (p : ℕ → Bool) (s : Bytes) → All (λ c. p c ≡ true) s → Matches (star (one p)) s
star-Matches p [] h = stop refl
star-Matches p (c ∷ s) (hc, hs) = more (c ∷ []) s (one_byte c hc refl) (star-Matches p s hs) refl

word-Matches : (w s : Bytes) → map to_lower s ≡ map to_lower w → Matches (word w) s
word-Matches [] [] h = empty_text refl
word-Matches [] (c ∷ s) h = absurd (cc)
word-Matches (b ∷ w) [] h = absurd (cc)
word-Matches (b ∷ w) (c ∷ s) h =
    let head : to_lower c ≡ to_lower b = cc in
    let tail : map to_lower s ≡ map to_lower w = cc in
    in_sequence (c ∷ []) s (one_byte c (ground (arith, head)) refl) (word-Matches w s tail) refl

one_of-Matches :
    (rs : List Regex) (n : ℕ) {r : Regex} {s : Bytes}
    → get_elem? rs n ≡ some r
    → Matches r s
    → Matches (one_of rs) s
one_of-Matches [] n e m = absurd (cc)
one_of-Matches (r ∷ rs) zero e m = let same : _ ≡ r = cc in left (rw (← same) m)
one_of-Matches (r ∷ rs) (suc n) e m = right (one_of-Matches rs n e m)

WordStart-Matches : (front : Bytes) → WordStart front → Matches at_word_start front
WordStart-Matches front (inl e) = left (empty_text e)
WordStart-Matches front (inr w) =
    let (f, b, h, e) = w in
    right (in_sequence f (b ∷ []) (anything-Matches f) (one_byte b h refl) e)

sensitive_of_match :
    (p : Regex) (compile : Bytes → Option (Bytes → Bool)) (extra : List Bytes) {raw : Bytes}
    → (p ≡ assignment_pattern) ⊎ (p ≡ flag_pattern)
    → Matches p raw
    → is_sensitive (new compile extra) raw ≡ true
unfolding is_sensitive new
sensitive_of_match p compile extra {raw} (inl e) m =
    let hit : match_string assignment_pattern raw ≡ true =
      (match_string_iff assignment_pattern raw).1 (rw e at m) in
    rw (hit, match_any)
sensitive_of_match p compile extra {raw} (inr e) m =
    let hit : match_string flag_pattern raw ≡ true =
      (match_string_iff flag_pattern raw).1 (rw e at m) in
    ground (arith, hit)

abbrev pub IsSpaces : Bytes → Type 0
IsSpaces = All (λ c. is_space c ≡ true)

-- What stands between a flag and its value: an equals sign, or white space.
abbrev pub FlagSeparator : Bytes → Type 0
FlagSeparator sep =
    (sep ≡ codes "=") ⊎ ((b : ℕ) × (s : Bytes) × (is_space b ≡ true) × IsSpaces s × (sep ≡ b ∷ s))

abbrev pub Dashes : Bytes → Type 0
Dashes d = (d ≡ codes "-") ⊎ (d ≡ codes "--")

abbrev pub flag_keywords : List Bytes
flag_keywords =
    codes "password"
    ∷ codes "passwd"
    ∷ codes "pass"
    ∷ codes "token"
    ∷ codes "secret"
    ∷ codes "auth"
    ∷ []

flag_name-Matches : (kw : Bytes) → IsWord flag_keywords kw → Matches flag_name kw
flag_name-Matches kw (inl e) =
    one_of-Matches flag_names 0 refl (word-Matches (codes "password") kw e)
flag_name-Matches kw (inr (inl e)) =
    one_of-Matches flag_names 1 refl (word-Matches (codes "passwd") kw e)
flag_name-Matches kw (inr (inr (inl e))) =
    one_of-Matches flag_names 2 refl (word-Matches (codes "pass") kw e)
flag_name-Matches kw (inr (inr (inr (inl e)))) =
    one_of-Matches flag_names 3 refl (word-Matches (codes "token") kw e)
flag_name-Matches kw (inr (inr (inr (inr (inl e))))) =
    one_of-Matches flag_names 4 refl (word-Matches (codes "secret") kw e)
flag_name-Matches kw (inr (inr (inr (inr (inr (inl e)))))) =
    one_of-Matches flag_names 6 refl (word-Matches (codes "auth") kw e)
flag_name-Matches kw (inr (inr (inr (inr (inr (inr h)))))) = absurd h

flag_value-Matches :
    (sep : Bytes) (c : ℕ)
    → FlagSeparator sep
    → is_space c ≡ false
    → Matches flag_value (sep ++ c ∷ [])
flag_value-Matches sep c (inl e) h =
    left (in_sequence sep (c ∷ []) (rw e (one_byte b'=' refl refl)) (one_byte c (rw h) refl) refl)
flag_value-Matches sep c (inr w) h =
    let (b, s, hb, hs, e) = w in
    right (
      in_sequence sep (c ∷ [])
        (in_sequence (b ∷ []) s (one_byte b hb refl) (star-Matches is_space s hs) e)
        (one_byte c (rw h) refl) refl)

Dashes-match :
    (r : Regex) (d s : Bytes)
    → Dashes d
    → Matches r s
    → Matches (seq (byte b'-') (seq (alt empty (byte b'-')) r)) (d ++ s)
Dashes-match r d s (inl e) m = rw e (
    in_sequence (b'-' ∷ []) s (one_byte b'-' refl refl)
      (in_sequence [] s (left (empty_text refl)) m refl) refl)
Dashes-match r d s (inr e) m = rw e (
    in_sequence (b'-' ∷ []) (b'-' ∷ s) (one_byte b'-' refl refl)
      (in_sequence (b'-' ∷ []) s (right (one_byte b'-' refl refl)) m refl) refl)

-- A flag -password, --token and so on, in any case, that begins a word and has a value behind an
-- equals sign or white space makes a command sensitive, whatever else it holds and whatever extra
-- patterns the user has. The words are password, passwd, pass, token, secret and auth.
pub sensitive_flag :
    (compile : Bytes → Option (Bytes → Bool)) (extra : List Bytes) (front dashes kw sep : Bytes)
    (c : ℕ) (rest : Bytes)
    → WordStart front
    → Dashes dashes
    → IsWord flag_keywords kw
    → FlagSeparator sep
    → is_space c ≡ false
    → is_sensitive (new compile extra) (front ++ (dashes ++ (kw ++ ((sep ++ c ∷ []) ++ rest))))
      ≡ true
sensitive_flag compile extra front dashes kw sep c rest hf hd hk hs hc =
    sensitive_of_match flag_pattern compile extra (inr refl) (
      in_sequence front _ (WordStart-Matches front hf)
        (Dashes-match _ dashes _ hd (
          in_sequence kw _ (flag_name-Matches kw hk)
            (in_sequence (sep ++ c ∷ []) rest (flag_value-Matches sep c hs hc)
              (anything-Matches rest) refl)
            refl))
        refl)

abbrev pub IsNameByte : ℕ → Type 0
IsNameByte c = (is_upper c || is_lower c || is_digit c || c == b'_') ≡ true

abbrev pub secret_keywords : List Bytes
secret_keywords =
    codes "SECRET" ∷ codes "TOKEN" ∷ codes "PASSWORD" ∷ codes "PASSWD" ∷ codes "CREDENTIAL" ∷ []

secret_name-Matches : (kw : Bytes) → IsWord secret_keywords kw → Matches secret_name kw
secret_name-Matches kw (inl e) =
    one_of-Matches secret_names 0 refl (word-Matches (codes "SECRET") kw e)
secret_name-Matches kw (inr (inl e)) =
    one_of-Matches secret_names 1 refl (word-Matches (codes "TOKEN") kw e)
secret_name-Matches kw (inr (inr (inl e))) =
    one_of-Matches secret_names 2 refl (word-Matches (codes "PASSWORD") kw e)
secret_name-Matches kw (inr (inr (inr (inl e)))) =
    one_of-Matches secret_names 3 refl (word-Matches (codes "PASSWD") kw e)
secret_name-Matches kw (inr (inr (inr (inr (inl e))))) =
    one_of-Matches secret_names 7 refl (word-Matches (codes "CREDENTIAL") kw e)
secret_name-Matches kw (inr (inr (inr (inr (inr h))))) = absurd h

-- An assignment to a variable whose name holds SECRET, TOKEN, PASSWORD, PASSWD or CREDENTIAL, in
-- any case, between letters, digits and underscores, makes a command sensitive when the name
-- begins a word and a value follows; white space around the equals sign does not hide it.
pub sensitive_assignment :
    (compile : Bytes → Option (Bytes → Bool)) (extra : List Bytes)
    (front before kw after gap gap' : Bytes) (c : ℕ) (rest : Bytes)
    → WordStart front
    → All IsNameByte before
    → IsWord secret_keywords kw
    → All IsNameByte after
    → IsSpaces gap
    → IsSpaces gap'
    → is_space c ≡ false
    → is_sensitive
        (new compile extra)
        (front ++ (before ++ (kw ++ (after ++ (gap ++ b'=' ∷ (gap' ++ c ∷ rest))))))
      ≡ true
sensitive_assignment compile extra front before kw after gap gap' c rest hf hb hk ha hg hg' hc =
    sensitive_of_match assignment_pattern compile extra (inl refl) (
      in_sequence front _ (WordStart-Matches front hf)
        (in_sequence before _ (star-Matches _ before hb)
          (in_sequence kw _ (secret_name-Matches kw hk)
            (in_sequence after _ (star-Matches _ after ha)
              (in_sequence gap _ (star-Matches is_space gap hg)
                (in_sequence (b'=' ∷ []) _ (one_byte b'=' refl refl)
                  (in_sequence gap' _ (star-Matches is_space gap' hg')
                    (in_sequence (c ∷ []) rest (one_byte c (rw hc) refl) (anything-Matches rest)
                      refl)
                    refl)
                  refl)
                refl)
              refl)
            refl)
          refl)
        refl)
