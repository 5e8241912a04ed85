-- ===== src/Redact/Examples.antt =====
-- Runs on inputs of redact_test.go, and the theorems at concrete commands.
use hunch.Base.{◌≡◌, refl, inl, inr, Bool, [], ◌∷◌, ◌++◌, Option, none, true, false, Bytes, codes}
use hunch.Regex.{match_string}
use hunch.Regex.Build.{is_digit, is_lower, is_upper, is_space}
use hunch.Redact.{to_lower, new, is_sensitive}
use hunch.Redact.Coverage.{sensitive_flag, sensitive_assignment}

flags :
    (is_sensitive (new (λ _. none) []) (codes "mysql --Password=hunter2 db") ≡ true)
    × (is_sensitive (new (λ _. none) []) (codes "export GH_TOKEN=abc") ≡ true)
    × (is_sensitive (new (λ _. none) []) (codes "curl -u me:pw http://x") ≡ true)
    × (is_sensitive (new (λ _. none) []) (codes "git commit -m \"fix password bug\"") ≡ false)
unfolding new is_sensitive match_string is_digit is_lower is_upper is_space to_lower
flags = (refl, refl, refl, refl)

abbrev no_compiler : Bytes → Option (Bytes → Bool)
no_compiler p = none

blank_is_space : is_space b' ' ≡ true
unfolding is_space
blank_is_space = refl

letter_not_space : is_space b'h' ≡ false
unfolding is_space
letter_not_space = refl

sensitive_flag_example :
    is_sensitive (new no_compiler []) (
      codes "mysql "
      ++ (codes "--" ++ (codes "pass" ++ ((codes "=" ++ b'h' ∷ []) ++ codes "unter2"))))
    ≡ true
sensitive_flag_example =
    sensitive_flag no_compiler [] (codes "mysql ") (codes "--") (codes "pass") (codes "=") b'h'
      (codes "unter2") (inr (codes "mysql", b' ', blank_is_space, refl)) (inr refl)
      (inr (inr (inl refl))) (inl refl) letter_not_space

sensitive_assignment_example :
    is_sensitive
      (new no_compiler [])
      ([] ++ ([] ++ (codes "TOKEN" ++ ([] ++ ([] ++ b'=' ∷ ([] ++ b'h' ∷ codes "x"))))))
    ≡ true
unfolding to_lower
sensitive_assignment_example =
    sensitive_assignment no_compiler [] [] [] (codes "TOKEN") [] [] [] b'h' (codes "x") (inl refl)
      tt (inr (inl refl)) tt tt tt letter_not_space
