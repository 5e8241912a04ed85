-- ===== src/Unwrap/Examples.antt =====
-- Runs on the inputs of unwrap_test.go, and the theorems at concrete commands.
use hunch.Base.{
  ◌≡◌, ◌≢◌, refl, ◌≤◌, ◌<◌, true, false, List, [], ◌∷◌, none, some, Bytes, codes, bytes_eq, length,
  contains, arith,
}
use hunch.Tokenize.{tokenize}
use hunch.Unwrap.{unwrap_prefix_tokens, is_env_assignment, is_flag, wrapper_command_index}
use hunch.Unwrap.Index.{wrapper_command_index_bounds}
use hunch.Unwrap.Suffix.{IsUnwrapped, unwrap_complete}
use hunch.Unwrap.Wrappers.{WrapperConfig, wrapper_config}
use hunch.Unwrap.Options.{unwrap-wrapper, Arguments, none_left, variable}

nested :
    unwrap_prefix_tokens
      (tokenize (codes "A=1 sudo -u root env FOO=bar -- nice -n 5 flock -x /l -c make all"))
    ≡ codes "make" ∷ codes "all" ∷ []
unfolding tokenize unwrap_prefix_tokens bytes_eq
nested = refl

only_assignments :
    unwrap_prefix_tokens (tokenize (codes "env FOO=bar BAZ=qux"))
    ≡ codes "env" ∷ codes "FOO=bar" ∷ codes "BAZ=qux" ∷ []
unfolding tokenize unwrap_prefix_tokens bytes_eq
only_assignments = refl

chroot_path :
    unwrap_prefix_tokens (tokenize (codes "chroot --userspec=a /mnt ls -l"))
    ≡ codes "ls" ∷ codes "-l" ∷ []
unfolding tokenize unwrap_prefix_tokens bytes_eq
chroot_path = refl

abbrev sudo_line : List Bytes
sudo_line = codes "sudo" ∷ codes "make" ∷ []

unwrap_complete_example : IsUnwrapped (unwrap_prefix_tokens sudo_line)
unwrap_complete_example = unwrap_complete sudo_line

sudo_index : wrapper_command_index sudo_line ≡ some 1
unfolding wrapper_command_index bytes_eq contains is_env_assignment is_flag wrapper_config
sudo_index = refl

wrapper_command_index_bounds_example : (1 ≤ 1) × (1 < length sudo_line)
wrapper_command_index_bounds_example = wrapper_command_index_bounds sudo_line sudo_index

abbrev env_config : WrapperConfig
env_config = record {
  skip_flags = false;
  short_flag_value = false;
  long_flag_value = none;
  skip_env_assignment = true;
  honor_double_dash = true;
  positional_skip = 0;
}

env_configured : wrapper_config (codes "env") ≡ some env_config
unfolding wrapper_config bytes_eq
env_configured = refl

env-Arguments : Arguments env_config 0 (codes "A=1" ∷ []) 0
unfolding is_flag is_env_assignment
env-Arguments = variable (codes "A=1") refl refl refl none_left

env_not_flock : codes "env" ≢ codes "flock"
env_not_flock = cc

not_assignment :
    (is_env_assignment (codes "env") ≡ false)
    × (is_env_assignment (codes "make") ≡ false)
    × (is_flag (codes "make") ≡ false)
unfolding is_env_assignment is_flag
not_assignment = (refl, refl, refl)

unwrap-wrapper_example :
    unwrap_prefix_tokens (codes "env" ∷ codes "A=1" ∷ codes "make" ∷ codes "all" ∷ [])
    ≡ unwrap_prefix_tokens (codes "make" ∷ codes "all" ∷ [])
unwrap-wrapper_example =
    unwrap-wrapper (codes "env") (codes "make") env_config (codes "all" ∷ []) env_configured
      env_not_flock not_assignment.0 env-Arguments (omega arith) not_assignment.2 not_assignment.1
