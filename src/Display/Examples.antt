-- ===== src/Display/Examples.antt =====
-- Runs on inputs of runnable_test.go.
use hunch.Base.{◌≡◌, refl, [], codes, bytes_eq, contains, is_ascii_space}
use hunch.Display.{is_placeholder, fields, display_command}

hidden : display_command [] (codes "git commit FLAG STR") ≡ []
unfolding display_command fields is_placeholder contains bytes_eq is_ascii_space
hidden = refl
