-- ===== src/Unwrap/Wrappers.antt =====
-- core/normalize/unwrap.go, the tables: how each wrapper command parses its own arguments.
use hunch.Base.{ℕ, Bool, true, false, [], ◌∷◌, Option, none, some, Bytes, codes, contains}
use hunch.Base.Assoc.{Assoc, lookup}

-- `long_flag_value` is nil where no long flag takes a value.
pub record WrapperConfig : Type 0 where
  pub skip_flags : Bool
  pub short_flag_value : Bool
  pub long_flag_value : Option (Bytes → Bool)
  pub skip_env_assignment : Bool
  pub honor_double_dash : Bool
  pub positional_skip : ℕ

is_sudo_flag_with_value : Bytes → Bool
unfolding contains
is_sudo_flag_with_value = contains (
    codes "-u"
    ∷ codes "--user"
    ∷ codes "-g"
    ∷ codes "--group"
    ∷ codes "-p"
    ∷ codes "--prompt"
    ∷ codes "-h"
    ∷ codes "--host"
    ∷ codes "-r"
    ∷ codes "--role"
    ∷ codes "-t"
    ∷ codes "--type"
    ∷ codes "-C"
    ∷ codes "--close-from"
    ∷ codes "-D"
    ∷ codes "--chdir"
    ∷ [])

is_doas_flag_with_value : Bytes → Bool
unfolding contains
is_doas_flag_with_value = contains (
    codes "-u"
    ∷ codes "--user"
    ∷ codes "-g"
    ∷ codes "--group"
    ∷ codes "-p"
    ∷ codes "--prompt"
    ∷ codes "-C"
    ∷ codes "--chdir"
    ∷ [])

is_chroot_flag_with_value : Bytes → Bool
unfolding contains
is_chroot_flag_with_value =
    contains (codes "--userspec" ∷ codes "--groups" ∷ codes "-u" ∷ codes "-g" ∷ [])

is_systemd_flag_with_value : Bytes → Bool
unfolding contains
is_systemd_flag_with_value = contains (
    codes "-p"
    ∷ codes "--property"
    ∷ codes "-P"
    ∷ codes "--pipe"
    ∷ codes "--working-directory"
    ∷ codes "-d"
    ∷ codes "--same-dir"
    ∷ codes "--unit"
    ∷ codes "-u"
    ∷ codes "--uid"
    ∷ codes "-g"
    ∷ codes "--gid"
    ∷ codes "--description"
    ∷ codes "-n"
    ∷ codes "-E"
    ∷ codes "--setenv"
    ∷ codes "-t"
    ∷ codes "--pty"
    ∷ codes "--slice"
    ∷ codes "-r"
    ∷ codes "--remain-after-exit"
    ∷ codes "--send-sighup"
    ∷ codes "--service-type"
    ∷ codes "-q"
    ∷ codes "--quiet"
    ∷ [])

is_watch_flag_with_value : Bytes → Bool
unfolding contains
is_watch_flag_with_value = contains (
    codes "-n"
    ∷ codes "--interval"
    ∷ codes "-p"
    ∷ codes "--precise"
    ∷ codes "-e"
    ∷ codes "--exec"
    ∷ codes "-t"
    ∷ codes "--no-title"
    ∷ codes "-b"
    ∷ codes "--beep"
    ∷ codes "-x"
    ∷ codes "-g"
    ∷ codes "--chgexit"
    ∷ codes "--color"
    ∷ codes "-E"
    ∷ codes "--errexit"
    ∷ [])

is_taskset_flag_with_value : Bytes → Bool
unfolding contains
is_taskset_flag_with_value = contains (codes "--cpu-list" ∷ [])

is_numactl_flag_with_value : Bytes → Bool
unfolding contains
is_numactl_flag_with_value = contains (
    codes "--membind"
    ∷ codes "--cpunodebind"
    ∷ codes "--physcpubind"
    ∷ codes "--interleave"
    ∷ codes "--preferred"
    ∷ codes "--localalloc"
    ∷ codes "--show"
    ∷ codes "--hardware"
    ∷ [])

is_unshare_flag_with_value : Bytes → Bool
unfolding contains
is_unshare_flag_with_value = contains (
    codes "-R"
    ∷ codes "--root"
    ∷ codes "-S"
    ∷ codes "--setuid"
    ∷ codes "--setgroups"
    ∷ codes "--map-user"
    ∷ codes "--map-group"
    ∷ codes "--mount-proc"
    ∷ codes "-C"
    ∷ codes "--cgroup"
    ∷ codes "--propagation"
    ∷ codes "--pid"
    ∷ codes "--time"
    ∷ [])

is_time_flag_with_value : Bytes → Bool
unfolding contains
is_time_flag_with_value = contains (
    codes "-f"
    ∷ codes "--format"
    ∷ codes "-o"
    ∷ codes "--output"
    ∷ codes "-a"
    ∷ codes "--append"
    ∷ [])

-- A Go struct literal leaves the other fields at zero.
abbrev zero_config : WrapperConfig
zero_config = record {
  skip_flags = false;
  short_flag_value = false;
  long_flag_value = none;
  skip_env_assignment = false;
  honor_double_dash = false;
  positional_skip = 0;
}

wrapper_configs : Assoc WrapperConfig
unfolding is_sudo_flag_with_value is_doas_flag_with_value is_chroot_flag_with_value
    is_systemd_flag_with_value is_watch_flag_with_value is_taskset_flag_with_value
    is_numactl_flag_with_value is_unshare_flag_with_value is_time_flag_with_value
wrapper_configs =
    (
      codes "sudo",
      record zero_config {
        skip_flags = true;
        long_flag_value = some is_sudo_flag_with_value;
        skip_env_assignment = true;
        honor_double_dash = true;
      },
    )
    ∷ (
      codes "doas",
      record zero_config {
        skip_flags = true;
        long_flag_value = some is_doas_flag_with_value;
        skip_env_assignment = true;
        honor_double_dash = true;
      },
    )
    ∷ (codes "env", record zero_config { skip_env_assignment = true; honor_double_dash = true })
    ∷ (
      codes "chroot",
      record zero_config {
        skip_flags = true;
        long_flag_value = some is_chroot_flag_with_value;
        honor_double_dash = true;
        positional_skip = 1;
      },
    )
    ∷ (
      codes "systemd-run",
      record zero_config {
        skip_flags = true;
        long_flag_value = some is_systemd_flag_with_value;
        honor_double_dash = true;
      },
    )
    ∷ (
      codes "watch",
      record zero_config {
        skip_flags = true;
        long_flag_value = some is_watch_flag_with_value;
        honor_double_dash = true;
      },
    )
    ∷ (
      codes "nice",
      record zero_config { skip_flags = true; short_flag_value = true; honor_double_dash = true },
    )
    ∷ (
      codes "ionice",
      record zero_config { skip_flags = true; short_flag_value = true; honor_double_dash = true },
    )
    ∷ (
      codes "taskset",
      record zero_config {
        skip_flags = true;
        short_flag_value = true;
        long_flag_value = some is_taskset_flag_with_value;
        honor_double_dash = true;
      },
    )
    ∷ (
      codes "numactl",
      record zero_config {
        skip_flags = true;
        short_flag_value = true;
        long_flag_value = some is_numactl_flag_with_value;
        honor_double_dash = true;
      },
    )
    ∷ (
      codes "prlimit",
      record zero_config { skip_flags = true; short_flag_value = true; honor_double_dash = true },
    )
    ∷ (
      codes "unshare",
      record zero_config {
        skip_flags = true;
        short_flag_value = true;
        long_flag_value = some is_unshare_flag_with_value;
        honor_double_dash = true;
      },
    )
    ∷ (codes "stdbuf", record zero_config { skip_flags = true })
    ∷ (
      codes "time",
      record zero_config {
        skip_flags = true;
        long_flag_value = some is_time_flag_with_value;
        honor_double_dash = true;
      },
    )
    ∷ (codes "exec", zero_config)
    ∷ (codes "fakeroot", zero_config)
    ∷ (codes "nohup", zero_config)
    ∷ (codes "pkexec", zero_config)
    ∷ (codes "setsid", zero_config)
    ∷ (codes "flock", zero_config)
    ∷ []

-- `cfg, ok := wrapperConfigs[tok]`
unfoldable pub wrapper_config : Bytes → Option WrapperConfig
unfolding wrapper_configs lookup
wrapper_config tok = lookup tok wrapper_configs
