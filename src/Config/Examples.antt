-- ===== src/Config/Examples.antt =====
-- The theorems and runs at concrete environments.
use hunch.Base.{◌≡◌, refl, [], none, some, codes, bytes_eq, if◌then◌else◌}
use hunch.Floats.Examples.{naturals}
use hunch.Config.Numbers.{negsuc, atoi}
use hunch.Config.{Platform, defaults, load_config}

abbrev platform : Platform naturals
platform = record {
  env = λ name.
      if bytes_eq name (codes "HUNCH_MIN_COUNT")
      then codes "0"
      else if bytes_eq name (codes "HUNCH_HALF_LIFE_HOURS")
      then codes "24"
      else [];
  cache_dir = some (codes "/home/u/.cache");
  data_dir = none;
  parse_float = λ v. none;
}

half_life_read : (load_config naturals platform (λ o. o)).half_life_hours ≡ 24
unfolding load_config atoi bytes_eq
half_life_read = refl

min_count_kept : (load_config naturals platform (λ o. o)).min_count ≡ 2
unfolding load_config defaults atoi bytes_eq
min_count_kept = refl

socket_found : (load_config naturals platform (λ o. o)).socket ≡ codes "/home/u/.cache/hunch.sock"
unfolding load_config defaults bytes_eq
socket_found = refl

atoi_signed : atoi (codes "-12") ≡ some (negsuc 11)
unfolding atoi
atoi_signed = refl
