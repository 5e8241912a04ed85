-- ===== src/Daemon/Filters.antt =====
-- daemon/handlers.go, withMinCount, and daemon/daemon.go, filterByPrefix and suppressCdToCurrent:
-- the tests that suggestions pass on their way out.
pub mod Order
use hunch.Base.{
  ℕ, Bool, true, false, not, ◌&&◌, ◌||◌, List, [], ◌∷◌, ◌++◌, Bytes, codes, ltb, leb, if◌then◌else◌,
  bytes_eq, starts_with, drop, length,
}
use hunch.Floats.{Float64}
use hunch.Normalize.{normalize}
use hunch.Predict.{Suggestion}
use hunch.Base.{Option, some}
use hunch.Daemon.Paths.{trim_space}

-- strings.HasSuffix
unfoldable pub ends_with : Bytes → Bytes → Bool
ends_with suffix [] = bytes_eq suffix []
ends_with suffix (c ∷ s) = bytes_eq suffix (c ∷ s) || ends_with suffix s

-- strings.TrimPrefix
trim_prefix : Bytes → Bytes → Bytes
trim_prefix prefix s = if starts_with prefix s then drop (length prefix) s else s

cd_target : Bytes → Bytes
unfolding trim_prefix trim_space
cd_target raw = trim_space (trim_prefix (codes "cd ") raw)

module _ (fl : Float64) where
  unfoldable pub keep_counted : ℕ → List (Suggestion fl) → List (Suggestion fl)
  keep_counted min_count [] = []
  keep_counted min_count (s ∷ sugs) =
      let rest = keep_counted min_count sugs in if leb min_count s.count then s ∷ rest else rest

  unfoldable pub with_min_count : List (Suggestion fl) → ℕ → List (Suggestion fl)
  unfolding keep_counted
  with_min_count sugs min_count = if leb min_count 1 then sugs else keep_counted min_count sugs

  unfoldable pub keep_prefixed : Bytes → List (Suggestion fl) → List (Suggestion fl)
  keep_prefixed norm_prefix [] = []
  keep_prefixed norm_prefix (s ∷ sugs) =
      let rest = keep_prefixed norm_prefix sugs in
      if starts_with norm_prefix s.template then s ∷ rest else rest

  unfoldable pub filter_by_prefix : List (Suggestion fl) → Bytes → List Bytes → List (Suggestion fl)
  unfolding keep_prefixed normalize
  filter_by_prefix sugs prefix parents = keep_prefixed (normalize prefix (some parents)) sugs

  -- `s` goes to the directory that the shell is in.
  unfoldable pub goes_nowhere : Bytes → Suggestion fl → Bool
  unfolding cd_target ends_with
  goes_nowhere cwd s =
      let target = cd_target s.raw in
      bytes_eq s.template (codes "cd PATH")
      && (not (bytes_eq s.raw [])
          && (bytes_eq target (codes ".")
              || (ends_with (codes "/" ++ target) cwd || bytes_eq cwd target)))

  unfoldable pub keep_moving : Bytes → List (Suggestion fl) → List (Suggestion fl)
  unfolding goes_nowhere
  keep_moving cwd [] = []
  keep_moving cwd (s ∷ sugs) =
      let rest = keep_moving cwd sugs in if goes_nowhere cwd s then rest else s ∷ rest

  unfoldable pub suppress_cd_to_current : List (Suggestion fl) → Bytes → List (Suggestion fl)
  unfolding keep_moving
  suppress_cd_to_current sugs cwd = elim cwd [ [] ↦ sugs | c ∷ cs ↦ keep_moving (c ∷ cs) sugs ]
