-- ===== src/Unwrap/Options.antt =====
-- A wrapper with options unwraps to the command that it runs.
use hunch.Base.{
  ℕ, zero, suc, ◌+◌, ◌≤◌, ◌<◌, ◌≡◌, ◌≢◌, refl, sym, ap, ◌∙◌, Bool, true, false, ◌&&◌, ◌||◌, List,
  [], ◌∷◌, ◌++◌, some, Bytes, codes, arith, length, drop, length-drop, length-append, bytes_eq,
  bytes_eq_iff, ◌==◌,
}
use hunch.Unwrap.{
  flag, flag_with_value, assignment, positional, command, classify_arg, long_flag_takes_value, walk,
  is_flag, is_env_assignment, is_wrapper, double_dash, wrapper_command_index, strip_assignments,
  starts_with_wrapper, strip_wrappers, unwrap_prefix_tokens,
}
use hunch.Unwrap.Wrappers.{WrapperConfig, wrapper_config}
use hunch.Unwrap.Index.{wrapper_command_index_bounds}
use hunch.Unwrap.Suffix.{Round, done, again, round, strip_wrappers_done, strip_wrappers_step}

-- The flag `tok` of a wrapper has its value in the next token.
abbrev pub takes_value : WrapperConfig → Bytes → Bool
takes_value cfg tok =
    long_flag_takes_value cfg.long_flag_value tok || (cfg.short_flag_value && length tok == 2)

-- `ts` is a run of a wrapper's own arguments; the numbers count its positional arguments, before
-- and after the run.
pub data Arguments (cfg : WrapperConfig) : ℕ → List Bytes → ℕ → Type 0 where
  none_left : {k : ℕ} → Arguments cfg k [] k
  switch :
      {k k' : ℕ} {ts : List Bytes} (tok : Bytes)
      → cfg.skip_flags ≡ true
      → is_flag tok ≡ true
      → tok ≢ double_dash
      → takes_value cfg tok ≡ false
      → Arguments cfg k ts k'
      → Arguments cfg k (tok ∷ ts) k'
  option :
      {k k' : ℕ} {ts : List Bytes} (tok value : Bytes)
      → cfg.skip_flags ≡ true
      → is_flag tok ≡ true
      → tok ≢ double_dash
      → takes_value cfg tok ≡ true
      → Arguments cfg k ts k'
      → Arguments cfg k (tok ∷ value ∷ ts) k'
  variable :
      {k k' : ℕ} {ts : List Bytes} (tok : Bytes)
      → cfg.skip_env_assignment ≡ true
      → is_flag tok ≡ false
      → is_env_assignment tok ≡ true
      → Arguments cfg k ts k'
      → Arguments cfg k (tok ∷ ts) k'
  operand :
      {k k' : ℕ} {ts : List Bytes} (tok : Bytes)
      → k < cfg.positional_skip
      → is_flag tok ≡ false
      → is_env_assignment tok ≡ false
      → Arguments cfg (suc k) ts k'
      → Arguments cfg k (tok ∷ ts) k'

module _ (cfg : WrapperConfig) (k : ℕ) (tok : Bytes) where
  bytes_eq-dash_of_not_flag : is_flag tok ≡ false → bytes_eq tok double_dash ≡ false
  bytes_eq-dash_of_not_flag h = not_dash tok h
    where
      not_dash : (t : Bytes) → is_flag t ≡ false → bytes_eq t double_dash ≡ false
      not_dash [] e = unfold bytes_eq in refl
      not_dash (c ∷ t) e = unfold bytes_eq is_flag in ground arith

  classify-switch :
      cfg.skip_flags ≡ true
      → is_flag tok ≡ true
      → tok ≢ double_dash
      → takes_value cfg tok ≡ false
      → classify_arg cfg k tok ≡ flag
  classify-switch s f d t = unfold classify_arg in ground (arith, bytes_eq_iff tok double_dash)

  classify-option :
      cfg.skip_flags ≡ true
      → is_flag tok ≡ true
      → tok ≢ double_dash
      → takes_value cfg tok ≡ true
      → classify_arg cfg k tok ≡ flag_with_value
  classify-option s f d t = unfold classify_arg in ground (arith, bytes_eq_iff tok double_dash)

  classify-variable :
      cfg.skip_env_assignment ≡ true
      → is_flag tok ≡ false
      → is_env_assignment tok ≡ true
      → classify_arg cfg k tok ≡ assignment
  classify-variable s f a = unfold classify_arg in ground (arith, bytes_eq-dash_of_not_flag f)

  classify-operand :
      k < cfg.positional_skip
      → is_flag tok ≡ false
      → is_env_assignment tok ≡ false
      → classify_arg cfg k tok ≡ positional
  classify-operand s f a = unfold classify_arg in ground (arith, bytes_eq-dash_of_not_flag f)

  classify-command :
      cfg.positional_skip ≤ k
      → is_flag tok ≡ false
      → is_env_assignment tok ≡ false
      → classify_arg cfg k tok ≡ command
  classify-command s f a = unfold classify_arg in ground (arith, bytes_eq-dash_of_not_flag f)

  walk-switch :
      (i : ℕ) (l : List Bytes)
      → classify_arg cfg k tok ≡ flag
      → walk cfg k i (tok ∷ l) ≡ walk cfg k (i + 1) l
  unfolding walk
  walk-switch i [] e = rw (e, walk)
  walk-switch i (v ∷ l) e = rw (e, walk)

  walk-option :
      (i : ℕ) (v : Bytes) (l : List Bytes)
      → classify_arg cfg k tok ≡ flag_with_value
      → walk cfg k i (tok ∷ v ∷ l) ≡ walk cfg k (i + 2) l
  unfolding walk
  walk-option i v l e = rw (e, walk)

  walk-variable :
      (i : ℕ) (l : List Bytes)
      → classify_arg cfg k tok ≡ assignment
      → walk cfg k i (tok ∷ l) ≡ walk cfg k (i + 1) l
  unfolding walk
  walk-variable i [] e = rw (e, walk)
  walk-variable i (v ∷ l) e = rw (e, walk)

  walk-operand :
      (i : ℕ) (l : List Bytes)
      → classify_arg cfg k tok ≡ positional
      → walk cfg k i (tok ∷ l) ≡ walk cfg (suc k) (i + 1) l
  unfolding walk
  walk-operand i [] e = rw (e, walk)
  walk-operand i (v ∷ l) e = rw (e, walk) (ap (λ (n : ℕ). walk cfg n (i + 1) (v ∷ l)) (omega arith))

  walk-command :
      (i : ℕ) (l : List Bytes) → classify_arg cfg k tok ≡ command → walk cfg k i (tok ∷ l) ≡ some i
  unfolding walk
  walk-command i [] e = rw (e, walk)
  walk-command i (v ∷ l) e = rw (e, walk)

-- The walk steps over the wrapper's own arguments.
walk-Arguments :
    (cfg : WrapperConfig) (rest : List Bytes) (i : ℕ) {k k' : ℕ} {ts : List Bytes}
    → Arguments cfg k ts k'
    → walk cfg k i (ts ++ rest) ≡ walk cfg k' (i + length ts) rest
walk-Arguments cfg rest i (none_left {k = k}) = ap (λ (n : ℕ). walk cfg k n rest) (omega arith)
walk-Arguments cfg rest i (switch {k = k} {k' = k'} {ts = ts} tok s f d t more) =
    walk-switch cfg k tok i (ts ++ rest) (classify-switch cfg k tok s f d t)
    ∙ walk-Arguments cfg rest (i + 1) more
    ∙ ap (λ (n : ℕ). walk cfg k' n rest) (omega arith)
walk-Arguments cfg rest i (option {k = k} {k' = k'} {ts = ts} tok v s f d t more) =
    walk-option cfg k tok i v (ts ++ rest) (classify-option cfg k tok s f d t)
    ∙ walk-Arguments cfg rest (i + 2) more
    ∙ ap (λ (n : ℕ). walk cfg k' n rest) (omega arith)
walk-Arguments cfg rest i (variable {k = k} {k' = k'} {ts = ts} tok s f a more) =
    walk-variable cfg k tok i (ts ++ rest) (classify-variable cfg k tok s f a)
    ∙ walk-Arguments cfg rest (i + 1) more
    ∙ ap (λ (n : ℕ). walk cfg k' n rest) (omega arith)
walk-Arguments cfg rest i (operand {k = k} {k' = k'} {ts = ts} tok s f a more) =
    walk-operand cfg k tok i (ts ++ rest) (classify-operand cfg k tok s f a)
    ∙ walk-Arguments cfg rest (i + 1) more
    ∙ ap (λ (n : ℕ). walk cfg k' n rest) (omega arith)

drop-append : (ts rest : List Bytes) → drop (length ts) (ts ++ rest) ≡ rest
drop-append [] rest = refl
drop-append (t ∷ ts) rest = drop-append ts rest

-- More fuel than tokens changes nothing.
strip_wrappers_fuel :
    (f g : ℕ) (ts : List Bytes)
    → length ts ≤ f
    → length ts ≤ g
    → Round ts
    → strip_wrappers f ts ≡ strip_wrappers g ts
strip_wrappers_fuel f g ts h k (done d) =
    strip_wrappers_done f ts d ∙ sym (strip_wrappers_done g ts d)
strip_wrappers_fuel zero g ts h k (again n w found) =
    let b = wrapper_command_index_bounds ts found in absurd (omega arith)
strip_wrappers_fuel (suc f) zero ts h k (again n w found) =
    let b = wrapper_command_index_bounds ts found in absurd (omega arith)
strip_wrappers_fuel (suc f) (suc g) ts h k (again n w found) =
    let b = wrapper_command_index_bounds ts found in
    let shorter = length-drop n ts in
    strip_wrappers_step f ts n w found
    ∙ strip_wrappers_fuel f g (drop n ts) (omega arith) (omega arith) (round (drop n ts))
    ∙ sym (strip_wrappers_step g ts n w found)

module _ (w c : Bytes) (cfg : WrapperConfig) {ts : List Bytes} {k : ℕ} (rest : List Bytes) where
  index-configured :
      wrapper_config w ≡ some cfg
      → w ≢ codes "flock"
      → Arguments cfg 0 ts k
      → cfg.positional_skip ≤ k
      → is_flag c ≡ false
      → is_env_assignment c ≡ false
      → wrapper_command_index (w ∷ (ts ++ c ∷ rest)) ≡ some (1 + length ts)
  index-configured e nf args p f a = go ts (
      walk-Arguments cfg (c ∷ rest) 1 args
      ∙ walk-command cfg k c (1 + length ts) rest (classify-command cfg k c p f a))
    where
      go :
          (l : List Bytes)
          → walk cfg 0 1 (l ++ c ∷ rest) ≡ some (1 + length ts)
          → wrapper_command_index (w ∷ (l ++ c ∷ rest)) ≡ some (1 + length ts)
      go [] h =
          unfold wrapper_command_index in rw e (ground (arith, bytes_eq_iff w (codes "flock"), h))
      go (t ∷ l) h =
          unfold wrapper_command_index in rw e (ground (arith, bytes_eq_iff w (codes "flock"), h))

strip_assignments_self :
    (t : Bytes) (ts : List Bytes)
    → is_env_assignment t ≡ false
    → strip_assignments (t ∷ ts) ≡ t ∷ ts
unfolding strip_assignments
strip_assignments_self t [] h = refl
strip_assignments_self t (u ∷ ts) h = ground arith

unwrap-strip :
    (t : Bytes) (ts : List Bytes)
    → is_env_assignment t ≡ false
    → unwrap_prefix_tokens (t ∷ ts) ≡ strip_wrappers (length (t ∷ ts)) (t ∷ ts)
unfolding unwrap_prefix_tokens
unwrap-strip t ts h =
    ap (λ (l : List Bytes). strip_wrappers (length l) l) (strip_assignments_self t ts h)

is_wrapper_of_config :
    (w : Bytes) (cfg : WrapperConfig) (t : Bytes) (ts l : List Bytes)
    → wrapper_config w ≡ some cfg
    → starts_with_wrapper (w ∷ (l ++ t ∷ ts)) ≡ true
unfolding starts_with_wrapper is_wrapper
is_wrapper_of_config w cfg t ts [] e = rw (e, is_wrapper)
is_wrapper_of_config w cfg t ts (a ∷ l) e = rw (e, is_wrapper)

-- A wrapper other than flock, in front of its own options, their values, variable assignments and
-- positional arguments, unwraps to exactly what the command behind them unwraps to. The options
-- are those that its configuration skips; the command is no flag and no assignment, and all the
-- positional arguments stand before it.
pub unwrap-wrapper :
    (w c : Bytes) (cfg : WrapperConfig) {ts : List Bytes} {k : ℕ} (rest : List Bytes)
    → wrapper_config w ≡ some cfg
    → w ≢ codes "flock"
    → is_env_assignment w ≡ false
    → Arguments cfg 0 ts k
    → cfg.positional_skip ≤ k
    → is_flag c ≡ false
    → is_env_assignment c ≡ false
    → unwrap_prefix_tokens (w ∷ (ts ++ c ∷ rest)) ≡ unwrap_prefix_tokens (c ∷ rest)
unwrap-wrapper w c cfg {ts} {k} rest e nf aw args p f a =
    let found = index-configured w c cfg rest e nf args p f a in
    let all = ts ++ c ∷ rest in
    let size = length-append ts (c ∷ rest) in
    unwrap-strip w all aw
    ∙ strip_wrappers_step (length all) (w ∷ all) (1 + length ts)
        (is_wrapper_of_config w cfg c rest ts e) found
    ∙ ap (strip_wrappers (length all)) (drop_all ts)
    ∙ strip_wrappers_fuel (length all) (length (c ∷ rest)) (c ∷ rest) (omega arith) (omega arith)
        (round (c ∷ rest))
    ∙ sym (unwrap-strip c rest a)
  where
    drop_all : (l : List Bytes) → drop (1 + length l) (w ∷ (l ++ c ∷ rest)) ≡ c ∷ rest
    drop_all l = rw (one_plus (length l)) (drop-append l (c ∷ rest))
      where
        one_plus : (n : ℕ) → 1 + n ≡ suc n
        one_plus n = omega arith
