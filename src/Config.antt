-- ===== src/Config.antt =====
-- daemon/config.go: the daemon's options, from the built-in defaults, the configuration file and the
-- environment. What reading and decoding the file does to the options is a parameter, and so are
-- the environment, the directories of the platform and the reading of a floating-point number. The
-- integers are natural numbers: no variable can make one negative, and a file that does is outside
-- of the model, as are durations above 2^63 - 1 nanoseconds.
pub mod Numbers
pub mod Valid
mod Examples
use hunch.Base.{
  ℕ, ◌*◌, Bool, true, false, List, [], ◌∷◌, ◌++◌, Option, none, some, Bytes, codes, ltb, leb,
  if◌then◌else◌, split,
}
use hunch.Floats.{Float64}
use hunch.Daemon.Paths.{clean}
use hunch.Config.Numbers.{ℤ, pos, negsuc, atoi}

pub record Options (fl : Float64) : Type 0 where
  pub socket : Bytes
  pub db_path : Bytes
  pub accept_keys : List Bytes
  pub daemon_bin : Bytes
  pub half_life_hours : ℕ
  pub max_idle_days : ℕ
  pub alpha : fl.F
  pub beta : fl.F
  pub gamma : fl.F
  pub delta : fl.F
  pub epsilon : fl.F
  pub min_confidence : fl.F
  pub min_count : ℕ
  pub extra_parents : List Bytes
  pub ignore : List Bytes
  pub log_level : Bytes
  pub seed_path : Bytes

-- What the process finds around it: `os.Getenv`, the shims `CacheDir` and `DataDir`, and
-- `strconv.ParseFloat`.
pub record Platform (fl : Float64) : Type 0 where
  pub env : Bytes → Bytes
  pub cache_dir : Option Bytes
  pub data_dir : Option Bytes
  pub parse_float : Bytes → Option fl.F

-- filepath.Join of a directory and a name.
join_path : Bytes → Bytes → Bytes
unfolding clean
join_path [] name = clean name
join_path (c ∷ directory) name = clean ((c ∷ directory) ++ codes "/" ++ name)

default_path : Option Bytes → Bytes → Bytes → Bytes
unfolding join_path
default_path directory name (c ∷ path) = c ∷ path
default_path none name [] = []
default_path (some directory) name [] = join_path directory name

-- `if v := os.Getenv(…); v != "" { … }`
text_or : Bytes → Bytes → Bytes
text_or [] old = old
text_or (c ∷ v) old = c ∷ v

texts_or : Bytes → List Bytes → List Bytes
unfolding split
texts_or [] old = old
texts_or (c ∷ v) old = split b',' (c ∷ v)

-- A number that is read well and is at least `least`.
pub at_least_or : ℕ → Option ℤ → ℕ → ℕ
at_least_or least none old = old
at_least_or least (some (negsuc n)) old = old
at_least_or least (some (pos n)) old = if leb least n then n else old

number_or : ℕ → Bytes → ℕ → ℕ
unfolding at_least_or atoi
number_or least [] old = old
number_or least (c ∷ v) old = at_least_or least (atoi (c ∷ v)) old

module _ (fl : Float64) where
  unfoldable pub defaults : Options fl
  defaults = record {
    socket = [];
    db_path = [];
    accept_keys = [];
    daemon_bin = [];
    half_life_hours = 720;
    max_idle_days = 90;
    alpha = fl.decimal 5 1;
    beta = fl.decimal 75 2;
    gamma = fl.decimal 5 1;
    delta = fl.decimal 5 1;
    epsilon = fl.decimal 5 1;
    min_confidence = fl.decimal 10 2;
    min_count = 2;
    extra_parents = [];
    ignore = [];
    log_level = codes "info";
    seed_path = [];
  }

  -- A number that is read well and is not negative.
  weight_if : Option fl.F → fl.F → fl.F
  weight_if none old = old
  weight_if (some f) old = if fl.le (fl.of_int 0) f then f else old

  weight_or : Platform fl → Bytes → fl.F → fl.F
  unfolding weight_if
  weight_or pf [] old = old
  weight_or pf (c ∷ v) old = weight_if (pf.parse_float (c ∷ v)) old

  -- The overrides of the environment; each reads and writes its own field.
  apply_env : Platform fl → Options fl → Options fl
  unfolding text_or texts_or number_or weight_or
  apply_env pf o = record {
    socket = text_or (pf.env (codes "HUNCH_SOCKET")) o.socket;
    db_path = text_or (pf.env (codes "HUNCH_DB_PATH")) o.db_path;
    accept_keys = texts_or (pf.env (codes "HUNCH_ACCEPT_KEYS")) o.accept_keys;
    daemon_bin = text_or (pf.env (codes "HUNCH_DAEMON_BIN")) o.daemon_bin;
    half_life_hours = number_or 1 (pf.env (codes "HUNCH_HALF_LIFE_HOURS")) o.half_life_hours;
    max_idle_days = number_or 0 (pf.env (codes "HUNCH_MAX_IDLE_DAYS")) o.max_idle_days;
    alpha = weight_or pf (pf.env (codes "HUNCH_ALPHA")) o.alpha;
    beta = weight_or pf (pf.env (codes "HUNCH_BETA")) o.beta;
    gamma = weight_or pf (pf.env (codes "HUNCH_GAMMA")) o.gamma;
    delta = weight_or pf (pf.env (codes "HUNCH_DELTA")) o.delta;
    epsilon = weight_or pf (pf.env (codes "HUNCH_EPSILON")) o.epsilon;
    min_confidence = weight_or pf (pf.env (codes "HUNCH_MIN_CONFIDENCE")) o.min_confidence;
    min_count = number_or 1 (pf.env (codes "HUNCH_MIN_COUNT")) o.min_count;
    extra_parents = texts_or (pf.env (codes "HUNCH_EXTRA_PARENTS")) o.extra_parents;
    ignore = texts_or (pf.env (codes "HUNCH_IGNORE")) o.ignore;
    log_level = text_or (pf.env (codes "HUNCH_LOG_LEVEL")) o.log_level;
    seed_path = o.seed_path;
  }

  resolve_paths : Platform fl → Options fl → Options fl
  unfolding default_path
  resolve_paths pf o = record o {
    socket = default_path pf.cache_dir (codes "hunch.sock") o.socket;
    db_path = default_path pf.data_dir (codes "hunch.db") o.db_path;
  }

  -- LoadConfig; `read_file` decodes the configuration file over the options.
  unfoldable pub load_config : Platform fl → (Options fl → Options fl) → Options fl
  unfolding apply_env resolve_paths
  load_config pf read_file = resolve_paths pf (apply_env pf (read_file defaults))

  -- In nanoseconds.
  unfoldable pub half_life : Options fl → ℕ
  half_life o = o.half_life_hours * 3600000000000

  unfoldable pub max_idle : Options fl → ℕ
  max_idle o = o.max_idle_days * 24 * 3600000000000
