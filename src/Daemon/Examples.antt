-- ===== src/Daemon/Examples.antt =====
-- The theorems at concrete requests.
use hunch.Base.{
  ◌≡◌, ◌≢◌, refl, inl, inr, ℕ, Bool, true, false, Option, some, none, [], ◌∷◌, Bytes, codes,
  bytes_eq, contains, All,
}
use hunch.Floats.Examples.{naturals}
use hunch.Regex.{match_string}
use hunch.Regex.Build.{is_digit, is_lower, is_upper, is_space}
use hunch.Normalize.{normalize}
use hunch.Redact.{to_lower, is_sensitive}
use hunch.Redact
use hunch.Graph.{unknown, state_key}
use hunch.Graph
use hunch.RawStore.{raw_outer_key}
use hunch.RawStore
use hunch.Predict.{State, Predictor}
use hunch.Daemon.{Daemon, Request, handle_record, recorded_states}
use hunch.Daemon.Recording.{IsCounted, IsStored, handle_record-IsStored}
use hunch.Daemon.Secrets.{handle_record-secret_flag}

abbrev pub no_compiler : Bytes → Option (Bytes → Bool)
no_compiler p = none

abbrev pub daemon : Daemon
daemon = record {
  g = Graph.new 2;
  raws = RawStore.new 10;
  parents = codes "git" ∷ [];
  redactor = Redact.new no_compiler [];
  dirty = 49;
  flush_requested = false;
}

abbrev pub clock : Bytes → Option ℕ
clock text = some 12

abbrev pub push : Request
push = record {
  state = codes "git commit -m x" ∷ [];
  next = codes "git push";
  at_text = [];
  prefix = [];
  limit = 0;
  cwd = codes "/p";
  outcome = unknown;
  prior_outcome = unknown;
  suggested = [];
  raw_examples = [];
  seed_data = [];
}

abbrev login : Request
login = record push { next = codes "mysql --pass=hunter2" }

push_plain : is_sensitive daemon.redactor push.next ≡ false
unfolding Redact.new is_sensitive match_string is_digit is_lower is_upper is_space to_lower
push_plain = refl

push_shape : normalize push.next (some daemon.parents) ≢ []
unfolding normalize bytes_eq contains match_string is_digit is_lower is_upper
push_shape = cc

handle_record-IsStored_example :
    All
      (λ state.
        IsCounted
          (handle_record clock push daemon).0.g
          (state_key state)
          (normalize push.next (some daemon.parents)))
      (recorded_states daemon.parents push)
    × All
        (λ state.
          IsStored
            (handle_record clock push daemon).0.raws
            (raw_outer_key state (normalize push.next (some daemon.parents)))
            push.next
            12)
        (recorded_states daemon.parents push)
handle_record-IsStored_example =
    handle_record-IsStored clock push daemon 12 refl push_plain push_shape

blank_is_space : is_space b' ' ≡ true
unfolding is_space
blank_is_space = refl

letter_not_space : is_space b'h' ≡ false
unfolding is_space
letter_not_space = refl

handle_record-secret_flag_example : (handle_record clock login daemon).0 ≡ daemon
handle_record-secret_flag_example =
    handle_record-secret_flag no_compiler [] (codes "mysql ") (codes "--") (codes "pass")
      (codes "=") b'h' (codes "unter2") clock login daemon
      (inr (codes "mysql", b' ', blank_is_space, refl)) (inr refl) (inr (inr (inl refl))) (inl refl)
      letter_not_space refl refl

abbrev predictor : Predictor naturals
predictor = record {
  g = Graph.new 2;
  half_life = 10;
  alpha = 1;
  beta = 1;
  gamma = 1;
  delta = 1;
  epsilon = 1;
}

abbrev here : State
here = record { previous = codes "git clone REPO" ∷ []; cwd = codes "/p"; prior_outcome = unknown }
