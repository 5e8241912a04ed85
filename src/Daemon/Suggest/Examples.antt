-- ===== src/Daemon/Suggest/Examples.antt =====
-- The theorems at a concrete prompt.
use hunch.Base.{
  ◌≤◌, ◌≡◌, ◌⊎◌, refl, List, [], ◌∷◌, some, codes, arith, length, bytes_eq, contains, any, true,
  All, false, ◌≢◌,
}
use hunch.Base.Assoc.{insert, lookup}
use hunch.Floats.Examples.{naturals}
use hunch.Graph.{unknown}
use hunch.Normalize.{normalize}
use hunch.Redact.{is_sensitive}
use hunch.Graph
use hunch.Graph.{transitions}
use hunch.Predict.Score.{ScoreBreakdown, score_transitions_detailed}
use hunch.Predict.{Suggestion, cap, score_params, state_templates}
use hunch.Predict.Offered.{is_suggested, HasScores}
use hunch.RawStore.Hydrate.Slots.{templates}
use hunch.Config.{defaults}
use hunch.Daemon.{Daemon, Request, normalize_all, handle_record}
use hunch.Daemon.Paths.Elements.{IsName}
use hunch.Daemon.Fallback.{
  exact_directory, no_match, new_predictor, query, predict_fallback, predict_with_fallback,
}
use hunch.Daemon.Fallback.Rungs.{inside, cwd_of, rungs, first_usable}
use hunch.Daemon.Fallback.Ladder.{predict_fallback-rungs}
use hunch.Daemon.Suggest.{clean_cwd, filter_if_prefixed, handle_predict}
use hunch.Daemon.Suggest.Unsuppressed.{handle_predict-unsuppressed}
use hunch.RawStore.{non_empty, collect_arg_tokens}
use hunch.RawStore.Hydrate.{hydrate}
use hunch.Daemon.Repeated.{recorded_times, asked, recorded_times-offered}
use hunch.Daemon.Suggest.Shown.{IsShown, handle_predict-Shown}
use hunch.Daemon.Examples.{daemon, clock, push}

-- A daemon that has served one request.
abbrev served : Daemon
served = (handle_record clock push daemon).0

deep-IsName : IsName (codes "src")
deep-IsName = record {
  not_empty = cc;
  no_slash = (omega arith, (omega arith, (omega arith, tt)));
  not_dot = cc;
  not_dots = cc;
}

top-IsName : IsName (codes "p")
top-IsName = record { not_empty = cc; no_slash = (omega arith, tt); not_dot = cc; not_dots = cc }

predict_fallback-rungs_example :
    predict_fallback naturals
      (defaults naturals)
      served.g
      (codes "git commit" ∷ [])
      (cwd_of (inside (codes "src" ∷ codes "p" ∷ [])))
      unknown
      30
    ≡ first_usable naturals
        (query naturals (defaults naturals) served.g unknown 30)
        (defaults naturals).min_confidence
        (record {
          suggestions = [];
          level = no_match;
          state = codes "git commit" ∷ [];
          cwd = cwd_of (inside (codes "src" ∷ codes "p" ∷ []));
        })
        (rungs (codes "git commit" ∷ []) (inside (codes "src" ∷ codes "p" ∷ [])))
predict_fallback-rungs_example =
    predict_fallback-rungs naturals (defaults naturals) served.g (codes "git commit" ∷ [])
      (inside (codes "src" ∷ codes "p" ∷ [])) unknown 30 (deep-IsName, (top-IsName, tt))

abbrev prompt : Request
prompt = record push { next = []; prefix = codes "git"; limit = 3 }

handle_predict-Shown_example :
    (sugs : List (Suggestion naturals)) × (handle_predict naturals
        (defaults naturals)
        clock
        prompt
        served
      ≡ some sugs)
    × All
        (IsShown served.parents prompt.prefix (
          templates naturals (
            predict_with_fallback naturals
              (defaults naturals)
              served.g
              (normalize_all served.parents prompt.state)
              (clean_cwd prompt.cwd)
              prompt.prior_outcome
              12)))
        (templates naturals sugs)
    × ((prompt.limit ≡ 0) ⊎ (length sugs ≤ prompt.limit))
handle_predict-Shown_example =
    handle_predict-Shown naturals (defaults naturals) clock prompt served 12 refl

-- A daemon with no patterns and no parents, and a short command in no directory.
abbrev bare : Daemon
bare = record daemon { parents = []; redactor = record { patterns = [] } }

abbrev make_again : Request
make_again = record push { state = []; next = codes "make"; cwd = [] }

abbrev twice : Daemon
twice = recorded_times clock make_again 2 bare

bare_plain : is_sensitive bare.redactor make_again.next ≡ false
unfolding is_sensitive
bare_plain = refl

make_shape : normalize make_again.next (some bare.parents) ≢ []
unfolding normalize bytes_eq contains
make_shape = cc

any-ne-nil : (l : List (ScoreBreakdown naturals)) → any (λ b. true) l ≡ true → l ≢ []
any-ne-nil [] h = absurd (cc h)
any-ne-nil (b ∷ l) h = λ e. absurd (cc e)

twice_scored :
    any
      (λ b. true)
      (score_transitions_detailed naturals
        (transitions twice.g (state_templates (asked bare.parents make_again unknown)))
        (score_params naturals
          (new_predictor naturals (defaults naturals) twice.g)
          (asked bare.parents make_again unknown)
          30))
    ≡ true
unfolding defaults new_predictor score_params score_transitions_detailed transitions state_templates
    handle_record normalize bytes_eq contains is_sensitive clean_cwd normalize_all Graph.new insert
    lookup
twice_scored = refl

twice-HasScores :
    HasScores naturals
      (new_predictor naturals (defaults naturals) twice.g)
      (asked bare.parents make_again unknown)
      30
unfolding new_predictor
twice-HasScores = any-ne-nil _ twice_scored

recorded_times-offered_example :
    ((predict_fallback naturals
        (defaults naturals)
        twice.g
        (normalize_all bare.parents make_again.state)
        (clean_cwd make_again.cwd)
        unknown
        30).level
      ≡ exact_directory)
    × (any
          (is_suggested naturals (normalize make_again.next (some bare.parents)) 2)
          (predict_fallback naturals
            (defaults naturals)
            twice.g
            (normalize_all bare.parents make_again.state)
            (clean_cwd make_again.cwd)
            unknown
            30).suggestions
        ≡ true)
unfolding defaults
recorded_times-offered_example =
    recorded_times-offered naturals (defaults naturals) clock make_again bare 12 2 unknown 30 refl
      bare_plain make_shape (omega arith) (omega arith) twice-HasScores

handle_predict-unsuppressed_example :
    handle_predict naturals (defaults naturals) clock prompt served
    ≡ some (
        hydrate naturals served.raws
          (cap prompt.limit (
            filter_if_prefixed naturals prompt.prefix served.parents (
              predict_with_fallback naturals
                (defaults naturals)
                served.g
                (normalize_all served.parents prompt.state)
                (clean_cwd prompt.cwd)
                prompt.prior_outcome
                12)))
          (non_empty (normalize_all served.parents prompt.state))
          prompt.prefix
          (collect_arg_tokens prompt.state (some served.parents))
          12
          prompt.limit)
handle_predict-unsuppressed_example =
    handle_predict-unsuppressed naturals (defaults naturals) clock prompt served 12 refl
