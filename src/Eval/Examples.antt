-- ===== src/Eval/Examples.antt =====
-- The theorems and a run at a short history.
use hunch.Base.{◌+◌, ◌≡◌, ◌≢◌, List, [], ◌∷◌, Bytes, codes}
use hunch.Floats.Examples.{naturals}
use hunch.Graph.{Graph, unknown, new}
use hunch.Daemon.Fallback
use hunch.Eval.{Options, Command, run, learn, query_with_cwd, predict_with_fallback}
use hunch.Eval.Tallies.{measured, IsTallied, run-IsTallied}
use hunch.Eval.Mirror.{predict_with_fallback-daemon}
use hunch.Eval.Twice.{count_at, count_at-learn}

abbrev opts : Options naturals
opts = record {
  half_life = 10;
  alpha = 1;
  beta = 1;
  gamma = 1;
  delta = 1;
  epsilon = 1;
  min_confidence = 1;
  min_count = 2;
  warmup = 2;
  interval = 60;
}

abbrev in_project : Bytes → Command
in_project template = record { template = template; cwd = codes "/p"; prior_outcome = unknown }

abbrev history : List Command
history =
    in_project (codes "git add")
    ∷ in_project (codes "git commit")
    ∷ in_project (codes "git add")
    ∷ in_project []
    ∷ in_project (codes "git commit")
    ∷ []

run-IsTallied_example :
    IsTallied (run naturals opts history)
    × ((run naturals opts history).scored ≡ measured opts.warmup 0 history)
run-IsTallied_example = run-IsTallied naturals opts history

abbrev learned : Graph
learned = learn [] (codes "git add") (codes "/p") (codes "git commit") 5 (new 2)

predict_with_fallback-daemon_example :
    predict_with_fallback naturals opts learned [] (codes "git add") (codes "/p") unknown 9
    ≡ (Fallback.climb naturals
        (query_with_cwd naturals opts learned 9)
        opts.min_confidence
        ([] ∷ codes "git add" ∷ [])
        (codes "/p")).suggestions
predict_with_fallback-daemon_example =
    predict_with_fallback-daemon naturals opts learned [] (codes "git add") (codes "/p") unknown 9

add_known : codes "git add" ≢ []
add_known = cc

commit_named : codes "git commit" ≢ []
commit_named = cc

count_at-learn_example :
    count_at
      (learn [] (codes "git add") (codes "/p") (codes "git commit") 5 (new 2))
      (codes "git add" ∷ [])
      (codes "git commit")
    ≡ count_at (new 2) (codes "git add" ∷ []) (codes "git commit") + 2
count_at-learn_example =
    count_at-learn [] (codes "git add") (codes "/p") (codes "git commit") 5 (new 2) add_known
      commit_named
