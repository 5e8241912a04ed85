-- ===== src/History/Examples.antt =====
-- The theorems at a short history.
use hunch.Base.{
  ℕ, zero, suc, ◌≡◌, refl, true, List, [], ◌∷◌, none, some, Bytes, codes, arith, get_elem?, any,
  map,
}
use hunch.History.{Job, parse_zsh_history, normalize_concurrent}
use hunch.History.Lines.{HistoryEntry, IsWritten, history_of, command_of, parse_zsh_history-lines}
use hunch.History.Workers.{template_of, is_for, IsSchedule, normalize_concurrent-map}

abbrev written : HistoryEntry
written = record { start = codes " 17"; elapsed = codes "0"; command = codes "a; b: c" }

written-IsWritten : IsWritten written
written-IsWritten = record {
  start = (omega arith, (omega arith, (omega arith, tt)));
  elapsed = (omega arith, tt);
  command = cc;
  one_line = (
    omega arith,
    (
      omega arith,
      (
        omega arith,
        (
          omega arith,
          (
            omega arith,
            (
              omega arith,
              (
                omega arith,
                (
                  omega arith,
                  (
                    omega arith,
                    (omega arith, (omega arith, (omega arith, (omega arith, (omega arith, tt))))),
                  ),
                ),
              ),
            ),
          ),
        ),
      ),
    ),
  );
  plain_end = omega arith;
  short = omega arith;
}

parse_zsh_history-lines_example :
    parse_zsh_history (history_of (written ∷ [])) ≡ (map command_of (written ∷ []), none)
parse_zsh_history-lines_example = parse_zsh_history-lines (written ∷ []) (written-IsWritten, tt)

abbrev commands : List Bytes
commands = codes "cd /tmp" ∷ codes "git push" ∷ []

-- The second worker is the first one that is done.
abbrev finished : List Job
finished =
    record { idx = 1; raw = codes "git push" } ∷ record { idx = 0; raw = codes "cd /tmp" } ∷ []

each_sent : (i : ℕ) (raw : Bytes) → get_elem? commands i ≡ some raw → any (is_for i) finished ≡ true
each_sent zero raw h = refl
each_sent (suc zero) raw h = refl
each_sent (suc (suc i)) raw h = absurd (cc h)

finished-IsSchedule : IsSchedule finished commands
finished-IsSchedule = record { sent = (refl, (refl, tt)); all_sent = each_sent }

normalize_concurrent-map_example : normalize_concurrent finished commands ≡ map template_of commands
normalize_concurrent-map_example = normalize_concurrent-map finished commands finished-IsSchedule
