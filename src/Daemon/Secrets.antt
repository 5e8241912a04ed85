-- ===== src/Daemon/Secrets.antt =====
-- What a sensitive command leaves behind: nothing.
use hunch.Base.{
  ◌≡◌, inl, inr, Bool, true, false, Option-cases, ℕ, List, [], ◌∷◌, ◌++◌, Option, Bytes,
}
use hunch.Regex.Build.{is_space}
use hunch.Redact.{new, is_sensitive}
use hunch.Redact.Coverage.{sensitive_flag, WordStart, Dashes, IsWord, flag_keywords, FlagSeparator}
use hunch.Daemon.{Daemon, Request, handle_record}

-- A sensitive command leaves the daemon as it was, graph, store and flush counter included,
-- whether or not its time can be read.
pub handle_record-sensitive :
    (request_time : Bytes → Option ℕ) (req : Request) (d : Daemon)
    → is_sensitive d.redactor req.next ≡ true
    → (handle_record request_time req d).0 ≡ d
unfolding handle_record
handle_record-sensitive request_time req d h = elim (Option-cases (request_time req.at_text)) [
  | inl e ↦ rw (handle_record, e)
  | inr e ↦ rw (handle_record, e.1, h)
]

-- A command with a flag such as --password and a value behind it leaves the daemon as it was,
-- whatever else the command holds and whatever extra patterns the user has.
pub handle_record-secret_flag :
    (compile : Bytes → Option (Bytes → Bool)) (extra : List Bytes) (front dashes kw sep : Bytes)
    (c : ℕ) (rest : Bytes) (request_time : Bytes → Option ℕ) (req : Request) (d : Daemon)
    → WordStart front
    → Dashes dashes
    → IsWord flag_keywords kw
    → FlagSeparator sep
    → is_space c ≡ false
    → d.redactor ≡ new compile extra
    → req.next ≡ front ++ (dashes ++ (kw ++ ((sep ++ c ∷ []) ++ rest)))
    → (handle_record request_time req d).0 ≡ d
handle_record-secret_flag compile extra front dashes kw sep c rest request_time req d hf hd hk hs hc
      redactor text =
    handle_record-sensitive request_time req d
      (rw (redactor, text) (sensitive_flag compile extra front dashes kw sep c rest hf hd hk hs hc))
