-- ===== src/Daemon/Fallback/Rungs.antt =====
-- The rungs of the ladder as a list, and the search for the first one with a usable answer.
use hunch.Base.{ℕ, suc, Bool, true, false, List, [], ◌∷◌, ◌++◌, Bytes, if◌then◌else◌, All}
use hunch.Floats.{Float64}
use hunch.Predict.{Suggestion}
use hunch.Daemon.Paths.Elements.{IsName, path_of}
use hunch.Daemon.Fallback.{
  Level, exact_directory, ancestor_directory, no_directory, no_match, shorter_history,
  FallbackResult, confident,
}

-- Where a shell is: in no known directory, or in the absolute one with these elements, the
-- innermost first.
pub data Place : Type 0 where
  nowhere : Place
  inside : List Bytes → Place

abbrev pub cwd_of : Place → Bytes
cwd_of nowhere = []
cwd_of (inside es) = path_of es

abbrev pub HasNames : Place → Type 0
HasNames nowhere = Unit
HasNames (inside es) = All IsName es

-- The directories from this one up, without the root.
abbrev pub directories_up : List Bytes → List Bytes
directories_up [] = []
directories_up (e ∷ es) = path_of (e ∷ es) ∷ directories_up es

abbrev pub ancestors : Place → List Bytes
ancestors nowhere = []
ancestors (inside []) = []
ancestors (inside (e ∷ es)) = directories_up es

-- A context that may be asked.
pub record Rung : Type 0 where
  pub level : Level
  pub state : List Bytes
  pub cwd : Bytes

abbrev pub ancestor_rungs : List Bytes → List Bytes → List Rung
ancestor_rungs prev [] = []
ancestor_rungs prev (directory ∷ directories) =
    record { level = ancestor_directory; state = prev; cwd = directory }
    ∷ ancestor_rungs prev directories

-- The history without its oldest command, without its two oldest, and so on down to none.
abbrev pub shorter_rungs : ℕ → List Bytes → List Rung
shorter_rungs dropped [] = []
shorter_rungs dropped (t ∷ prev) =
    record { level = shorter_history dropped; state = prev; cwd = [] }
    ∷ shorter_rungs (suc dropped) prev

abbrev pub rungs : List Bytes → Place → List Rung
rungs prev place =
    record { level = exact_directory; state = prev; cwd = cwd_of place }
    ∷ (ancestor_rungs prev (ancestors place)
        ++ record { level = no_directory; state = prev; cwd = [] } ∷ shorter_rungs 1 prev)

module _ (fl : Float64) where
  abbrev pub is_some_answer : List (Suggestion fl) → Bool
  is_some_answer [] = false
  is_some_answer (s ∷ sugs) = true

  -- The exact context is trusted with any answer; each broader one needs a top score.
  abbrev pub is_usable : fl.F → Level → List (Suggestion fl) → Bool
  is_usable min_confidence exact_directory sugs = is_some_answer sugs
  is_usable min_confidence ancestor_directory sugs = confident fl min_confidence sugs
  is_usable min_confidence no_directory sugs = confident fl min_confidence sugs
  is_usable min_confidence no_match sugs = confident fl min_confidence sugs
  is_usable min_confidence (shorter_history n) sugs = confident fl min_confidence sugs

  abbrev pub first_usable :
      (List Bytes → Bytes → List (Suggestion fl))
      → fl.F
      → FallbackResult fl
      → List Rung
      → FallbackResult fl
  first_usable ask min_confidence last [] = last
  first_usable ask min_confidence last (r ∷ rs) =
      let sugs = ask r.state r.cwd in
      let rest = first_usable ask min_confidence last rs in
      if is_usable min_confidence r.level sugs
      then record { suggestions = sugs; level = r.level; state = r.state; cwd = r.cwd }
      else rest
