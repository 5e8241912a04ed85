-- ===== src/Daemon/Paths.antt =====
-- The standard library's path/filepath.Clean and Dir on a Unix system, and strings.TrimSpace for
-- ASCII space, as the handlers use them.
pub mod Elements
use hunch.Base.{
  Bool, true, false, List, [], ◌∷◌, Bytes, codes, ◌==◌, ◌||◌, if◌then◌else◌, bytes_eq, split,
  is_ascii_space,
}
use hunch.Normalize.{join}

is_rooted : Bytes → Bool
is_rooted [] = false
is_rooted (c ∷ path) = c == 47

-- The elements kept so far, the last one first; `..` takes the last one back.
step_back : Bool → List Bytes → List Bytes
step_back true [] = []
step_back false [] = codes ".." ∷ []
step_back rooted (e ∷ kept) = if bytes_eq e (codes "..") then codes ".." ∷ e ∷ kept else kept

clean_elements : Bool → List Bytes → List Bytes → List Bytes
unfolding step_back
clean_elements rooted kept [] = kept
clean_elements rooted kept (e ∷ elements) =
    let dropped = clean_elements rooted kept elements in
    let back = clean_elements rooted (step_back rooted kept) elements in
    let pushed = clean_elements rooted (e ∷ kept) elements in
    if bytes_eq e [] || bytes_eq e (codes ".")
    then dropped
    else (if bytes_eq e (codes "..") then back else pushed)

reversed : List Bytes → List Bytes → List Bytes
reversed done [] = done
reversed done (e ∷ kept) = reversed (e ∷ done) kept

or_dot : Bytes → Bytes
or_dot [] = codes "."
or_dot (c ∷ path) = c ∷ path

unfoldable pub clean : Bytes → Bytes
unfolding is_rooted clean_elements reversed join split or_dot
clean path =
    let body =
      join (reversed [] (clean_elements (is_rooted path) [] (split 47 path))) (codes "/") in
    if is_rooted path then 47 ∷ body else or_dot body

-- What stands up to the last slash, and the slash.
up_to_slash : Bytes → Bytes
up_to_slash [] = []
up_to_slash (c ∷ s) =
    let rest = up_to_slash s in
    elim rest [ [] ↦ (if c == 47 then c ∷ [] else []) | d ∷ t ↦ c ∷ d ∷ t ]

-- filepath.Dir
unfoldable pub dir : Bytes → Bytes
unfolding up_to_slash clean
dir path = clean (up_to_slash path)

trim_left : Bytes → Bytes
unfolding is_ascii_space
trim_left [] = []
trim_left (c ∷ s) = let rest = trim_left s in if is_ascii_space c then rest else c ∷ s

-- Trailing space is dropped: a blank goes if nothing is left after it.
trim_right : Bytes → Bytes
unfolding is_ascii_space
trim_right [] = []
trim_right (c ∷ s) =
    let rest = trim_right s in
    elim rest [ [] ↦ (if is_ascii_space c then [] else c ∷ []) | d ∷ t ↦ c ∷ d ∷ t ]

unfoldable pub trim_space : Bytes → Bytes
unfolding trim_left trim_right
trim_space s = trim_right (trim_left s)
