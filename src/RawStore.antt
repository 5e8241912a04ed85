-- ===== src/RawStore.antt =====
-- daemon/rawstore.go: the concrete commands behind each template. Each method is one step, as its
-- lock makes it. Where Go ranges over a map the order is open; here it is that of insertion, and
-- the sort by score keeps it among equal scores.
pub mod Hydrate
pub mod Recorded
pub mod Keys
mod Examples
use hunch.Base.{
  ℕ, zero, suc, ◌+◌, ◌-◌, min, Bool, true, false, not, ◌&&◌, ◌||◌, List, [], ◌∷◌, ◌++◌, Option,
  none, some, Bytes, ◌==◌, ltb, leb, if◌then◌else◌, contains, split, take, drop, length,
  starts_with, any,
}
use hunch.Base.Assoc.{Assoc, lookup, insert}
use hunch.Floats.{Float64}
use hunch.Tokenize.{tokenize}
use hunch.Normalize.{join, extract_arg_tokens}
use hunch.Predict.{Suggestion}

pub record RawEntry : Type 0 where
  pub count : ℕ
  pub last_seen : ℕ

pub record RawStore : Type 0 where
  pub m : Assoc (Assoc RawEntry)
  pub half_life : ℕ

unfoldable pub new : ℕ → RawStore
new half_life = record { m = []; half_life = half_life }

unfoldable pub non_empty : List Bytes → List Bytes
non_empty [] = []
non_empty ([] ∷ state) = non_empty state
non_empty ((c ∷ s) ∷ state) = (c ∷ s) ∷ non_empty state

abbrev pub key_separator : Bytes
key_separator = 0 ∷ []

abbrev pub key_delimiter : Bytes
key_delimiter = 0 ∷ 0 ∷ []

unfoldable pub raw_outer_key : List Bytes → Bytes → Bytes
unfolding non_empty join
raw_outer_key state template = join (non_empty state) key_separator ++ key_delimiter ++ template

-- strings.SplitN(s, keyDelimiter, 2), if the delimiter is there.
cut_delimiter : Bytes → Option (Bytes × Bytes)
cut_delimiter [] = none
cut_delimiter (c ∷ []) = none
cut_delimiter (c ∷ d ∷ s) =
    let rest = cut_delimiter (d ∷ s) in
    if c == 0 && d == 0
    then some ([], s)
    else elim rest [ none ↦ none | some (u, v) ↦ some (c ∷ u, v) ]

split_state : Bytes → List Bytes
unfolding split
split_state [] = []
split_state (c ∷ s) = split 0 (c ∷ s)

unfoldable pub split_outer_key : Bytes → Option (List Bytes × Bytes)
unfolding cut_delimiter split_state
split_outer_key key = elim (cut_delimiter key) [
  | none ↦ none
  | some (u, v) ↦ some (split_state u, v)
]

abbrev pub or_empty : Option (Assoc RawEntry) → Assoc RawEntry
or_empty none = []
or_empty (some inner) = inner

abbrev pub or_zero : Option RawEntry → RawEntry
or_zero none = record { count = 0; last_seen = 0 }
or_zero (some e) = e

-- `s.m[key][raw]`
abbrev pub entry_at : RawStore → Bytes → Bytes → Option RawEntry
entry_at s key raw = lookup raw (or_empty (lookup key s.m))

-- `inner := s.bucket(key)`, and `inner[raw]` changed.
update_raw : Bytes → Bytes → (RawEntry → RawEntry) → RawStore → RawStore
update_raw key raw change s =
    let inner = or_empty (lookup key s.m) in
    record s { m = insert key (insert raw (change (or_zero (lookup raw inner))) inner) s.m }

unfoldable pub record_raw : List Bytes → Bytes → Bytes → ℕ → RawStore → RawStore
unfolding update_raw raw_outer_key
record_raw state template raw at_time =
    update_raw (raw_outer_key state template) raw
      (λ e. record { count = e.count + 1; last_seen = at_time })

-- ipc/ipc.go, `RawExampleJSON`, with `LastSeen` as a time; 0 stands for none.
pub record RawExample : Type 0 where
  pub state : List Bytes
  pub template : Bytes
  pub raw : Bytes
  pub count : ℕ
  pub last_seen : ℕ

is_blank : Bytes → Bool
is_blank [] = true
is_blank (c ∷ s) = false

-- The counts are those that a client sends, which are not negative.
merge_example : ℕ → RawExample → RawStore → RawStore
unfolding update_raw raw_outer_key is_blank
merge_example now ex s =
    let seen = if ltb 0 ex.last_seen then ex.last_seen else now in
    if is_blank ex.template || is_blank ex.raw
    then s
    else update_raw (raw_outer_key ex.state ex.template) ex.raw
        (λ e. record {
          count = e.count + ex.count;
          last_seen = if ltb e.last_seen seen then seen else e.last_seen;
        })
        s

unfoldable pub merge_examples : ℕ → List RawExample → RawStore → RawStore
unfolding merge_example
merge_examples now [] s = s
merge_examples now (ex ∷ examples) s = merge_examples now examples (merge_example now ex s)

-- A row of the table raw_examples has the shape of an example.
unfoldable pub load : List RawExample → RawStore → RawStore
unfolding update_raw raw_outer_key
load [] s = s
load (rec ∷ records) s = load records (
    update_raw (raw_outer_key rec.state rec.template) rec.raw
      (λ e. record { count = rec.count; last_seen = rec.last_seen }) s)

unfoldable pub reset : RawStore → RawStore
reset s = record s { m = [] }

is_orphan : List Bytes → Option (List Bytes × Bytes) → Bool
is_orphan orphaned none = false
is_orphan orphaned (some (state, template)) = contains orphaned template

drop_buckets : List Bytes → Assoc (Assoc RawEntry) → Assoc (Assoc RawEntry)
unfolding is_orphan split_outer_key
drop_buckets orphaned [] = []
drop_buckets orphaned ((key, inner) ∷ m) =
    let rest = drop_buckets orphaned m in
    if is_orphan orphaned (split_outer_key key) then rest else (key, inner) ∷ rest

unfoldable pub drop_orphaned : List Bytes → RawStore → RawStore
unfolding drop_buckets
drop_orphaned [] s = s
drop_orphaned (t ∷ orphaned) s = record s { m = drop_buckets (t ∷ orphaned) s.m }

snapshot_inner : List Bytes → Bytes → Assoc RawEntry → List RawExample
snapshot_inner state template [] = []
snapshot_inner state template ((raw, e) ∷ inner) =
    record {
      state = state;
      template = template;
      raw = raw;
      count = e.count;
      last_seen = e.last_seen;
    }
    ∷ snapshot_inner state template inner

snapshot_bucket : Option (List Bytes × Bytes) → Assoc RawEntry → List RawExample
unfolding snapshot_inner
snapshot_bucket none inner = []
snapshot_bucket (some (state, template)) inner = snapshot_inner state template inner

snapshot_from : Assoc (Assoc RawEntry) → List RawExample
unfolding snapshot_bucket split_outer_key
snapshot_from [] = []
snapshot_from ((key, inner) ∷ m) = snapshot_bucket (split_outer_key key) inner ++ snapshot_from m

unfoldable pub snapshot : RawStore → List RawExample
unfolding snapshot_from
snapshot s = snapshot_from s.m

abbrev pub arg_lookback : ℕ
arg_lookback = 5

-- The inner loop: `tokens` and `seen` hold the same texts.
add_tokens : List Bytes → List Bytes → List Bytes
add_tokens tokens [] = tokens
add_tokens tokens (tok ∷ toks) =
    add_tokens (if ltb (length tok) 3 || contains tokens tok then tokens else tokens ++ tok ∷ [])
      toks

collect_from : Option (List Bytes) → List Bytes → List Bytes → List Bytes
unfolding add_tokens
collect_from parents tokens [] = tokens
collect_from parents tokens (raw ∷ raws) =
    collect_from parents (add_tokens tokens (extract_arg_tokens raw parents)) raws

unfoldable pub collect_arg_tokens : List Bytes → Option (List Bytes) → List Bytes
unfolding collect_from extract_arg_tokens
collect_arg_tokens raw_cmds parents =
    collect_from parents [] (drop (length raw_cmds - arg_lookback) raw_cmds)
