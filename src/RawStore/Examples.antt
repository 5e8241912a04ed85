-- ===== src/RawStore/Examples.antt =====
-- The theorems at a small store.
use hunch.Base.{◌≡◌, ◌≤◌, ◌++◌, ℕ, suc, some, List, [], ◌∷◌, Bytes, codes, All, arith}
use hunch.Floats.Examples.{naturals}
use hunch.Predict.{Suggestion}
use hunch.RawStore.{RawStore, new, record_raw, raw_outer_key, non_empty, split_outer_key}
use hunch.RawStore.Keys.{IsNulFree, split_outer_key-raw_outer_key}
use hunch.RawStore.Hydrate.{hydrate}
use hunch.RawStore.Hydrate.Slots.{templates, copies, hydrate-templates}

abbrev pulled : List Bytes
pulled = codes "git pull" ∷ []

abbrev store : RawStore
store =
    record_raw pulled (codes "cd PATH") (codes "cd /b") 5
      (record_raw pulled (codes "cd PATH") (codes "cd /a") 4 (new 10))

abbrev change_dir : Suggestion naturals
change_dir = record { template = codes "cd PATH"; raw = []; score = 9; count = 2 }

abbrev build : Suggestion naturals
build = record { template = codes "make"; raw = []; score = 4; count = 1 }

hydrate-templates_example :
    (extra : ℕ) × ((extra ≤ 2)
      × (templates naturals (hydrate naturals store (change_dir ∷ build ∷ []) pulled [] [] 9 5)
          ≡ copies (suc extra) (codes "cd PATH") ++ templates naturals (build ∷ [])))
hydrate-templates_example =
    hydrate-templates naturals store change_dir (build ∷ []) pulled [] [] 9 5

abbrev padded : List Bytes
padded = [] ∷ codes "ls" ∷ []

padded-IsNulFree : All IsNulFree padded
padded-IsNulFree = omega arith

split_outer_key-raw_outer_key_example :
    split_outer_key (raw_outer_key padded (codes "cd PATH"))
    ≡ some (non_empty padded, codes "cd PATH")
split_outer_key-raw_outer_key_example =
    split_outer_key-raw_outer_key padded (codes "cd PATH") padded-IsNulFree
