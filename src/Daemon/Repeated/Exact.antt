-- ===== src/Daemon/Repeated/Exact.antt =====
-- An answer of the exact context passes the test of counts and is the answer of the ladder.
use hunch.Base.{
  ℕ, ◌≤◌, ◌≡◌, refl, inl, inr, true, false, Bool-cases, List, [], ◌∷◌, Option, none, some, Bytes,
  arith, leb, any,
}
use hunch.Floats.{Float64}
use hunch.Predict.{Suggestion}
use hunch.Predict.Offered.{is_suggested}
use hunch.Daemon.Filters.{with_min_count, keep_counted}
use hunch.Daemon.Fallback.{exact_directory, FallbackResult, exact_answer, or_else, or_result, climb}

module _ (fl : Float64) (next : Bytes) (n : ℕ) where
  any-keep_counted :
      (min_count : ℕ) (l : List (Suggestion fl))
      → min_count ≤ n
      → any (is_suggested fl next n) l ≡ true
      → any (is_suggested fl next n) (keep_counted fl min_count l) ≡ true
  unfolding keep_counted
  any-keep_counted min_count [] enough h = h
  any-keep_counted min_count (s ∷ l) enough h = elim (Bool-cases (leb min_count s.count)) [
    | inl e ↦ elim (Bool-cases (is_suggested fl next n s)) [
      | inl k ↦ rw (e, k)
      | inr k ↦ rw (e, k) (any-keep_counted min_count l enough (rw k at h))
    ]
    | inr e ↦
        let few : is_suggested fl next n s ≡ false = ground arith in
        rw e (any-keep_counted min_count l enough (rw few at h))
  ]

  pub any-with_min_count :
      (l : List (Suggestion fl)) (min_count : ℕ)
      → min_count ≤ n
      → any (is_suggested fl next n) l ≡ true
      → any (is_suggested fl next n) (with_min_count fl l min_count) ≡ true
  unfolding with_min_count
  any-with_min_count l min_count enough h = elim (Bool-cases (leb min_count 1)) [
    | inl e ↦ rw e h
    | inr e ↦ rw e (any-keep_counted min_count l enough h)
  ]

  exact_answer-some :
      (ask : List Bytes → Bytes → List (Suggestion fl)) (min_confidence : fl.F) (prev : List Bytes)
      (cwd : Bytes)
      → any (is_suggested fl next n) (ask prev cwd) ≡ true
      → exact_answer fl ask min_confidence prev cwd
        ≡ some (record {
          suggestions = ask prev cwd;
          level = exact_directory;
          state = prev;
          cwd = cwd;
        })
  unfolding exact_answer
  exact_answer-some ask min_confidence prev cwd h =
      elim (ask prev cwd)
          as (λ l.
            any (is_suggested fl next n) l ≡ true
            → (elim l as (λ _. Option (FallbackResult fl)) [
              | [] ↦ none
              | s ∷ sugs ↦ some (record {
                suggestions = s ∷ sugs;
                level = exact_directory;
                state = prev;
                cwd = cwd;
              })
            ])
              ≡ some
                  (record { suggestions = l; level = exact_directory; state = prev; cwd = cwd })) [
                    | [] ↦ λ k. absurd (cc k)
                    | s ∷ sugs ↦ λ k. refl
                  ]
        h

  -- An answer of the exact context is the answer of the ladder.
  pub climb-exact :
      (ask : List Bytes → Bytes → List (Suggestion fl)) (min_confidence : fl.F) (prev : List Bytes)
      (cwd : Bytes)
      → any (is_suggested fl next n) (ask prev cwd) ≡ true
      → climb fl ask min_confidence prev cwd
        ≡ record { suggestions = ask prev cwd; level = exact_directory; state = prev; cwd = cwd }
  unfolding climb or_else or_result
  climb-exact ask min_confidence prev cwd h = rw (exact_answer-some ask min_confidence prev cwd h)
