-- ===== src/Daemon/Suggest/Shown.antt =====
-- What the suggestions for a prompt have in common.
use hunch.Base.{
  or_true, ℕ, zero, suc, ◌≤◌, ◌≡◌, refl, ◌⊎◌, inl, inr, true, ◌&&◌, Bool-cases, List, [], ◌∷◌,
  Option, some, Bytes, arith, ltb, bytes_eq, bytes_eq_refl, starts_with, contains, take, length,
  All, All-append,
}
use hunch.Floats.{Float64}
use hunch.Normalize.{normalize}
use hunch.Predict.{Suggestion, cap}
use hunch.Predict.Agreement.{length-cap}
use hunch.RawStore.{RawStore, non_empty, collect_arg_tokens}
use hunch.RawStore.Hydrate.{hydrate}
use hunch.RawStore.Hydrate.Slots.{templates, copies, hydrate-templates, hydrate_bounds}
use hunch.Config.{Options}
use hunch.Daemon.Filters.{
  filter_by_prefix, keep_prefixed, suppress_cd_to_current, keep_moving, goes_nowhere,
}
use hunch.Daemon.Fallback.{predict_with_fallback}
use hunch.Daemon.{Daemon, Request, normalize_all}
use hunch.Daemon.Suggest.{clean_cwd, filter_if_prefixed, candidates, handle_predict}

-- A template that may be shown: it continues what is typed, and the ladder offers it.
pub record IsShown (parents : List Bytes) (prefix : Bytes) (offered : List Bytes) (t : Bytes)
    : Type 0 where
  pub continues : starts_with (normalize prefix (some parents)) t ≡ true
  pub is_offered : contains offered t ≡ true

module _ {ℓ} (fl : Float64) (P : Bytes → Type ℓ) where
  abbrev AllTemplates : List (Suggestion fl) → Type ℓ
  AllTemplates l = All P (templates fl l)

  keep_moving-All :
      (cwd : Bytes) (l : List (Suggestion fl))
      → AllTemplates l
      → AllTemplates (keep_moving fl cwd l)
  unfolding keep_moving
  keep_moving-All cwd [] h = h
  keep_moving-All cwd (s ∷ l) h = elim (Bool-cases (goes_nowhere fl cwd s)) [
    | inl e ↦ rw e (keep_moving-All cwd l h.1)
    | inr e ↦ rw e (h.0, keep_moving-All cwd l h.1)
  ]

  suppress-All :
      (cwd : Bytes) (l : List (Suggestion fl))
      → AllTemplates l
      → AllTemplates (suppress_cd_to_current fl l cwd)
  unfolding suppress_cd_to_current
  suppress-All [] l h = h
  suppress-All (c ∷ cwd) l h = keep_moving-All (c ∷ cwd) l h

  take-All : (n : ℕ) (l : List (Suggestion fl)) → AllTemplates l → AllTemplates (take n l)
  take-All zero l h = tt
  take-All (suc n) [] h = h
  take-All (suc n) (s ∷ l) h = (h.0, take-All n l h.1)

  cap-All : (n : ℕ) (l : List (Suggestion fl)) → AllTemplates l → AllTemplates (cap n l)
  unfolding cap
  cap-All n l h = elim (Bool-cases (ltb 0 n && ltb n (length l))) [
    | inl e ↦ rw e (take-All n l h)
    | inr e ↦ rw e h
  ]

  copies-All : (n : ℕ) (t : Bytes) → P t → All P (copies n t)
  copies-All zero t h = tt
  copies-All (suc n) t h = (h, copies-All n t h)

  hydrate-All :
      (s : RawStore) (l : List (Suggestion fl)) (state : List Bytes) (prefix : Bytes)
      (tokens : List Bytes) (at_time limit : ℕ)
      → AllTemplates l
      → AllTemplates (hydrate fl s l state prefix tokens at_time limit)
  hydrate-All s [] state prefix tokens at_time limit h = unfold hydrate in h
  hydrate-All s (top ∷ l) state prefix tokens at_time limit (ht, h) =
      let (extra, (few, same)) = hydrate-templates fl s top l state prefix tokens at_time limit in
      rw same (
        All-append P (copies (suc extra) top.template) (templates fl l)
          (copies-All (suc extra) top.template ht) h)

module _ (fl : Float64) (parents : List Bytes) (prefix : Bytes) (offered : List Bytes) where
  keep_prefixed-Shown :
      (l : List (Suggestion fl))
      → All (λ t. contains offered t ≡ true) (templates fl l)
      → All
          (IsShown parents prefix offered)
          (templates fl (keep_prefixed fl (normalize prefix (some parents)) l))
  unfolding keep_prefixed
  keep_prefixed-Shown [] h = tt
  keep_prefixed-Shown (s ∷ l) h =
      elim (Bool-cases (starts_with (normalize prefix (some parents)) s.template)) [
        | inl e ↦ rw e (record { continues = e; is_offered = h.0 }, keep_prefixed-Shown l h.1)
        | inr e ↦ rw e (keep_prefixed-Shown l h.1)
      ]

contained-cons :
    (x : Bytes) (l ts : List Bytes)
    → All (λ t. contains l t ≡ true) ts
    → All (λ t. contains (x ∷ l) t ≡ true) ts
unfolding contains
contained-cons x l [] h = tt
contained-cons x l (t ∷ ts) h = (rw h.0 (or_true (bytes_eq x t)), contained-cons x l ts h.1)

contained : (l : List Bytes) → All (λ t. contains l t ≡ true) l
unfolding contains
contained [] = tt
contained (x ∷ l) = (rw (bytes_eq_refl x), contained-cons x l l (contained l))

filter_if_prefixed-Shown :
    (fl : Float64) (parents : List Bytes) (prefix : Bytes) (l : List (Suggestion fl))
    → All
        (IsShown parents prefix (templates fl l))
        (templates fl (filter_if_prefixed fl prefix parents l))
unfolding filter_if_prefixed filter_by_prefix
filter_if_prefixed-Shown fl parents [] l = untyped (templates fl l) (contained (templates fl l))
  where
    untyped :
        (ts : List Bytes)
        → All (λ t. contains (templates fl l) t ≡ true) ts
        → All (IsShown parents [] (templates fl l)) ts
    untyped [] h = tt
    untyped (t ∷ ts) h = (
      record { continues = unfold normalize starts_with in refl; is_offered = h.0 },
      untyped ts h.1,
    )
filter_if_prefixed-Shown fl parents (c ∷ prefix) l =
    keep_prefixed-Shown fl parents (c ∷ prefix) (templates fl l) l (contained (templates fl l))

candidates-Shown :
    (fl : Float64) (opts : Options fl) (d : Daemon) (req : Request) (at_time : ℕ)
    → All
        (IsShown d.parents req.prefix (
          templates fl (
            predict_with_fallback fl opts d.g
              (normalize_all d.parents req.state)
              (clean_cwd req.cwd)
              req.prior_outcome
              at_time)))
        (templates fl (candidates fl opts d req at_time))
unfolding candidates
candidates-Shown fl opts d req at_time =
    let found =
      predict_with_fallback fl opts d.g (normalize_all d.parents req.state) (clean_cwd req.cwd)
        req.prior_outcome at_time in
    let P = IsShown d.parents req.prefix (templates fl found) in
    let typed = filter_if_prefixed fl req.prefix d.parents found in
    cap-All fl P req.limit (suppress_cd_to_current fl typed (clean_cwd req.cwd)) (
      suppress-All fl P (clean_cwd req.cwd) typed
        (filter_if_prefixed-Shown fl d.parents req.prefix found))

zero_or_more : (n : ℕ) → (n ≡ 0) ⊎ (1 ≤ n)
zero_or_more zero = inl refl
zero_or_more (suc n) = inr (omega arith)

-- Of a request with a good time the suggestions are all of them templates that the fallback ladder
-- offers and that continue the template of the typed prefix, and under a positive limit there are
-- at most as many as it says.
pub handle_predict-Shown :
    (fl : Float64) (opts : Options fl) (request_time : Bytes → Option ℕ) (req : Request)
    (d : Daemon) (at_time : ℕ)
    → request_time req.at_text ≡ some at_time
    → (sugs : List (Suggestion fl)) × (handle_predict fl opts request_time req d ≡ some sugs)
      × All
          (IsShown d.parents req.prefix (
            templates fl (
              predict_with_fallback fl opts d.g
                (normalize_all d.parents req.state)
                (clean_cwd req.cwd)
                req.prior_outcome
                at_time)))
          (templates fl sugs)
      × ((req.limit ≡ 0) ⊎ (length sugs ≤ req.limit))
unfolding handle_predict
handle_predict-Shown fl opts request_time req d at_time good =
    let found =
      predict_with_fallback fl opts d.g (normalize_all d.parents req.state) (clean_cwd req.cwd)
        req.prior_outcome at_time in
    let l = candidates fl opts d req at_time in
    let state = non_empty (normalize_all d.parents req.state) in
    let tokens = collect_arg_tokens req.state (some d.parents) in
    (
      hydrate fl d.raws l state req.prefix tokens at_time req.limit,
      rw (good, handle_predict),
      hydrate-All fl (IsShown d.parents req.prefix (templates fl found)) d.raws l state req.prefix
          tokens at_time req.limit (candidates-Shown fl opts d req at_time),
      elim (zero_or_more req.limit) [
        | inl none_set ↦ inl none_set
        | inr some_set ↦ inr (
            hydrate_bounds fl d.raws l state req.prefix tokens at_time req.limit some_set
              (unfold candidates in length-cap req.limit _ some_set))
      ],
    )
