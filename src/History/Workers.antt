-- ===== src/History/Workers.antt =====
-- Several workers normalize the commands of a history.
use hunch.Base.{
  ℕ, zero, suc, ◌≡◌, refl, sym, ap, ◌∙◌, inl, inr, Bool, true, false, Bool-cases, Option-cases,
  List, [], ◌∷◌, none, some, Bytes, arith, if◌then◌else◌, ◌==◌, ==_iff, get_elem?, any, All, map,
}
use hunch.Classify.Parents.{default_parents}
use hunch.Normalize.{normalize}
use hunch.History.{Job, set_slot, finish_jobs, empty_slots, normalize_concurrent}

abbrev pub template_of : Bytes → Bytes
template_of raw = normalize raw (some default_parents)

abbrev pub is_for : ℕ → Job → Bool
is_for i j = j.idx == i

-- An order in which jobs may be finished: each is a job of the history, and each command has one.
pub record IsSchedule (jobs : List Job) (raws : List Bytes) : Type 0 where
  pub sent : All (λ j. get_elem? raws j.idx ≡ some j.raw) jobs
  pub all_sent : (i : ℕ) (raw : Bytes) → get_elem? raws i ≡ some raw → any (is_for i) jobs ≡ true

get_elem?-ext {ℓ} :
    {A : Type ℓ} (xs ys : List A) → ((i : ℕ) → get_elem? xs i ≡ get_elem? ys i) → xs ≡ ys
get_elem?-ext [] [] h = refl
get_elem?-ext [] (y ∷ ys) h = absurd (cc (h 0))
get_elem?-ext (x ∷ xs) [] h = absurd (cc (h 0))
get_elem?-ext (x ∷ xs) (y ∷ ys) h =
    let same : some x ≡ some y = h 0 in
    let first : x ≡ y = cc in rw (first, get_elem?-ext xs ys (λ i. h (suc i)))

get_elem?-map :
    (f : Bytes → Bytes) (xs : List Bytes) (i : ℕ) (x : Bytes)
    → get_elem? xs i ≡ some x
    → get_elem? (map f xs) i ≡ some (f x)
get_elem?-map f [] i x h = absurd (cc)
get_elem?-map f (y ∷ xs) zero x h = let same : y ≡ x = cc in rw same
get_elem?-map f (y ∷ xs) (suc i) x h = get_elem?-map f xs i x h

get_elem?-map-none :
    (f : Bytes → Bytes) (xs : List Bytes) (i : ℕ)
    → get_elem? xs i ≡ none
    → get_elem? (map f xs) i ≡ none
get_elem?-map-none f [] i h = refl
get_elem?-map-none f (y ∷ xs) zero h = absurd (cc)
get_elem?-map-none f (y ∷ xs) (suc i) h = get_elem?-map-none f xs i h

get_elem?-set_slot :
    (slots : List Bytes) (i k : ℕ) (v s : Bytes)
    → get_elem? slots k ≡ some s
    → get_elem? (set_slot slots i v) k ≡ some (if i == k then v else s)
unfolding set_slot
get_elem?-set_slot [] i k v s h = absurd (cc)
get_elem?-set_slot (x ∷ slots) zero zero v s h = refl
get_elem?-set_slot (x ∷ slots) zero (suc k) v s h = ground arith
get_elem?-set_slot (x ∷ slots) (suc i) zero v s h = ground arith
get_elem?-set_slot (x ∷ slots) (suc i) (suc k) v s h =
    ground (arith, get_elem?-set_slot slots i k v s h)

get_elem?-set_slot-none :
    (slots : List Bytes) (i k : ℕ) (v : Bytes)
    → get_elem? slots k ≡ none
    → get_elem? (set_slot slots i v) k ≡ none
unfolding set_slot
get_elem?-set_slot-none [] i k v h = refl
get_elem?-set_slot-none (x ∷ slots) i zero v h = absurd (cc)
get_elem?-set_slot-none (x ∷ slots) zero (suc k) v h = h
get_elem?-set_slot-none (x ∷ slots) (suc i) (suc k) v h = get_elem?-set_slot-none slots i k v h

module _ (raws : List Bytes) where
  slot-finish_jobs :
      (jobs : List Job) (slots : List Bytes) (k : ℕ) (raw s : Bytes)
      → All (λ j. get_elem? raws j.idx ≡ some j.raw) jobs
      → get_elem? raws k ≡ some raw
      → get_elem? slots k ≡ some s
      → get_elem? (finish_jobs jobs slots) k
        ≡ some (if any (is_for k) jobs then template_of raw else s)
  unfolding finish_jobs
  slot-finish_jobs [] slots k raw s sent here slot = slot
  slot-finish_jobs (j ∷ jobs) slots k raw s (sj, sent) here slot =
      let written = get_elem?-set_slot slots j.idx k (template_of j.raw) s slot in
      elim (Bool-cases (is_for k j)) [
        | inr e ↦
            let kept : get_elem? (set_slot slots j.idx (template_of j.raw)) k ≡ some s =
              rw e at written in
            rw e (slot-finish_jobs jobs _ k raw s sent here kept)
        | inl e ↦
            let same : some j.raw ≡ some raw = sym sj ∙ rw ((==_iff j.idx k).0 e) here in
            let own : j.raw ≡ raw = cc in
            let done : get_elem? (set_slot slots j.idx (template_of j.raw)) k
                ≡ some (template_of raw) =
              (rw e at written) ∙ ap (λ (r : Bytes). some (template_of r)) own in
            rw e (
              slot-finish_jobs jobs _ k raw (template_of raw) sent here done
              ∙ either (any (is_for k) jobs) (template_of raw))
      ]
    where
      either : (b : Bool) (t : Bytes) → some (if b then t else t) ≡ some t
      either true t = refl
      either false t = refl

  none-finish_jobs :
      (jobs : List Job) (slots : List Bytes) (k : ℕ)
      → get_elem? slots k ≡ none
      → get_elem? (finish_jobs jobs slots) k ≡ none
  unfolding finish_jobs
  none-finish_jobs [] slots k h = h
  none-finish_jobs (j ∷ jobs) slots k h =
      none-finish_jobs jobs _ k (get_elem?-set_slot-none slots j.idx k (template_of j.raw) h)

empty_slots-none :
    (raws : List Bytes) (k : ℕ) → get_elem? raws k ≡ none → get_elem? (empty_slots raws) k ≡ none
unfolding empty_slots
empty_slots-none [] k h = refl
empty_slots-none (r ∷ raws) zero h = absurd (cc)
empty_slots-none (r ∷ raws) (suc k) h = empty_slots-none raws k h

empty_slots-some :
    (raws : List Bytes) (k : ℕ) (raw : Bytes)
    → get_elem? raws k ≡ some raw
    → get_elem? (empty_slots raws) k ≡ some []
unfolding empty_slots
empty_slots-some [] k raw h = absurd (cc)
empty_slots-some (r ∷ raws) zero raw h = refl
empty_slots-some (r ∷ raws) (suc k) raw h = empty_slots-some raws k raw h

-- In whatever order the workers finish the jobs, the result is the template of each command in its
-- own place.
pub normalize_concurrent-map :
    (jobs : List Job) (raws : List Bytes)
    → IsSchedule jobs raws
    → normalize_concurrent jobs raws ≡ map template_of raws
unfolding normalize_concurrent
normalize_concurrent-map jobs raws h =
    get_elem?-ext (finish_jobs jobs (empty_slots raws)) (map template_of raws) (λ k.
      elim (Option-cases (get_elem? raws k)) [
        | inl e ↦
            none-finish_jobs raws jobs (empty_slots raws) k (empty_slots-none raws k e)
            ∙ sym (get_elem?-map-none template_of raws k e)
        | inr (raw, e) ↦
            slot-finish_jobs raws jobs (empty_slots raws) k raw [] h.sent e
              (empty_slots-some raws k raw e)
            ∙ rw (h.all_sent k raw e) (sym (get_elem?-map template_of raws k raw e))
      ])
