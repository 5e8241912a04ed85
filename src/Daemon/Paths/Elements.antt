-- ===== src/Daemon/Paths/Elements.antt =====
-- An absolute path by its elements, and what `dir` and `clean` make of it.
use hunch.Base.{
  ◌+◌, ◌≤◌, ◌≡◌, ◌≢◌, refl, ap, ◌∙◌, inl, inr, Bool, true, Bool-cases, List, [], ◌∷◌, ◌++◌, ◌||◌,
  append_assoc, Bytes, codes, arith, ◌==◌, if◌then◌else◌, bytes_eq, bytes_eq_iff, split,
  split-append_separator, split-one, length, length-append, All,
}
use hunch.Normalize.{join}
use hunch.Daemon.Paths.{
  is_rooted, step_back, clean_elements, reversed, clean, or_dot, up_to_slash, dir,
}

-- The name of an entry of a directory: not empty, no slash, not `.` and not `..`.
pub record IsName (e : Bytes) : Type 0 where
  pub not_empty : e ≢ []
  pub no_slash : All (λ c. c ≢ 47) e
  pub not_dot : e ≢ codes "."
  pub not_dots : e ≢ codes ".."

-- Each element behind a slash; the innermost element stands first.
pub slashed : List Bytes → Bytes
slashed [] = []
slashed (e ∷ above) = slashed above ++ 47 ∷ e

unfoldable pub path_of : List Bytes → Bytes
unfolding slashed
path_of [] = codes "/"
path_of (e ∷ above) = slashed (e ∷ above)

clean_elements-append :
    (rooted : Bool) (kept xs ys : List Bytes)
    → clean_elements rooted kept (xs ++ ys)
      ≡ clean_elements rooted (clean_elements rooted kept xs) ys
unfolding clean_elements
clean_elements-append rooted kept [] ys = refl
clean_elements-append rooted kept (e ∷ xs) ys =
    elim (Bool-cases (bytes_eq e [] || bytes_eq e (codes "."))) [
      | inl h ↦ rw h (clean_elements-append rooted kept xs ys)
      | inr h ↦ rw h (elim (Bool-cases (bytes_eq e (codes ".."))) [
        | inl k ↦ rw k (clean_elements-append rooted (step_back rooted kept) xs ys)
        | inr k ↦ rw k (clean_elements-append rooted (e ∷ kept) xs ys)
      ])
    ]

clean_elements-name :
    (kept : List Bytes) (e : Bytes) → IsName e → clean_elements true kept (e ∷ []) ≡ e ∷ kept
unfolding clean_elements
clean_elements-name kept e h =
    ground (arith, bytes_eq_iff e [], bytes_eq_iff e (codes "."), bytes_eq_iff e (codes ".."))

-- The elements of a path are read back, the innermost first.
clean_elements-slashed :
    (es : List Bytes) → All IsName es → clean_elements true [] (split 47 (slashed es)) ≡ es
unfolding slashed
clean_elements-slashed [] h = unfold clean_elements split bytes_eq in refl
clean_elements-slashed (e ∷ es) (he, h) =
    ap (clean_elements true []) (
      split-append_separator 47 (slashed es) e
      ∙ ap (λ (l : List Bytes). split 47 (slashed es) ++ l) (split-one 47 e he.no_slash))
    ∙ clean_elements-append true [] (split 47 (slashed es)) (e ∷ [])
    ∙ ap (λ (l : List Bytes). clean_elements true l (e ∷ [])) (clean_elements-slashed es h)
    ∙ clean_elements-name es e he

join-reversed :
    (x : Bytes) (done es : List Bytes)
    → 47 ∷ join (reversed (x ∷ done) es) (codes "/")
      ≡ slashed es ++ 47 ∷ join (x ∷ done) (codes "/")
unfolding reversed slashed
join-reversed x done [] = refl
join-reversed x done (e ∷ es) = join-reversed e (x ∷ done) es ∙ unfold join in simp append_assoc

join-path_of : (es : List Bytes) → 47 ∷ join (reversed [] es) (codes "/") ≡ path_of es
unfolding reversed path_of
join-path_of [] = unfold join in refl
join-path_of (e ∷ es) = join-reversed e [] es ∙ unfold join in refl

is_rooted-slashed : (es : List Bytes) (s : Bytes) → is_rooted (slashed es ++ 47 ∷ s) ≡ true
unfolding is_rooted slashed
is_rooted-slashed [] s = refl
is_rooted-slashed (e ∷ es) s =
    ap is_rooted (append_assoc (slashed es) (47 ∷ e) (47 ∷ s)) ∙ is_rooted-slashed es (e ++ 47 ∷ s)

clean_elements-blank : (kept : List Bytes) → clean_elements true kept ([] ∷ []) ≡ kept
unfolding clean_elements bytes_eq
clean_elements-blank kept = refl

-- A path of names is clean but for a slash at its end.
clean-slashed : (es : List Bytes) → All IsName es → clean (slashed es ++ codes "/") ≡ path_of es
unfolding clean
clean-slashed es h = rw (is_rooted-slashed es []) (
    ap (λ (l : List Bytes). 47 ∷ join (reversed [] (clean_elements true [] l)) (codes "/"))
      (split-append_separator 47 (slashed es) [])
    ∙ ap (λ (l : List Bytes). 47 ∷ join (reversed [] l) (codes "/"))
        (clean_elements-append true [] (split 47 (slashed es)) ([] ∷ [])
          ∙ clean_elements-blank (clean_elements true [] (split 47 (slashed es)))
          ∙ clean_elements-slashed es h)
    ∙ join-path_of es)

up_to_slash-none : (s : Bytes) → All (λ c. c ≢ 47) s → up_to_slash s ≡ []
unfolding up_to_slash
up_to_slash-none [] h = refl
up_to_slash-none (c ∷ s) (hc, h) = rw (up_to_slash-none s h) (ground arith)

up_to_slash-append :
    (a s : Bytes) → All (λ c. c ≢ 47) s → up_to_slash (a ++ 47 ∷ s) ≡ a ++ codes "/"
unfolding up_to_slash
up_to_slash-append [] s h = rw (up_to_slash-none s h)
up_to_slash-append (c ∷ a) s h = rw (up_to_slash-append a s h) (kept a)
  where
    kept :
        (l : Bytes)
        → (elim (l ++ codes "/") as (λ _. Bytes) [
          | [] ↦ (if c == 47 then c ∷ [] else [])
          | d ∷ t ↦ c ∷ d ∷ t
        ])
          ≡ c ∷ (l ++ codes "/")
    kept [] = refl
    kept (d ∷ l) = refl

pub dir-path_of :
    (e : Bytes) (es : List Bytes) → All IsName (e ∷ es) → dir (path_of (e ∷ es)) ≡ path_of es
unfolding dir path_of slashed
dir-path_of e es (he, h) =
    ap clean (up_to_slash-append (slashed es) e he.no_slash) ∙ clean-slashed es h

pub length-path_of :
    (e : Bytes) (es : List Bytes) → IsName e → length (path_of es) + 1 ≤ length (path_of (e ∷ es))
unfolding path_of slashed
length-path_of [] es h = absurd (h.not_empty refl)
length-path_of (c ∷ e) [] h = omega arith
length-path_of (c ∷ e) (f ∷ es) h = omega (arith, length-append (slashed es ++ 47 ∷ f) (47 ∷ c ∷ e))

pub dir-root : dir (path_of []) ≡ path_of []
unfolding dir path_of bytes_eq split join
dir-root = refl

or_dot-ne-nil : (path : Bytes) → or_dot path ≢ []
unfolding or_dot
or_dot-ne-nil [] h = absurd (cc h)
or_dot-ne-nil (c ∷ path) h = absurd (cc h)

pub clean-ne-nil : (path : Bytes) → clean path ≢ []
unfolding clean
clean-ne-nil path = elim (Bool-cases (is_rooted path)) [
  | inl e ↦ rw e (λ h. absurd (cc h))
  | inr e ↦ rw e (or_dot-ne-nil _)
]
