-- ===== src/Daemon/Seeding/Refused.antt =====
-- An import that is refused.
use hunch.Base.{
  ◌≡◌, ◌≢◌, inl, inr, refl, sym, ap, subst, Bool, List, [], ◌∷◌, Option, none, some, Bytes,
}
use hunch.Graph.{Transition}
use hunch.Daemon.{Daemon, Request}
use hunch.Daemon.Seeding.{
  ImportError, path_required, bad_path, missing, no_status, symlink, special, regular, Files,
  FileStatus, ImportResponse, import_seed_from_bytes, import_seed, respond, check_importable,
  import_file, handle_import,
}
use hunch.Daemon.Seeding.Answers.{
  Gives, IsAt, AllOrNothing, AllOrError, import_seed_from_bytes-AllOrError, import_seed-AllOrError,
}

module _ (files : Files) (decode : Bytes → Option (List Transition)) (save : List Transition → Bool)
    (d : Daemon) where
  respond-AllOrNothing :
      (req : Request) (content : Option Bytes) (result : Daemon × Option ImportError)
      → Gives files decode save d req content
      → AllOrError files decode save d content result
      → AllOrNothing files decode save d req (respond result)
  unfolding respond
  respond-AllOrNothing req content (d', none) from h = (content, from, h)
  respond-AllOrNothing req content (d', some e) from (same, h) = (same, (content, from, h))

  import_path-AllOrNothing :
      (req : Request) (path : Bytes) (status : FileStatus)
      → IsAt files decode save d req path
      → files.status path ≡ status
      → AllOrNothing files decode save d req
          (elim (check_importable status) as (λ _. Daemon × ImportResponse) [
            | some refusal ↦ (d, refusal)
            | none ↦ respond (import_seed files decode save path d)
          ])
  unfolding check_importable
  import_path-AllOrNothing req path missing at e = (refl, (path, at, e))
  import_path-AllOrNothing req path no_status at e = (refl, (path, at, e))
  import_path-AllOrNothing req path symlink at e = (refl, (path, at, e))
  import_path-AllOrNothing req path special at e = (refl, (path, at, e))
  import_path-AllOrNothing req path regular at e =
      respond-AllOrNothing req (files.read path) (import_seed files decode save path d)
        (inr (path, at, e, refl)) (import_seed-AllOrError files decode save d path)

  import_file-AllOrNothing :
      (req : Request)
      → req.seed_data ≡ []
      → req.next ≢ []
      → AllOrNothing files decode save d req (import_file files decode save req.next d)
  unfolding import_file
  import_file-AllOrNothing req no_data named = by_path (files.absolute req.next) refl
    where
      by_path :
          (o : Option Bytes)
          → files.absolute req.next ≡ o
          → AllOrNothing files decode save d req (elim o as (λ _. Daemon × ImportResponse) [
            | none ↦ (d, bad_path)
            | some path ↦ elim (check_importable (files.status path)) [
              | some refusal ↦ (d, refusal)
              | none ↦ respond (import_seed files decode save path d)
            ]
          ])
      by_path none e = (refl, no_data, named, e)
      by_path (some path) e =
          import_path-AllOrNothing req path (files.status path)
            (record { no_data = no_data; named = named; absolute = e }) refl

  -- An import that answers that it did has merged all of the seed that the request gives, its data
  -- or else the regular file that it names, decoded and valid, into the graph, and has flushed it.
  -- Any other answer leaves the daemon exactly as it was, and its reason holds: there is neither
  -- data nor a path, the path cannot be made absolute, the file has the status that refuses it, it
  -- cannot be read, or what is given fails the decoding, the validation or the merge, having passed
  -- the tests before.
  pub handle_import-AllOrNothing :
      (req : Request) → AllOrNothing files decode save d req (handle_import files decode save req d)
  unfolding handle_import
  handle_import-AllOrNothing req = by_data req.seed_data refl
    where
      by_next :
          (next : Bytes)
          → req.next ≡ next
          → req.seed_data ≡ []
          → AllOrNothing files decode save d req (elim next as (λ _. Daemon × ImportResponse) [
            | [] ↦ (d, path_required)
            | c ∷ n ↦ import_file files decode save (c ∷ n) d
          ])
      by_next [] e no_data = (refl, no_data, e)
      by_next (c ∷ n) e no_data =
          let named : req.next ≢ [] = λ empty. absurd (cc (e, empty)) in
          subst (λ t. AllOrNothing files decode save d req (import_file files decode save t d)) e
            (import_file-AllOrNothing req no_data named)

      by_data :
          (text : Bytes)
          → req.seed_data ≡ text
          → AllOrNothing files decode save d req (elim text as (λ _. Daemon × ImportResponse) [
            | c ∷ t ↦ respond (import_seed_from_bytes decode save (c ∷ t) d)
            | [] ↦ elim req.next [
              | [] ↦ (d, path_required)
              | c ∷ n ↦ import_file files decode save (c ∷ n) d
            ]
          ])
      by_data [] e = by_next req.next refl e
      by_data (c ∷ t) e =
          let given : req.seed_data ≢ [] = λ empty. absurd (cc (e, empty)) in
          respond-AllOrNothing req (some (c ∷ t)) (import_seed_from_bytes decode save (c ∷ t) d)
            (inl (given, ap some (sym e)))
            (import_seed_from_bytes-AllOrError files decode save d (c ∷ t))
