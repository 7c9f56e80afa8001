-- ===== src/Migrate/Run/Prefix.antt =====
-- server/internal/postgres/migrate.go: how far `Migrate` gets.
use ghapp_demo.Base.{
  ◌≡◌, refl, sym, ap, subst, ◌∙◌, Bool, not, List, [], ◌∷◌, ◌++◌, Option, some, arith, select, map,
  append_assoc, append-nil, Bool-cases, inl, inr,
}
use ghapp_demo.Base.Result.{ok, err}
use ghapp_demo.Migrate.Run.{
  Entry, Database, then_do, apply_migration, apply_files, is_applied, versions_of, migrate,
  files_of, later, next_fails, failed,
}
use ghapp_demo.Migrate.Run.Steps.{
  Step, run_files, run_statements, on_schema, apply_migration-ok, apply_migration-err,
}
use ghapp_demo.Migrate.Split.{split_statements}
use ghapp_demo.Text.{Text, codes}

abbrev pub is_pending : List Text → Entry → Bool
is_pending applied e = not (is_applied applied e)

-- The files that are not recorded, in the order of their names.
abbrev pub pending : List Text → List Entry → List Entry
pending applied files = select (is_pending applied) files

abbrev pub name_of : Entry → Text
name_of e = e.name

module _ {S : Type 0} (exec : Text → S → Option S) where
  -- Some files are done, all of them if there is no error: the schema is theirs, and the rows of
  -- `schema_migrations` are the old ones and theirs.
  abbrev pub HasDone : List Entry → Database S → Step S → Type 0
  HasDone files w r =
      (done rest : List Entry) × (files ≡ done ++ rest)
      × (run_files exec done w.schema ≡ some r.1.schema)
      × (versions_of r.1.versions ≡ versions_of w.versions ++ map name_of done)
      × (r.0 ≡ ok tt → rest ≡ [])

  nothing_done :
      (files : List Entry) (w : Database S) (r : Step S)
      → r.1.schema ≡ w.schema
      → versions_of r.1.versions ≡ versions_of w.versions
      → (r.0 ≡ ok tt → files ≡ [])
      → HasDone files w r
  unfolding run_files
  nothing_done files w r s v f = ([], files, refl, ap some (sym s), v ∙ sym (append-nil _), f)

  one_done :
      (e : Entry) (files : List Entry) (w w1 : Database S) (r : Step S)
      → run_statements exec (split_statements e.content) w.schema ≡ some w1.schema
      → versions_of w1.versions ≡ versions_of w.versions ++ (e.name ∷ [])
      → HasDone files w1 r
      → HasDone (e ∷ files) w r
  unfolding run_files
  one_done e files w w1 r s v (done, rest, p, q, u, f) = (
    e ∷ done,
    rest,
    ap (◌∷◌ e) p,
    ap (on_schema (run_files exec done)) s ∙ q,
    u ∙ ap (λ x. x ++ map name_of done) v ∙ append_assoc (versions_of w.versions) _ _,
    f,
  )

  after_one :
      (e : Entry) (files : List Entry) (w : Database S) (r : Step S) (more : Database S → Step S)
      → apply_migration exec e.name e.content w ≡ r
      → ((w1 : Database S) → HasDone files w1 (more w1))
      → HasDone (e ∷ files) w (then_do r more)
  after_one e files w (ok u, w1) more h later =
      let (s, v) = apply_migration-ok exec e.name e.content w w1 h in
      one_done e files w w1 (more w1) s v (later w1)
  after_one e files w (err x, w1) more h later =
      let (s, v) = apply_migration-err exec e.name e.content w w1 x h in
      nothing_done (e ∷ files) w (err x, w1) s (ap versions_of v) (λ k. ground arith)

  pub apply_files-HasDone :
      (applied : List Text) (files : List Entry) (w : Database S)
      → HasDone (pending applied files) w (apply_files exec applied files w)
  unfolding apply_files
  apply_files-HasDone applied [] w = nothing_done [] w (ok tt, w) refl refl (λ k. refl)
  apply_files-HasDone applied (e ∷ files) w = elim (Bool-cases (is_applied applied e)) [
    | inl k ↦
        let same : apply_files exec applied (e ∷ files) w ≡ apply_files exec applied files w =
          rw (k, apply_files) refl in
        let left : pending applied (e ∷ files) ≡ pending applied files = rw (k, select) refl in
        subst (λ r. HasDone (pending applied (e ∷ files)) w r) (sym same)
          (subst (λ fs. HasDone fs w (apply_files exec applied files w)) (sym left)
            (apply_files-HasDone applied files w))
    | inr k ↦
        let r : Step S = apply_migration exec e.name e.content w in
        let same : apply_files exec applied (e ∷ files) w
            ≡ then_do r (apply_files exec applied files) =
          rw (k, apply_files) refl in
        let left : pending applied (e ∷ files) ≡ e ∷ pending applied files = rw (k, select) refl in
        subst (λ r. HasDone (pending applied (e ∷ files)) w r) (sym same)
          (subst (λ fs. HasDone fs w (then_do r (apply_files exec applied files))) (sym left)
            (after_one e (pending applied files) w r (apply_files exec applied files) refl
              (apply_files-HasDone applied files)))
  ]

  -- However `Migrate` ends, the database is that of some of the files that were not recorded, run
  -- in the order of their names from the first one on: the schema is what their statements make of
  -- it, and exactly they are recorded beside the old rows. Without an error they are all of them.
  pub migrate-HasDone :
      (entries : List Entry) (w : Database S)
      → HasDone (pending (versions_of w.versions) (files_of entries)) w (migrate exec entries w)
  unfolding migrate
  migrate-HasDone entries w = elim (Bool-cases (next_fails w.faults)) [
    | inl k ↦
        let r : Step S = (err (failed (codes "create") []), record w { faults = later w.faults }) in
        let same : migrate exec entries w ≡ r = rw (k) refl in
        subst (HasDone files w) (sym same) (nothing_done files w r refl refl (λ k. ground arith))
    | inr k ↦ elim (Bool-cases (next_fails (later w.faults))) [
      | inl m ↦
          let r : Step S = (err (failed (codes "load") []), loaded) in
          let same : migrate exec entries w ≡ r = rw (k, m) refl in
          subst (HasDone files w) (sym same) (nothing_done files w r refl refl (λ k. ground arith))
      | inr m ↦
          let same : migrate exec entries w
              ≡ apply_files exec (versions_of w.versions) (files_of entries) loaded =
            rw (k, m) refl in
          subst (HasDone files w) (sym same)
            (apply_files-HasDone (versions_of w.versions) (files_of entries) loaded)
    ]
  ]
    where
      files : List Entry
      files = pending (versions_of w.versions) (files_of entries)

      loaded : Database S
      loaded = record w {
        versions = some (versions_of w.versions);
        faults = later (later w.faults);
      }
