-- ===== src/Migrate/Run/Steps.antt =====
-- server/internal/postgres/migrate.go: what a call that succeeded has done.
use ghapp_demo.Base.{
  ◌≡◌, refl, sym, ap, ◌∙◌, List, [], ◌∷◌, ◌++◌, Option, none, some, arith, any, Bool-cases, inl,
  inr,
}
use ghapp_demo.Base.Result.{Result, ok, err}
use ghapp_demo.Migrate.Run.{
  Entry, Database, MigrateError, call, then_do, executed, execute, execute_all, inserted, with_row,
  record_version, or_rollback, apply_migration, versions_of, later,
}
use ghapp_demo.Migrate.Split.{split_statements}
use ghapp_demo.Text.{Text, codes, equal}

abbrev pub Step : Type 0 → Type 0
Step S = Result MigrateError (Unit {0}) × Database S

module _ {S : Type 0} where
  pub then_do-ok :
      (r : Step S) (f : Database S → Step S) (w' : Database S)
      → then_do r f ≡ (ok tt, w')
      → (w : Database S) × (r ≡ (ok tt, w)) × (f w ≡ (ok tt, w'))
  then_do-ok (ok u, w) f w' h = (w, refl, h)
  then_do-ok (err e, w) f w' h = ground arith

  call-ok :
      (what name : Text) (w w' : Database S)
      → call what name w ≡ (ok tt, w')
      → w' ≡ record w { faults = later w.faults }
  call-ok what name w w' h = sym (ap (λ r. r.1) h)

  with_row-ok :
      (name : Text) (w w' : Database S) (v : Option (List Text))
      → with_row name w (inserted name v) ≡ (ok tt, w')
      → (w'.schema ≡ w.schema) × (versions_of w'.versions ≡ versions_of v ++ (name ∷ []))
  with_row-ok name w w' none h = ground arith
  with_row-ok name w w' (some v) h = elim (Bool-cases (any (equal name) v)) [
    | inl k ↦
        let e : with_row name w (inserted name (some v)) ≡ with_row name w none =
          rw (k, inserted) refl in
        ground arith
    | inr k ↦
        let e : with_row name w (inserted name (some v))
            ≡ with_row name w (some (v ++ (name ∷ []))) =
          rw (k, inserted) refl in
        let d : (record w { versions = some (v ++ (name ∷ [])) }) ≡ w' =
          ap (λ r. r.1) (sym e ∙ h) in
        (ap (λ w. w.schema) (sym d), ap (λ w. versions_of w.versions) (sym d))
  ]

abbrev pub on_schema : {S : Type 0} → (S → Option S) → Option S → Option S
on_schema f none = none
on_schema f (some s) = f s

-- The statements of a file on the schema, and the files one after the other.
module _ {S : Type 0} (exec : Text → S → Option S) where
  unfoldable pub run_statements : List Text → S → Option S
  run_statements [] s = some s
  run_statements (stmt ∷ stmts) s = on_schema (run_statements stmts) (exec stmt s)

  unfoldable pub run_files : List Entry → S → Option S
  unfolding run_statements
  run_files [] s = some s
  run_files (e ∷ es) s = on_schema (run_files es) (run_statements (split_statements e.content) s)

  executed-ok :
      (name : Text) (w w' : Database S) (r : Option S)
      → executed name w r ≡ (ok tt, w')
      → (r ≡ some w'.schema) × (w'.versions ≡ w.versions)
  executed-ok name w w' none h = ground arith
  executed-ok name w w' (some s) h =
      let d : (record w { schema = s }) ≡ w' = ap (λ r. r.1) h in
      (ap (λ w. some w.schema) d, ap (λ w. w.versions) (sym d))

  execute-ok :
      (name stmt : Text) (w w' : Database S)
      → execute exec name stmt w ≡ (ok tt, w')
      → (exec stmt w.schema ≡ some w'.schema) × (w'.versions ≡ w.versions)
  execute-ok name stmt w w' h =
      let (w1, c, d) = then_do-ok (call (codes "apply") name w) _ w' h in
      let e : w1 ≡ record w { faults = later w.faults } = call-ok (codes "apply") name w w1 c in
      let (x, y) = executed-ok name w1 w' (exec stmt w1.schema) d in
      (ap (λ v. exec stmt v.schema) (sym e) ∙ x, y ∙ ap (λ v. v.versions) e)

  execute_all-ok :
      (name : Text) (stmts : List Text) (w w' : Database S)
      → execute_all exec name stmts w ≡ (ok tt, w')
      → (run_statements stmts w.schema ≡ some w'.schema) × (w'.versions ≡ w.versions)
  unfolding execute_all run_statements
  execute_all-ok name [] w w' h =
      let d : w ≡ w' = ap (λ r. r.1) h in (ap (λ v. some v.schema) d, ap (λ v. v.versions) (sym d))
  execute_all-ok name (stmt ∷ stmts) w w' h =
      let (w1, c, d) = then_do-ok (execute exec name stmt w) _ w' h in
      let (x, y) = execute-ok name stmt w w1 c in
      let (x', y') = execute_all-ok name stmts w1 w' d in
      (ap (on_schema (run_statements stmts)) x ∙ x', y' ∙ y)

  or_rollback-ok :
      (before w' : Database S) (r : Step S) → or_rollback before r ≡ (ok tt, w') → r ≡ (ok tt, w')
  or_rollback-ok before w' (ok u, w) h = h
  or_rollback-ok before w' (err e, w) h = ground arith

  pub or_rollback-err :
      (before w' : Database S) (e : MigrateError) (r : Step S)
      → or_rollback before r ≡ (err e, w')
      → (w'.schema ≡ before.schema) × (w'.versions ≡ before.versions)
  or_rollback-err before w' e (ok u, w) h = ground arith
  or_rollback-err before w' e (err e', w) h =
      let d : (record before { faults = w.faults }) ≡ w' = ap (λ r. r.1) h in
      (ap (λ v. v.schema) (sym d), ap (λ v. v.versions) (sym d))

  record_version-ok :
      (name : Text) (w w' : Database S)
      → record_version name w ≡ (ok tt, w')
      → (w'.schema ≡ w.schema) × (versions_of w'.versions ≡ versions_of w.versions ++ (name ∷ []))
  record_version-ok name w w' h =
      let (w1, c, d) = then_do-ok (call (codes "record") name w) _ w' h in
      let e : w1 ≡ record w { faults = later w.faults } = call-ok (codes "record") name w w1 c in
      let (x, y) = with_row-ok name w1 w' w1.versions d in
      (x ∙ ap (λ v. v.schema) e, y ∙ ap (λ v. versions_of v.versions ++ (name ∷ [])) e)

  pub apply_migration-err :
      (name sql : Text) (w w' : Database S) (e : MigrateError)
      → apply_migration exec name sql w ≡ (err e, w')
      → (w'.schema ≡ w.schema) × (w'.versions ≡ w.versions)
  unfolding apply_migration
  apply_migration-err name sql w w' e h = or_rollback-err w w' e _ h

  pub apply_migration-ok :
      (name sql : Text) (w w' : Database S)
      → apply_migration exec name sql w ≡ (ok tt, w')
      → (run_statements (split_statements sql) w.schema ≡ some w'.schema)
        × (versions_of w'.versions ≡ versions_of w.versions ++ (name ∷ []))
  unfolding apply_migration
  apply_migration-ok name sql w w' h =
      let k = or_rollback-ok w w' _ h in
      let (w1, c1, d1) = then_do-ok (call (codes "begin") name w) _ w' k in
      let e1 : w1 ≡ record w { faults = later w.faults } = call-ok (codes "begin") name w w1 c1 in
      let (w2, c2, d2) = then_do-ok (execute_all exec name (split_statements sql) w1) _ w' d1 in
      let (s, v) = execute_all-ok name (split_statements sql) w1 w2 c2 in
      let (w3, c3, d3) = then_do-ok (record_version name w2) _ w' d2 in
      let (s', v') = record_version-ok name w2 w3 c3 in
      let e3 : w' ≡ record w3 { faults = later w3.faults } =
        call-ok (codes "commit") name w3 w' d3 in
      (
        ap (λ x. run_statements (split_statements sql) x.schema) (sym e1)
            ∙ s
            ∙ ap some (sym s')
            ∙ ap (λ x. some x.schema) (sym e3),
        ap (λ x. versions_of x.versions) e3
            ∙ v'
            ∙ ap (λ x. versions_of x ++ (name ∷ [])) (v ∙ ap (λ x. x.versions) e1),
      )
