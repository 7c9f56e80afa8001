-- ===== src/Store/Runs/Upsert.antt =====
-- A second upload of a run.
use ghapp_demo.Base.{
  ℕ, ◌+◌, ◌≡◌, refl, ap, ◌∙◌, true, false, Option, none, some, arith, any, first, length, In,
  if◌then◌else◌,
}
use ghapp_demo.Base.Int.{eq_ℤ_iff}
use ghapp_demo.Base.Result.{ok}
use ghapp_demo.Store.Columns.{Columns}
use ghapp_demo.Store.Monad.{World, now_of}
use ghapp_demo.Store.Monad.Invert.{statement-ok}
use ghapp_demo.Store.Query.Laws.{first-upsert, merged, In-upsert, length-upsert}
use ghapp_demo.Store.Runs.{RunInput, upsert_run, put_run, write_run, new_run, is_run, facts_of}
use ghapp_demo.Store.Tables.{Db, RunRow, pending}
use ghapp_demo.Text.{Text}
use ghapp_demo.Text.Laws.{equal_self}

module _ (uuid : Text → Option Text) (generate : ℕ → Text) (columns : Columns) (r : RunInput)
    (w : World) where
  put_run-ok :
      (key : Option Text) (db : Db) (now : ℕ)
      → put_run uuid generate columns r key w.db now ≡ ok (tt, db)
      → (k : Text) × (key ≡ some k) × (db ≡ write_run uuid generate r k w.db now)
  put_run-ok none db now h = ground arith
  put_run-ok (some k) db now h = (k, refl, ground arith)

  -- The row of an execution, as an upload finds it.
  abbrev pub row_of : Text → Db → Option RunRow
  row_of key db = first (is_run r.repo_id key) db.runs

  -- What an upload leaves of a row that was there: the identity, the creation, and what matching
  -- found; and a new row's identity, where none was.
  abbrev pub IsKept : Option RunRow → RunRow → Type 0
  IsKept none x =
      (x.id ≡ w.db.next_run) × (x.created_at ≡ now_of w.tx w.now) × (x.enrichment_state ≡ pending)
  IsKept (some old) x =
      (x.id ≡ old.id)
      × (x.public_id ≡ old.public_id)
      × (x.created_at ≡ old.created_at)
      × (x.enrichment_state ≡ old.enrichment_state)
      × (x.job_conclusion ≡ old.job_conclusion)

  module _ (key : Text) where
    abbrev new : RunRow
    new = new_run uuid generate r key w.db (now_of w.tx w.now)

    abbrev again : RunRow → RunRow
    again x = record x { facts = facts_of r.facts }

    kept :
        (found : Option RunRow)
        → ((merged again new found).facts ≡ facts_of r.facts)
          × IsKept found (merged again new found)
    kept none = (refl, (refl, refl, refl))
    kept (some old) = (refl, (refl, refl, refl, refl, refl))

    is_run-new : is_run r.repo_id key new ≡ true
    is_run-new = ground (arith, equal_self key, (eq_ℤ_iff r.repo_id r.repo_id).1 refl)

  -- An upload that returns has a canonical execution id, and the table has a row of that execution
  -- of the repository with the uploaded facts: the row of an earlier upload of it, with its
  -- identity, creation and matching state, or else a new pending one. The runs of other executions
  -- stay, and the table grows by one row exactly where the execution had none.
  pub upsert_run-row :
      (upsert_run uuid generate columns r w).0 ≡ ok tt
      → (key : Text) × (uuid r.execution_id ≡ some key)
        × ((x : RunRow) × (row_of key (upsert_run uuid generate columns r w).1.db ≡ some x)
            × (x.facts ≡ facts_of r.facts)
            × IsKept (row_of key w.db) x)
        × ((x : RunRow)
            → In x w.db.runs
            → is_run r.repo_id key x ≡ false
            → In x (upsert_run uuid generate columns r w).1.db.runs)
        × (length (upsert_run uuid generate columns r w).1.db.runs ≡ (
            if any (is_run r.repo_id key) w.db.runs
            then length w.db.runs
            else length w.db.runs + 1))
  unfolding upsert_run
  upsert_run-row h =
      let (key, e, db) = put_run-ok (uuid r.execution_id) _ _ (statement-ok _ _ w tt h) in
      let (stored, same) = kept key (row_of key w.db) in
      let runs = ap (λ (d : Db). d.runs) db in
      (
        key,
        e,
        (
          merged (again key) (new key) (row_of key w.db),
          ap (first (is_run r.repo_id key)) runs
              ∙ first-upsert (is_run r.repo_id key) (again key) (new key) w.db.runs (is_run-new key)
                  (λ x t. t),
          stored,
          same,
        ),
        (λ x i other.
            rw runs (In-upsert (is_run r.repo_id key) (again key) (new key) x w.db.runs i other)),
        ap length runs ∙ length-upsert (is_run r.repo_id key) (again key) (new key) w.db.runs,
      )
