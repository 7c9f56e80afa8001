-- ===== src/Store/Runs/Reported.antt =====
-- The lookup of a run among rows with other reports.
use ghapp_demo.Base.{
  ℕ, ◌≡◌, refl, ap, ◌∙◌, Bool, ◌||◌, List, [], ◌∷◌, Option, none, some, map, first, Bool-cases, inl,
  inr,
}
use ghapp_demo.Base.Result.{Result, ok, err}
use ghapp_demo.Store.Bindings.{find_repo}
use ghapp_demo.Store.Monad.{World, StoreError, statement, sequel, or_not_found}
use ghapp_demo.Store.Monad.Related.{mapped, both, changed, statement-changed}
use ghapp_demo.Store.Runs.{
  Run, read_run, visible_in, visible_row, is_public, is_member_of_repo, get_run_by_public_id,
}
use ghapp_demo.Store.Tables.{Db, RepoRow, RunRow}
use ghapp_demo.Text.{Text, codes, equal}

abbrev pub option_map : {A B : Type 0} → (A → B) → Option A → Option B
option_map f none = none
option_map f (some a) = some (f a)

first-map :
    {A : Type 0} (p : A → Bool) (g : A → A) (xs : List A)
    → ((x : A) → p (g x) ≡ p x)
    → first p (map g xs) ≡ option_map g (first p xs)
first-map p g [] h = refl
first-map p g (x ∷ xs) h = elim (Bool-cases (p x)) [
  | inl t ↦ rw t (rw (h x ∙ t) refl)
  | inr t ↦ rw t (rw (h x ∙ t) (first-map p g xs h))
]

-- Every row has the report that is given for it.
module _ (report : RunRow → Text) where
  abbrev pub with_report : RunRow → RunRow
  with_report r = record r { facts = record r.facts { egress_json = report r } }

  abbrev pub with_reports : Db → Db
  with_reports db = record db { runs = map with_report db.runs }

  abbrev pub run_with : Run → Run
  run_with run = record run { row = with_report run.row }

  module _ (db : Db) (user : Option ℕ) where
    visible_in-report :
        (r : RunRow) (found : Option RepoRow)
        → visible_in (with_reports db) user (with_report r) found
          ≡ option_map run_with (visible_in db user r found)
    visible_in-report r none = refl
    visible_in-report r (some repo) =
        elim (Bool-cases (is_public repo || is_member_of_repo db user r.repo_id)) [
          | inl t ↦ rw t refl
          | inr t ↦ rw t refl
        ]

    visible_row-report :
        (uuid : Text → Option Text) (generate : ℕ → Text) (found : Option RunRow)
        → visible_row uuid generate (with_reports db) user (option_map with_report found)
          ≡ option_map run_with (visible_row uuid generate db user found)
    visible_row-report uuid generate none = refl
    visible_row-report uuid generate (some r) = visible_in-report r (find_repo r.repo_id db)

  module _ (uuid : Text → Option Text) (generate : ℕ → Text) (user : Option ℕ) where
    read_run-report :
        (key : Option Text) (db : Db) (now : ℕ)
        → read_run uuid generate user key (with_reports db) now
          ≡ both (option_map run_with) with_reports (read_run uuid generate user key db now)
    read_run-report none db now = refl
    read_run-report (some id) db now =
        let p = λ (r : RunRow). equal r.public_id id in
        ap (λ found. ok (found, with_reports db))
          (ap (visible_row uuid generate (with_reports db) user)
              (first-map p with_report db.runs (λ r. refl))
            ∙ visible_row-report db user uuid generate (first p db.runs))

    or_not_found-report :
        (r : Result StoreError (Option Run)) (v w : World)
        → (sequel (mapped (option_map run_with) r, v) or_not_found).0
          ≡ mapped run_with (sequel (r, w) or_not_found).0
    or_not_found-report (ok none) v w = refl
    or_not_found-report (ok (some run)) v w = refl
    or_not_found-report (err e) v w = refl

    pub get_run_by_public_id-report :
        (id : Text) (w : World)
        → (get_run_by_public_id uuid generate id user (changed with_reports w)).0
          ≡ mapped run_with (get_run_by_public_id uuid generate id user w).0
    unfolding get_run_by_public_id
    get_run_by_public_id-report id w =
        let label = codes "get run by public id" in
        let body = read_run uuid generate user (uuid id) in
        let found =
          statement-changed (option_map run_with) with_reports label body w
            (read_run-report (uuid id) w.db) in
        ap (λ r. (sequel (r, (statement label body (changed with_reports w)).1) or_not_found).0)
          found
        ∙ or_not_found-report (statement label body w).0 _ (statement label body w).1
