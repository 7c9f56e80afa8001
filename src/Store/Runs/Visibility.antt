-- ===== src/Store/Runs/Visibility.antt =====
-- Who sees a run.
use ghapp_demo.Base.{
  ℕ, ◌≡◌, ◌⊎◌, inl, inr, refl, sym, ap, ◌∙◌, Bool, true, false, ◌&&◌, ◌||◌, List, ◌∷◌, ◌++◌, select,
  Option, none, some, arith, first, length, In, ◌≤◌, ◌==◌,
}
use ghapp_demo.Base.Int.{ℤ, eq_ℤ, eq_ℤ_iff}
use ghapp_demo.Base.Result.{ok, err}
use ghapp_demo.Store.Bindings.{find_repo, is_live}
use ghapp_demo.Store.Monad.{World, not_found, statement, M}
use ghapp_demo.Store.Monad.Invert.{statement-ok, query_row-ok, query_row_not_found, query-ok}
use ghapp_demo.Store.Query.{filter_map, newest_first}
use ghapp_demo.Store.Query.Laws.{
  any-In, In-any, first-In, take-In, length-take, newest_first-In, filter_map-In, In-select,
}
use ghapp_demo.Store.Runs.{
  Run, named, limit_or_100, visible, visible_in, read_run, visible_row, is_public, is_member,
  is_member_of_repo, get_run_by_public_id, list_runs_for_repo, run_by_public_id,
}
use ghapp_demo.Store.Tables.{Db, RepoRow, RunRow, BindingRow, MemberRow}
use ghapp_demo.Text.{Text, codes, equal, trim_space}
use ghapp_demo.Text.Laws.{equal_iff}

-- A user who is a member of a project to which the repository is bound, and not revoked.
pub record IsInProject (db : Db) (user : ℕ) (repo : ℤ) : Type 0 where
  pub binding : BindingRow
  pub is_bound : In binding db.bindings
  pub is_of_repo : binding.repo_id ≡ repo
  pub is_kept : is_live binding ≡ true
  pub member : MemberRow
  pub is_joined : In member db.members
  pub is_of_project : member.project_id ≡ binding.project_id
  pub is_of_user : member.user_id ≡ user

-- What makes a run visible: it and its repository are stored, and the repository is public or the
-- viewer is in a project that it is bound to.
pub record MaySee (db : Db) (viewer : Option ℕ) (run : Run) : Type 0 where
  pub is_stored : In run.row db.runs
  pub is_repo : find_repo run.row.repo_id db ≡ some run.repo
  pub is_allowed :
      (is_public run.repo ≡ true)
      ⊎ ((user : ℕ) × (viewer ≡ some user) × IsInProject db user run.row.repo_id)

member_of :
    (db : Db) (user : ℕ) (repo : ℤ) (b : BindingRow)
    → In b db.bindings
    → (eq_ℤ b.repo_id repo && is_live b && is_member db user b.project_id) ≡ true
    → IsInProject db user repo
member_of db user repo b i h =
    let (m, j, t) =
      any-In (λ m. m.project_id == b.project_id && m.user_id == user) db.members
        (ground (arith, h)) in
    record {
      binding = b;
      is_bound = i;
      is_of_repo = (eq_ℤ_iff b.repo_id repo).0 (ground (arith, h));
      is_kept = ground (arith, h);
      member = m;
      is_joined = j;
      is_of_project = ground (arith, t);
      is_of_user = ground (arith, t);
    }

in_project :
    (db : Db) (viewer : Option ℕ) (repo : ℤ)
    → is_member_of_repo db viewer repo ≡ true
    → (user : ℕ) × (viewer ≡ some user) × IsInProject db user repo
in_project db none repo h = ground arith
in_project db (some user) repo h =
    let (b, i, t) =
      any-In (λ b. eq_ℤ b.repo_id repo && is_live b && is_member db user b.project_id) db.bindings
        h in
    (user, refl, member_of db user repo b i t)

is_member_of :
    (db : Db) (user : ℕ) (repo : ℤ)
    → IsInProject db user repo
    → is_member_of_repo db (some user) repo ≡ true
is_member_of db user repo h =
    let joined =
      In-any (λ m. m.project_id == h.binding.project_id && m.user_id == user) h.member db.members
        h.is_joined (ground (arith, h.is_of_project, h.is_of_user)) in
    In-any (λ b. eq_ℤ b.repo_id repo && is_live b && is_member db user b.project_id) h.binding
      db.bindings h.is_bound
      (ground (arith, (eq_ℤ_iff h.binding.repo_id repo).1 h.is_of_repo, h.is_kept, joined))

visible_in-some :
    (db : Db) (viewer : Option ℕ) (r : RunRow) (found : Option RepoRow) (run : Run)
    → visible_in db viewer r found ≡ some run
    → (found ≡ some run.repo)
      × (run.row ≡ r)
      × (is_public run.repo || is_member_of_repo db viewer r.repo_id ≡ true)
visible_in-some db viewer r none run h = ground arith
visible_in-some db viewer r (some repo) run h = ground arith

or_split : (a b : Bool) → (a || b) ≡ true → (a ≡ true) ⊎ (b ≡ true)
or_split true b h = inl refl
or_split false b h = inr h

visible-MaySee :
    (db : Db) (viewer : Option ℕ) (r : RunRow) (run : Run)
    → In r db.runs
    → visible db viewer r ≡ some run
    → MaySee db viewer run
visible-MaySee db viewer r run i h =
    let (known, same, allowed) = visible_in-some db viewer r (find_repo r.repo_id db) run h in
    record {
      is_stored = rw same i;
      is_repo = rw same known;
      is_allowed = elim (or_split _ _ allowed) [
        | inl t ↦ inl t
        | inr t ↦ inr (rw same (in_project db viewer r.repo_id t))
      ];
    }

visible_in-viewer :
    (db : Db) (viewer : Option ℕ) (r : RunRow) (repo : Option RepoRow) (run : Run)
    → visible_in db viewer r repo ≡ some run
    → run.viewer_is_member ≡ is_member_of_repo db viewer run.row.repo_id
visible_in-viewer db viewer r none run h = ground arith
visible_in-viewer db viewer r (some repo) run h = ground arith

visible_in-none :
    (db : Db) (viewer : Option ℕ) (r : RunRow) (repo : RepoRow)
    → visible_in db viewer r (some repo) ≡ none
    → (is_public repo ≡ false) × (is_member_of_repo db viewer r.repo_id ≡ false)
visible_in-none db viewer r repo h = ground arith

outsider :
    (db : Db) (viewer : Option ℕ) (user : ℕ) (repo : ℤ)
    → is_member_of_repo db viewer repo ≡ false
    → viewer ≡ some user
    → is_member_of_repo db (some user) repo ≡ true
    → ⊥
outsider db viewer user repo h e k =
    ground (arith, sym h ∙ ap (λ v. is_member_of_repo db v repo) e ∙ k)

some_inj : {a b : Text} → some a ≡ some b → a ≡ b
some_inj h = ground arith

module _ (uuid : Text → Option Text) (generate : ℕ → Text) (id : Text) (viewer : Option ℕ)
    (w : World) where
  abbrev lookup : Option Text → M (Option Run)
  lookup key = statement (codes "get run by public id") (read_run uuid generate viewer key)

  lookup-ok :
      (key : Option Text) (found : Option Run)
      → (lookup key w).0 ≡ ok found
      → (k : Text) × (key ≡ some k) × (found ≡ run_by_public_id uuid generate w.db viewer k)
  lookup-ok none found h = ground (arith, statement-ok _ _ w found h)
  lookup-ok (some k) found h = (k, refl, ground (arith, statement-ok _ _ w found h))

  visible_row-MaySee :
      (key : Text) (row : Option RunRow) (run : Run)
      → first (λ r. equal r.public_id key) w.db.runs ≡ row
      → visible_row uuid generate w.db viewer row ≡ some run
      → MaySee w.db viewer run
  visible_row-MaySee key none run e h = ground arith
  visible_row-MaySee key (some r) run e h =
      visible-MaySee w.db viewer r run (first-In _ w.db.runs r e).0 h

  visible_row-viewer :
      (row : Option RunRow) (run : Run)
      → visible_row uuid generate w.db viewer row ≡ some run
      → run.viewer_is_member ≡ is_member_of_repo w.db viewer run.row.repo_id
  visible_row-viewer none run h = ground arith
  visible_row-viewer (some r) run h =
      visible_in-viewer w.db viewer r (find_repo r.repo_id w.db) run h

  pub get_run_by_public_id-viewer :
      (run : Run)
      → (get_run_by_public_id uuid generate id viewer w).0 ≡ ok run
      → run.viewer_is_member ≡ is_member_of_repo w.db viewer run.row.repo_id
  unfolding get_run_by_public_id
  get_run_by_public_id-viewer run h =
      let got = query_row-ok (lookup (uuid id)) w run h in
      let (key, e, from) = lookup-ok (uuid id) (some run) got in
      visible_row-viewer (first (λ r. equal r.public_id key) w.db.runs) run (sym from)

  -- A run that the lookup by its public identifier hands out is stored with its repository, and the
  -- repository is public or the viewer is a member of a project with a binding of it that is not
  -- revoked.
  pub get_run_by_public_id-MaySee :
      (run : Run)
      → (get_run_by_public_id uuid generate id viewer w).0 ≡ ok run
      → MaySee w.db viewer run
  unfolding get_run_by_public_id
  get_run_by_public_id-MaySee run h =
      let got = query_row-ok (lookup (uuid id)) w run h in
      let (key, e, from) = lookup-ok (uuid id) (some run) got in
      visible_row-MaySee key _ run refl (sym from)

  -- A stored run is reported as not found only to a viewer who may not see it: its repository is
  -- not public, and the viewer, if there is one, is in no project to which it is bound.
  pub get_run_by_public_id_not_found :
      (key : Text) (r : RunRow) (repo : RepoRow)
      → (get_run_by_public_id uuid generate id viewer w).0 ≡ err not_found
      → uuid id ≡ some key
      → first (λ x. equal x.public_id key) w.db.runs ≡ some r
      → find_repo r.repo_id w.db ≡ some repo
      → (is_public repo ≡ false)
        × ((user : ℕ) → viewer ≡ some user → ¬ IsInProject w.db user r.repo_id)
  unfolding get_run_by_public_id
  get_run_by_public_id_not_found key r repo h u stored known =
      let (key', e, from) =
        lookup-ok (uuid id) none (query_row_not_found (codes "get run by public id") _ w h) in
      let same : key' ≡ key = some_inj (sym e ∙ u) in
      let (private, out) = visible_in-none w.db viewer r repo (
        sym (
          from
          ∙ ap (run_by_public_id uuid generate w.db viewer) same
          ∙ ap (visible_row uuid generate w.db viewer) stored
          ∙ ap (visible_in w.db viewer r) known)) in
      (
        private,
        λ user v joined.
            outsider w.db viewer user r.repo_id out v (is_member_of w.db user r.repo_id joined),
      )

module _ (owner name : Text) (viewer : Option ℕ) (limit : ℤ) (w : World) where
  -- A list of the runs of a repository has only runs that the viewer may see, each of a repository
  -- with the name that was asked for, and no more of them than the limit, or than 100 where the
  -- limit is not positive.
  pub list_runs_for_repo-MaySee :
      (runs : List Run)
      → (list_runs_for_repo owner name viewer limit w).0 ≡ ok runs
      → ((run : Run)
          → In run runs
          → MaySee w.db viewer run
            × (run.repo.full_name ≡ trim_space owner ++ (b'/' ∷ trim_space name)))
        × (length runs ≤ limit_or_100 limit)
  unfolding list_runs_for_repo
  list_runs_for_repo-MaySee runs h =
      let full_name = trim_space owner ++ (b'/' ∷ trim_space name) in
      let rows = filter_map (visible w.db viewer) w.db.runs in
      let chosen = select (named full_name) rows in
      let sorted = newest_first (λ (r : Run). r.row.created_at) chosen in
      rw ((query-ok _ _ w runs h).0) (
        λ run i.
            let (j, called) =
              (In-select (named full_name) run rows).0
                (newest_first-In _ run chosen (take-In (limit_or_100 limit) run sorted i)) in
            let (r, stored, seen) = filter_map-In (visible w.db viewer) run w.db.runs j in
            (
              visible-MaySee w.db viewer r run stored seen,
              (equal_iff run.repo.full_name full_name).0 called,
            ),
        length-take (limit_or_100 limit) sorted,
      )
