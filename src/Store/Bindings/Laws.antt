-- ===== src/Store/Bindings/Laws.antt =====
-- Binding a repository, and the list of the repositories that a user may bind.
use ghapp_demo.Base.{
  ℕ, append_assoc, append-nil, ◌≡◌, inl, inr, refl, sym, ap, ◌∙◌, true, false, List, [], ◌∷◌, ◌++◌,
  Option, none, some, arith, first, In, ◌&&◌, ◌==◌,
}
use ghapp_demo.Base.Int.{ℤ, eq_ℤ, eq_ℤ_iff}
use ghapp_demo.Base.Result.{ok, err}
use ghapp_demo.Store.Bindings.{
  insert_access, is_binding, is_live, bind_repo_to_project, unbind_repo_from_project,
  replace_user_repo_access, Grant, insert_grants,
}
use ghapp_demo.Store.Monad.{M, tick, ◌>>◌, World, StoreError, now_of, active, statement, exec}
use ghapp_demo.Store.Monad.Invert.{statement-ok, exec-ok, bind-ok, transaction-ok}
use ghapp_demo.Store.Monad.Rollback.{transaction_err-db}
use ghapp_demo.Store.Query.{delete, upsert}
use ghapp_demo.Store.Query.Laws.{first-upsert, merged, In-upsert, update-In}
use ghapp_demo.Store.Tables.{Db, BindingRow, AccessRow}
use ghapp_demo.Text.{codes}

eq_ℤ_self : (a : ℤ) → eq_ℤ a a ≡ true
eq_ℤ_self a = (eq_ℤ_iff a a).1 refl

abbrev pub find_binding : ℕ → ℤ → Db → Option BindingRow
find_binding project repo db = first (is_binding project repo) db.bindings

module _ (project : ℕ) (repo : ℤ) (user : ℕ) (w : World)
    (done : (bind_repo_to_project project repo user w).0 ≡ ok tt) where
  abbrev rebound : BindingRow → BindingRow
  rebound b = record b { bound_by = some user; bound_at = now_of w.tx w.now; revoked_at = none }

  abbrev new_binding : BindingRow
  new_binding = record {
    project_id = project;
    repo_id = repo;
    bound_by = some user;
    bound_at = now_of w.tx w.now;
    revoked_at = none;
  }

  bind-bindings :
      (bind_repo_to_project project repo user w).1.db.bindings
      ≡ upsert (is_binding project repo) rebound new_binding w.db.bindings
  unfolding bind_repo_to_project
  bind-bindings = ground (arith, statement-ok _ _ w tt done)

  merged_live :
      (found : Option BindingRow)
      → (is_live (merged rebound new_binding found) ≡ true)
        × ((merged rebound new_binding found).bound_by ≡ some user)
  merged_live none = (refl, refl)
  merged_live (some b) = (refl, refl)

  -- A repository that was bound has a live binding to the project, by the user who bound it, also
  -- where a revoked one was there before; every other binding stays.
  pub find-bind :
      ((b : BindingRow) × (find_binding project repo (bind_repo_to_project project repo user w).1.db
          ≡ some b)
        × (is_live b ≡ true)
        × (b.bound_by ≡ some user))
      × ((b : BindingRow)
          → In b w.db.bindings
          → is_binding project repo b ≡ false
          → In b (bind_repo_to_project project repo user w).1.db.bindings)
  find-bind =
      let found = find_binding project repo w.db in
      let (live, owner) = merged_live found in
      (
        (
          merged rebound new_binding found,
          rw bind-bindings (
              first-upsert (is_binding project repo) rebound new_binding w.db.bindings
                (ground (arith, eq_ℤ_self repo)) (λ x t. t)),
          live,
          owner,
        ),
        λ b i other.
            rw bind-bindings
              (In-upsert (is_binding project repo) rebound new_binding b w.db.bindings i other),
      )

-- After an unbinding the repository has no live binding to the project.
unbind-live :
    (project : ℕ) (repo : ℤ) (w : World) (b : BindingRow)
    → (unbind_repo_from_project project repo w).0 ≡ ok tt
    → In b (unbind_repo_from_project project repo w).1.db.bindings
    → is_binding project repo b ≡ true
    → is_live b ≡ false
unfolding unbind_repo_from_project
unbind-live project repo w b h i same =
    let hit = λ (x : BindingRow). is_binding project repo x && is_live x in
    let f = λ (x : BindingRow). record x { revoked_at = some (now_of w.tx w.now) } in
    let rows = ap (λ (db : Db). db.bindings) (exec-ok _ _ w h) in
    elim (update-In hit f b w.db.bindings (rw (sym rows) i)) [
      | inl (j, t) ↦ ground (arith, t, same)
      | inr (x, j, t, e) ↦ rw (sym e) refl
    ]

abbrev pub access_rows : ℕ → List Grant → List AccessRow
access_rows user [] = []
access_rows user ((repo, installation) ∷ grants) =
    record { user_id = user; repo_id = repo; installation_id = installation }
    ∷ access_rows user grants

insert_access-ok :
    (user : ℕ) (g : Grant) (db db' : Db) (now : ℕ)
    → insert_access user g db now ≡ ok (tt, db')
    → db'.access ≡ db.access ++ access_rows user (g ∷ [])
insert_access-ok user (repo, installation) db db' now h = ground arith

insert_grants-access :
    (user : ℕ) (grants : List Grant) (w : World)
    → (insert_grants user grants w).0 ≡ ok tt
    → (insert_grants user grants w).1.db.access ≡ w.db.access ++ access_rows user grants
unfolding insert_grants
insert_grants-access user [] w h = sym (append-nil w.db.access)
insert_grants-access user (g ∷ grants) w h =
    let label = codes "insert user repo access" in
    let (u, one, rest) =
      bind-ok (statement label (insert_access user g)) (λ _ w'. insert_grants user grants w') w tt
        h in
    let v = (statement label (insert_access user g) w).1 in
    let step =
      insert_access-ok user g w.db v.db (now_of w.tx w.now)
        (statement-ok label (insert_access user g) w tt one) in
    let later = insert_grants-access user grants v (sym (ap (λ r. r.0) rest) ∙ h) in
    ap (λ r. r.1.db.access) rest
    ∙ later
    ∙ ap (λ rows. rows ++ access_rows user grants) step
    ∙ append_assoc w.db.access (access_rows user (g ∷ [])) (access_rows user grants)

abbrev clear : ℕ → M (Unit {0})
clear user =
    exec (codes "clear user repo access")
      (λ db now. record db { access = delete (λ a. a.user_id == user) db.access })

clear-insert :
    (user : ℕ) (grants : List Grant) (w : World)
    → ((clear user >> insert_grants user grants) w).0 ≡ ok tt
    → ((clear user >> insert_grants user grants) w).1.db.access
      ≡ delete (λ a. a.user_id == user) w.db.access ++ access_rows user grants
clear-insert user grants w h =
    let (u, cleared, rest) = bind-ok (clear user) (λ _. insert_grants user grants) w tt h in
    let v = (clear user w).1 in
    ap (λ r. r.1.db.access) rest
    ∙ insert_grants-access user grants v (sym (ap (λ r. r.0) rest) ∙ h)
    ∙ ap (λ (db : Db). db.access ++ access_rows user grants) (exec-ok _ _ w cleared)

replace-ok :
    (user : ℕ) (grants : List Grant) (w : World)
    → (replace_user_repo_access user grants w).0 ≡ ok tt
    → (replace_user_repo_access user grants w).1.db.access
      ≡ delete (λ a. a.user_id == user) w.db.access ++ access_rows user grants
unfolding replace_user_repo_access
replace-ok user grants w h =
    let (inner, same) = transaction-ok _ _ (clear user >> insert_grants user grants) w tt h in
    ap (λ (db : Db). db.access) same
    ∙ clear-insert user grants (record (tick w) { tx = active w.now }) inner

-- The repositories that a user may bind are replaced as a whole: if the replacement returns they
-- are the given ones, with those of the other users as before, and if it fails no table changes.
pub replace_user_repo_access-atomic :
    (user : ℕ) (grants : List Grant) (w : World)
    → ((replace_user_repo_access user grants w).0 ≡ ok tt
        → (replace_user_repo_access user grants w).1.db.access
          ≡ delete (λ a. a.user_id == user) w.db.access ++ access_rows user grants)
      × ((e : StoreError)
          → (replace_user_repo_access user grants w).0 ≡ err e
          → (replace_user_repo_access user grants w).1.db ≡ w.db)
unfolding replace_user_repo_access
replace_user_repo_access-atomic user grants w =
    (replace-ok user grants w, λ e h. transaction_err-db _ _ _ w e h)
