-- ===== src/Store/Projects/Create.antt =====
-- What becomes of a new project whose slug is taken, and who gets at a project.
use ghapp_demo.Base.{
  ℕ, Bool-cases, inl, inr, suc, ◌≡◌, refl, sym, ◌∙◌, true, Option, none, some, arith, any, first,
  In, if◌then◌else◌, ◌&&◌, ◌==◌,
}
use ghapp_demo.Base.Result.{Result, ok, err}
use ghapp_demo.Store.Monad.{query, World, unique, StoreError, active, aborted, statement, tick}
use ghapp_demo.Store.Monad.Invert.{query-ok, query_row-ok}
use ghapp_demo.Store.Monad.Rollback.{
  statement_violated, transaction_err-db, statement_aborted, transaction-err,
}
use ghapp_demo.Store.Projects.{
  role_in, role_of, viewed, as_member, Project, slugify, try_slugs, create_project,
  get_project_by_slug, find_project, insert_project, slug_at, after_insert, is_taken,
}
use ghapp_demo.Store.Query.Laws.{first-In}
use ghapp_demo.Store.Tables.{ProjectRow, MemberRow}
use ghapp_demo.Text.{Text, codes, equal, is_empty}
use ghapp_demo.Text.Laws.{equal_iff}

-- A round in an aborted transaction ends the loop.
try_slugs_aborted :
    (left i user : ℕ) (name base : Text) (w : World)
    → w.tx ≡ aborted
    → (e : StoreError) × ((try_slugs (suc left) i user name base w).0 ≡ err e)
unfolding try_slugs
try_slugs_aborted left i user name base w h = rw (statement_aborted _ _ w h) (_, refl)

-- A slug that is taken aborts the transaction.
insert_taken :
    (user : ℕ) (name slug : Text) (w : World) (t : ℕ)
    → w.tx ≡ active t
    → any (λ p. equal p.slug slug) w.db.projects ≡ true
    → (e : StoreError) × ((statement (codes "create project") (insert_project user name slug) w).0
        ≡ err e)
      × ((statement (codes "create project") (insert_project user name slug) w).1.tx ≡ aborted)
insert_taken user name slug w t h taken =
    statement_violated _ (insert_project user name slug) w t unique h (rw taken refl)

after_insert_err :
    (user : ℕ) (retry : World → Result StoreError Project × World)
    (r : Result StoreError ProjectRow × World) (e : StoreError)
    → r.0 ≡ err e
    → ((x : StoreError) × ((retry r.1).0 ≡ err x))
    → (x : StoreError) × ((after_insert user retry r).0 ≡ err x)
after_insert_err user retry (ok p, v) e h k = ground arith
after_insert_err user retry (err x, v) e h k = elim (Bool-cases (is_taken x)) [
  | inl t ↦ rw (t, after_insert) k
  | inr t ↦ rw (t, after_insert) (x, refl)
]

try_slugs_taken :
    (left i user : ℕ) (name base : Text) (w : World) (t : ℕ)
    → w.tx ≡ active t
    → any (λ p. equal p.slug (slug_at base i)) w.db.projects ≡ true
    → (x : StoreError) × ((try_slugs (suc (suc left)) i user name base w).0 ≡ err x)
unfolding try_slugs
try_slugs_taken left i user name base w t h taken =
    let (e, failed, poisoned) = insert_taken user name (slug_at base i) w t h taken in
    after_insert_err user (λ v. try_slugs (suc left) (suc i) user name base v) _ e failed
      (try_slugs_aborted left (suc i) user name base _ poisoned)

-- The slug that the first round of the loop tries.
abbrev pub first_slug : Text → Text
first_slug name = if is_empty (slugify name) then codes "project" else slugify name

-- Where the slug of a name is taken, the creation fails and stores nothing: the loop's later rounds
-- run in the transaction that the first one aborted, so that no numbered slug is ever stored.
pub create_project_taken :
    (user : ℕ) (name : Text) (w : World)
    → any (λ p. equal p.slug (first_slug name)) w.db.projects ≡ true
    → (e : StoreError) × ((create_project user name w).0 ≡ err e)
      × ((create_project user name w).1.db ≡ w.db)
unfolding create_project
create_project_taken user name w taken =
    let v : World = record (tick w) { tx = active w.now } in
    let body = try_slugs 100 0 user name (first_slug name) in
    let (x, broken) = try_slugs_taken 98 0 user name (first_slug name) v w.now refl taken in
    let (e, failed) = transaction-err _ _ body w x broken in
    (e, failed, transaction_err-db _ _ body w e failed)

module _ (user : ℕ) (slug : Text) (w : World) where
  abbrev pub IsMemberBy : Project → ProjectRow → MemberRow → Type 0
  IsMemberBy p row m =
      In row w.db.projects
      × In m w.db.members
      × (row.slug ≡ slug)
      × (p.id ≡ row.id)
      × (p.name ≡ row.name)
      × (m.project_id ≡ p.id)
      × (m.user_id ≡ user)
      × (p.role ≡ m.role)

  role_of-some :
      (found : Option MemberRow) (role : Text)
      → role_of found ≡ some role
      → (m : MemberRow) × (found ≡ some m) × (role ≡ m.role)
  role_of-some none role h = ground arith
  role_of-some (some m) role h = (m, refl, ground arith)

  role_in-some :
      (project : ℕ) (role : Text)
      → role_in w.db user project ≡ some role
      → (m : MemberRow) × In m w.db.members
        × (m.project_id ≡ project)
        × (m.user_id ≡ user)
        × (role ≡ m.role)
  role_in-some project role h =
      let (m, found, same) = role_of-some _ role h in
      let (i, t) =
        first-In (λ m. m.project_id == project && m.user_id == user) w.db.members m found in
      (m, i, ground (arith, t), ground (arith, t), same)

  viewed-some :
      (row : ProjectRow) (role : Option Text) (p : Project)
      → viewed row role ≡ some p
      → (role ≡ some p.role) × (p.id ≡ row.id) × (p.name ≡ row.name)
  viewed-some row none p h = ground arith
  viewed-some row (some role) p h = ground arith

  as_member-some :
      (found : Option ProjectRow) (p : Project)
      → as_member w.db user found ≡ some p
      → (row : ProjectRow) × (found ≡ some row) × (viewed row (role_in w.db user row.id) ≡ some p)
  as_member-some none p h = ground arith
  as_member-some (some row) p h = (row, refl, h)

  -- A project is handed out by its slug only to a user with a membership row in it, under the role
  -- of that row.
  pub get_project_by_slug-IsMember :
      (p : Project)
      → (get_project_by_slug user slug w).0 ≡ ok p
      → (row : ProjectRow) × (m : MemberRow) × IsMemberBy p row m
  unfolding get_project_by_slug
  get_project_by_slug-IsMember p h =
      let got = query_row-ok (query _ (λ db now. find_project db user slug)) w p h in
      let found = sym (query-ok _ _ w (some p) got).0 in
      let (row, e, view) = as_member-some (first (λ x. equal x.slug slug) w.db.projects) p found in
      let (role, same_id, same_name) = viewed-some row (role_in w.db user row.id) p view in
      let (m, joined, of_project, of_user, named) = role_in-some row.id p.role role in
      let (stored, slugged) = first-In (λ x. equal x.slug slug) w.db.projects row e in
      (
        row,
        m,
        (
          stored,
          joined,
          (equal_iff row.slug slug).0 slugged,
          same_id,
          same_name,
          of_project ∙ sym same_id,
          of_user,
          named,
        ),
      )
