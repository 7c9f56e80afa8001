-- ===== src/Handlers/Unbind/Managed.antt =====
-- Who unbinds a repository.
use ghapp_demo.Base.{
  ℕ, ◌≡◌, ◌⊎◌, inl, inr, refl, ap, ◌∙◌, true, List, Option, none, some, arith, Bool-cases,
}
use ghapp_demo.Base.Int.{ℤ, is_positive}
use ghapp_demo.Base.Result.{Result, ok, err}
use ghapp_demo.Handlers.Unbind.{
  can_manage_project, finish_unbind, unbind_id, read_id, with_project, handle_unbind_repo,
}
use ghapp_demo.Store.Bindings.{unbind_repo_from_project}
use ghapp_demo.Store.Monad.{query, World, StoreError, statement, or_not_found, sequel}
use ghapp_demo.Store.Projects.{Project, get_project_by_slug, find_project}
use ghapp_demo.Store.Projects.Create.{IsMemberBy, get_project_by_slug-IsMember}
use ghapp_demo.Store.Tables.{Db, BindingRow, ProjectRow, MemberRow}
use ghapp_demo.Text.{Text, codes}

abbrev pub bindings_of : World → List BindingRow
bindings_of w = w.db.bindings

sequel-world :
    {A : Type 0} (r : Result StoreError (Option A) × World) → (sequel r or_not_found).1 ≡ r.1
sequel-world (ok none, w) = refl
sequel-world (ok (some a), w) = refl
sequel-world (err e, w) = refl

query-bindings :
    {A : Type 0} (label : Text) (q : Db → ℕ → A) (w : World)
    → bindings_of (query label q w).1 ≡ bindings_of w
unfolding statement
query-bindings label q w = ground arith

get_project-bindings :
    (user : ℕ) (slug : Text) (w : World)
    → bindings_of (get_project_by_slug user slug w).1 ≡ bindings_of w
unfolding get_project_by_slug
get_project-bindings user slug w =
    let q = λ (db : Db) (now : ℕ). find_project db user slug in
    ap bindings_of (sequel-world (query (codes "get project") q w))
    ∙ query-bindings (codes "get project") q w

-- What `handleUnbindRepo` did for a member of the project whose role manages it.
abbrev pub IsManaged : Option ℕ → Text → Option Text → World → World → Type 0
IsManaged user slug field w w' =
    (u : ℕ) × (p : Project) × (repo : ℤ) × (row : ProjectRow) × (m : MemberRow) × (user ≡ some u)
    × IsMemberBy u slug w p row m
    × (can_manage_project p.role ≡ true)
    × (read_id field ≡ some repo)
    × (is_positive repo ≡ true)
    × (w' ≡ (unbind_repo_from_project p.id repo (get_project_by_slug u slug w).1).1)

finish-world : (r : Result StoreError (Unit {0}) × World) → (finish_unbind r).1 ≡ r.1
finish-world (ok u, w) = refl
finish-world (err e, w) = refl

unbind_id-cases :
    (p : Project) (found : Option ℤ) (w : World)
    → (bindings_of (unbind_id p found w).1 ≡ bindings_of w)
      ⊎ ((repo : ℤ) × (found ≡ some repo)
          × (is_positive repo ≡ true)
          × ((unbind_id p found w).1 ≡ (unbind_repo_from_project p.id repo w).1))
unbind_id-cases p none w = inl refl
unbind_id-cases p (some repo) w = elim (Bool-cases (is_positive repo)) [
  | inl t ↦ inr (repo, refl, t, rw (t, unbind_id) (finish-world _))
  | inr t ↦ inl (rw (t, unbind_id) refl)
]

with_project-cases :
    (field : Option Text) (found : Result StoreError Project × World)
    → (bindings_of (with_project field found).1 ≡ bindings_of found.1)
      ⊎ ((p : Project) × (repo : ℤ) × (found.0 ≡ ok p)
          × (can_manage_project p.role ≡ true)
          × (read_id field ≡ some repo)
          × (is_positive repo ≡ true)
          × ((with_project field found).1 ≡ (unbind_repo_from_project p.id repo found.1).1))
with_project-cases field (err e, w) = inl refl
with_project-cases field (ok p, w) = elim (Bool-cases (can_manage_project p.role)) [
  | inl t ↦ elim (unbind_id-cases p (read_id field) w) [
    | inl same ↦ inl (rw (t, with_project) same)
    | inr (repo, e, positive, world) ↦
        inr (p, repo, refl, t, e, positive, rw (t, with_project) world)
  ]
  | inr t ↦ inl (rw (t, with_project) refl)
]

-- The handler leaves the bindings as they were, or else there is a user who is a member of the
-- project of that slug under a role that manages it, the form names a repository by a positive
-- number, and the world afterwards is the one that unbinding this repository from this project
-- leaves.
pub handle_unbind_repo-IsManaged :
    (user : Option ℕ) (slug : Text) (field : Option Text) (w : World)
    → (bindings_of (handle_unbind_repo user slug field w).1 ≡ bindings_of w)
      ⊎ IsManaged user slug field w (handle_unbind_repo user slug field w).1
unfolding handle_unbind_repo
handle_unbind_repo-IsManaged none slug field w = inl refl
handle_unbind_repo-IsManaged (some u) slug field w =
    elim (with_project-cases field (get_project_by_slug u slug w)) [
      | inl same ↦ inl (same ∙ get_project-bindings u slug w)
      | inr (p, repo, got, manages, read, positive, world) ↦
          let (row, m, member) = get_project_by_slug-IsMember u slug w p got in
          inr (u, p, repo, row, m, refl, member, manages, read, positive, world)
    ]
