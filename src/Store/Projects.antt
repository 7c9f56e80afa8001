-- ===== src/Store/Projects.antt =====
-- server/internal/postgres/store.go: projects and their members, and `slugify`.
pub mod Slug
pub mod Create
use ghapp_demo.Base.{
  ℕ, zero, suc, ◌+◌, Bool, true, false, not, ◌&&◌, ◌||◌, List, [], ◌∷◌, ◌++◌, Option, none, some,
  ◌==◌, within, if◌then◌else◌, any, first, select,
}
use ghapp_demo.Base.Result.{Result, ok, err}
use ghapp_demo.Store.Monad.{
  or_not_found, M, World, ◌>>=◌, ◌>>◌, return, throw, StoreError, failed, not_found, rejected,
  violated, Violation, unique, foreign_key, check, statement, query, transaction,
}
use ghapp_demo.Store.Query.{filter_map, newest_first}
use ghapp_demo.Store.Tables.{Db, ProjectRow, MemberRow}
use ghapp_demo.Store.Users.{has_user}
use ghapp_demo.Text.{Text, codes, equal, is_empty, trim_space, trim_byte, to_lower}
use ghapp_demo.Text.Number.{print_nat}

-- `[a-z0-9]`
unfoldable pub is_slug_byte : ℕ → Bool
is_slug_byte c = within b'a' b'z' c || within b'0' b'9' c

-- `slugSanitizer.ReplaceAllString(s, "-")`: the flag tells that the code point in front of this
-- text was replaced, and its run of them goes on.
unfoldable pub sanitize : Bool → Text → Text
unfolding is_slug_byte
sanitize inside [] = []
sanitize inside (c ∷ s) =
    let kept = sanitize false s in
    let more = sanitize true s in
    if is_slug_byte c then c ∷ kept else if inside then more else b'-' ∷ more

unfoldable pub slugify : Text → Text
unfolding sanitize
slugify input = trim_byte b'-' (sanitize false (to_lower (trim_space input)))

-- `types.Project`
pub record Project : Type 0 where
  pub id : ℕ
  pub created_by : Option ℕ
  pub role : Text
  pub name : Text
  pub slug : Text
  pub created_at : ℕ

abbrev pub view_project : Text → ProjectRow → Project
view_project role p = record {
  id = p.id;
  created_by = p.created_by;
  role = role;
  name = p.name;
  slug = p.slug;
  created_at = p.created_at;
}

-- INSERT INTO projects … RETURNING
abbrev pub insert_project : ℕ → Text → Text → Db → ℕ → Result Violation (ProjectRow × Db)
insert_project user name slug db now =
    let row : ProjectRow = record {
      id = db.next_project;
      created_by = some user;
      name = name;
      slug = slug;
      created_at = now;
    } in
    if any (λ p. equal p.slug slug) db.projects
    then err unique
    else if not (has_user user db)
    then err foreign_key
    else ok
        (row, record db { projects = db.projects ++ row ∷ []; next_project = db.next_project + 1 })

-- INSERT INTO project_members … 'owner'
abbrev insert_owner : ℕ → ℕ → Db → ℕ → Result Violation (Unit {0} × Db)
insert_owner project user db now =
    if any (λ m. m.project_id == project && m.user_id == user) db.members
    then err unique
    else ok (
      tt,
      record db {
        members =
            db.members
            ++ record { project_id = project; user_id = user; role = codes "owner" } ∷ [];
      },
    )

abbrev pub slug_at : Text → ℕ → Text
slug_at base zero = base
slug_at base (suc i) = base ++ (b'-' ∷ print_nat (suc (suc i)))

abbrev add_owner : ℕ → ProjectRow → M Project
add_owner user p = do
  statement (codes "create project membership") (insert_owner p.id user)
  return (view_project (codes "owner") p)

-- `pgErr.Code == "23505"`
abbrev pub is_taken : StoreError → Bool
is_taken (failed label (violated unique)) = true
is_taken _ = false

-- What a round of the loop makes of its insertion, with the later rounds as `retry`.
abbrev pub after_insert :
    ℕ → M Project → Result StoreError ProjectRow × World → Result StoreError Project × World
after_insert user retry (ok p, w) = add_owner user p w
after_insert user retry (err e, w) = elim (is_taken e) [ true ↦ retry w | false ↦ (err e, w) ]

-- The loop from round `i`, with `left` rounds to go.
unfoldable pub try_slugs : ℕ → ℕ → ℕ → Text → Text → M Project
try_slugs zero i user name base w =
    (err (failed (codes "could not generate unique project slug") rejected), w)
try_slugs (suc left) i user name base w =
    after_insert user (λ w'. try_slugs left (suc i) user name base w')
      (statement (codes "create project") (insert_project user name (slug_at base i)) w)

unfoldable pub create_project : ℕ → Text → M Project
unfolding try_slugs slugify
create_project user name =
    let slug = slugify name in
    transaction (codes "begin create project") (codes "commit create project")
      (try_slugs 100 0 user name (if is_empty slug then codes "project" else slug))

abbrev project_by_id : Db → MemberRow → Option Project
project_by_id db m = elim (first (λ p. p.id == m.project_id) db.projects) [
  | none ↦ none
  | some p ↦ some (view_project m.role p)
]

unfoldable pub list_projects_by_user : ℕ → M (List Project)
list_projects_by_user user = query (codes "list projects") (λ db now.
    newest_first (λ p. p.created_at)
      (filter_map (project_by_id db) (select (λ m. m.user_id == user) db.members)))

abbrev pub role_of : Option MemberRow → Option Text
role_of none = none
role_of (some m) = some m.role

-- The role of a user in a project.
abbrev pub role_in : Db → ℕ → ℕ → Option Text
role_in db user project =
    role_of (first (λ m. m.project_id == project && m.user_id == user) db.members)

abbrev pub viewed : ProjectRow → Option Text → Option Project
viewed p none = none
viewed p (some role) = some (view_project role p)

abbrev pub as_member : Db → ℕ → Option ProjectRow → Option Project
as_member db user none = none
as_member db user (some p) = viewed p (role_in db user p.id)

abbrev pub find_project : Db → ℕ → Text → Option Project
find_project db user slug = as_member db user (first (λ p. equal p.slug slug) db.projects)

unfoldable pub get_project_by_slug : ℕ → Text → M Project
get_project_by_slug user slug = do
  found ← query (codes "get project") (λ db now. find_project db user slug)
  or_not_found found
