-- ===== src/Store/Tests/Access.antt =====
-- Sessions, projects and bindings on the sample.
use ghapp_demo.Base.{
  ◌*◌, ◌^◌, inl, ◌≡◌, refl, true, false, List, [], ◌∷◌, ◌++◌, Option, none, some, In, any,
  if◌then◌else◌, ltb, ◌==◌,
}
use ghapp_demo.Base.Int.{pos}
use ghapp_demo.Base.Result.{ok, err}
use ghapp_demo.Store.Bindings.{
  bind_repo_to_project, unbind_repo_from_project, replace_user_repo_access, is_binding, is_live,
  Grant,
}
use ghapp_demo.Store.Bindings.Laws.{
  find-bind, find_binding, replace_user_repo_access-atomic, access_rows,
}
use ghapp_demo.Store.Monad.{World, StoreError, statement}
use ghapp_demo.Store.Projects.{Project, create_project, get_project_by_slug, slugify, sanitize}
use ghapp_demo.Store.Projects.Create.{
  create_project_taken, get_project_by_slug-IsMember, IsMemberBy, first_slug,
}
use ghapp_demo.Store.Query.{delete}
use ghapp_demo.Store.Sample.{world, binding}
use ghapp_demo.Store.Tables.{ProjectRow, MemberRow, BindingRow}
use ghapp_demo.Store.Users.{
  User, create_session, delete_session, get_user_by_session_token, find_user, found_user,
}
use ghapp_demo.Store.Users.Sessions.{get-create, get-delete}
use ghapp_demo.Text.{codes, equal, trim_space, trim_byte, to_lower}

abbrev signed_in : World
signed_in = (create_session 1 (codes "s") (2000 * 10 ^ 9) world).1

created : (create_session 1 (codes "s") (2000 * 10 ^ 9) world).0 ≡ ok tt
unfolding create_session statement
created = refl

abbrev user : User
user = record {
  id = 1;
  display_name = codes "o";
  login = [];
  email = none;
  avatar_url = [];
  created_at = 0;
}

known : (get_user_by_session_token (codes "s") signed_in).0 ≡ ok (some user)
unfolding create_session get_user_by_session_token statement equal
known = refl

get-create_example : some user ≡ (
    if ltb signed_in.now (2000 * 10 ^ 9)
    then found_user signed_in.db (find_user 1 signed_in.db)
    else none)
unfolding create_session statement
get-create_example =
    get-create 1 (codes "s") (2000 * 10 ^ 9) world created signed_in (some user) refl refl known

abbrev signed_out : World
signed_out = (delete_session (codes "s") signed_in).1

deleted : (delete_session (codes "s") signed_in).0 ≡ ok tt
unfolding create_session delete_session statement
deleted = refl

nobody : (get_user_by_session_token (codes "s") signed_out).0 ≡ ok none
unfolding create_session delete_session get_user_by_session_token statement equal
nobody = refl

get-delete_example : ◌≡◌ {A = Option User} none none
unfolding create_session delete_session statement
get-delete_example = get-delete (codes "s") signed_in signed_out none deleted refl refl nobody

taken : any (λ (p : ProjectRow). equal p.slug (first_slug (codes "Demo"))) world.db.projects ≡ true
unfolding slugify sanitize equal trim_space trim_byte to_lower
taken = refl

create_project_taken_example :
    (e : StoreError) × ((create_project 1 (codes "Demo") world).0 ≡ err e)
    × ((create_project 1 (codes "Demo") world).1.db ≡ world.db)
create_project_taken_example = create_project_taken 1 (codes "Demo") world taken

abbrev view : Project
view = record {
  id = 1;
  created_by = some 1;
  role = codes "owner";
  name = codes "Demo";
  slug = codes "demo";
  created_at = 0;
}

got : (get_project_by_slug 1 (codes "demo") world).0 ≡ ok view
unfolding get_project_by_slug statement equal
got = refl

get_project_by_slug-IsMember_example :
    (row : ProjectRow) × (m : MemberRow) × IsMemberBy 1 (codes "demo") world view row m
get_project_by_slug-IsMember_example = get_project_by_slug-IsMember 1 (codes "demo") world view got

bound : (bind_repo_to_project 1 (pos 7) 1 world).0 ≡ ok tt
unfolding bind_repo_to_project statement
bound = refl

find-bind_example :
    ((b : BindingRow) × (find_binding 1 (pos 7) (bind_repo_to_project 1 (pos 7) 1 world).1.db
        ≡ some b)
      × (is_live b ≡ true)
      × (b.bound_by ≡ some 1))
    × ((b : BindingRow)
        → In b world.db.bindings
        → is_binding 1 (pos 7) b ≡ false
        → In b (bind_repo_to_project 1 (pos 7) 1 world).1.db.bindings)
find-bind_example = find-bind 1 (pos 7) 1 world bound

abbrev gone : BindingRow
gone = record binding { revoked_at = some (1000 * 10 ^ 9) }

undone : (unbind_repo_from_project 1 (pos 7) world).0 ≡ ok tt
unfolding unbind_repo_from_project statement
undone = refl

left : In gone (unbind_repo_from_project 1 (pos 7) world).1.db.bindings
unfolding unbind_repo_from_project statement
left = inl refl

abbrev grants : List Grant
grants = (pos 7, pos 5) ∷ (pos 9, pos 5) ∷ []

replace_user_repo_access-atomic_example :
    ((replace_user_repo_access 1 grants world).0 ≡ ok tt
      → (replace_user_repo_access 1 grants world).1.db.access
        ≡ delete (λ a. a.user_id == 1) world.db.access ++ access_rows 1 grants)
    × ((e : StoreError)
        → (replace_user_repo_access 1 grants world).0 ≡ err e
        → (replace_user_repo_access 1 grants world).1.db ≡ world.db)
replace_user_repo_access-atomic_example = replace_user_repo_access-atomic 1 grants world
