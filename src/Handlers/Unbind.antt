-- ===== src/Handlers/Unbind.antt =====
-- server/web/handler/server.go: `handleUnbindRepo`. The user is the one that the session gave, the
-- slug is from the path, and the form field is missing where the form does not parse.
pub mod Managed
mod Tests
use ghapp_demo.Base.{ℕ, Bool, true, false, not, ◌||◌, Option, none, some, if◌then◌else◌}
use ghapp_demo.Base.Int.{ℤ, is_positive}
use ghapp_demo.Base.Result.{Result, ok, err}
use ghapp_demo.Store.Bindings.{unbind_repo_from_project}
use ghapp_demo.Store.Monad.{World, StoreError, not_found, failed}
use ghapp_demo.Store.Projects.{Project, get_project_by_slug}
use ghapp_demo.Text.{Text, codes, equal, trim_space, to_lower}
use ghapp_demo.Text.Number.{parse_int}

-- The answer's status, and the world.
abbrev pub Answer : Type 0
Answer = ℕ × World

unfoldable pub can_manage_project : Text → Bool
can_manage_project role =
    equal (to_lower (trim_space role)) (codes "owner")
    || equal (to_lower (trim_space role)) (codes "admin")

-- `errors.Is(err, postgres.ErrNotFound)`
abbrev pub project_status : StoreError → ℕ
project_status not_found = 404
project_status (failed label cause) = 500

abbrev pub finish_unbind : Result StoreError (Unit {0}) × World → Answer
finish_unbind (ok u, w) = (303, w)
finish_unbind (err e, w) = (500, w)

abbrev pub unbind_id : Project → Option ℤ → World → Answer
unbind_id p none w = (400, w)
unbind_id p (some repo) w =
    if is_positive repo then finish_unbind (unbind_repo_from_project p.id repo w) else (400, w)

abbrev pub read_id : Option Text → Option ℤ
read_id none = none
read_id (some value) = parse_int (trim_space value)

abbrev pub with_project : Option Text → Result StoreError Project × World → Answer
with_project field (err e, w) = (project_status e, w)
with_project field (ok p, w) =
    if can_manage_project p.role then unbind_id p (read_id field) w else (403, w)

unfoldable pub handle_unbind_repo : Option ℕ → Text → Option Text → World → Answer
handle_unbind_repo none slug field w = (500, w)
handle_unbind_repo (some user) slug field w = with_project field (get_project_by_slug user slug w)
