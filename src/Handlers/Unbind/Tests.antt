-- ===== src/Handlers/Unbind/Tests.antt =====
-- The owner of the sample project unbinds its repository.
use ghapp_demo.Base.{◌≡◌, ◌⊎◌, some}
use ghapp_demo.Handlers.Unbind.{handle_unbind_repo}
use ghapp_demo.Handlers.Unbind.Managed.{IsManaged, bindings_of, handle_unbind_repo-IsManaged}
use ghapp_demo.Store.Bindings.{unbind_repo_from_project, is_live}
use ghapp_demo.Base.{any, false, refl}
use ghapp_demo.Handlers.Unbind.{can_manage_project}
use ghapp_demo.Store.Monad.{statement}
use ghapp_demo.Store.Projects.{get_project_by_slug}
use ghapp_demo.Store.Sample.{world}
use ghapp_demo.Text.{codes, equal, trim_space, to_lower}
use ghapp_demo.Text.Number.{parse_int}

none_left :
    any is_live
      (bindings_of (handle_unbind_repo (some 1) (codes "demo") (some (codes "7")) world).1)
    ≡ false
unfolding handle_unbind_repo get_project_by_slug unbind_repo_from_project can_manage_project
    parse_int statement equal trim_space to_lower
none_left = refl

handle_unbind_repo-IsManaged_example :
    (bindings_of (handle_unbind_repo (some 1) (codes "demo") (some (codes "7")) world).1
      ≡ bindings_of world)
    ⊎ IsManaged
        (some 1)
        (codes "demo")
        (some (codes "7"))
        world
        (handle_unbind_repo (some 1) (codes "demo") (some (codes "7")) world).1
handle_unbind_repo-IsManaged_example =
    handle_unbind_repo-IsManaged (some 1) (codes "demo") (some (codes "7")) world
