-- ===== src/Handlers/Bind/Allowed.antt =====
-- server/web/handler/server.go: who binds a repository.
use ghapp_demo.Base.{
  ℕ, ◌≡◌, refl, sym, ap, subst, ◌∙◌, Bool, true, false, Option, none, some, arith, Bool-cases, inl,
  inr,
}
use ghapp_demo.Base.Int.{ℤ, is_positive}
use ghapp_demo.Base.Result.{Result, ok, err}
use ghapp_demo.Handlers.Bind.{
  at, finish_bind, bind_checked, bind_with_access, ensured, bind_id, with_project, handle_bind_repo,
}
use ghapp_demo.Handlers.Site.{Site, GithubApi}
use ghapp_demo.Handlers.Unbind.{can_manage_project, project_status, read_id}
use ghapp_demo.Store.Bindings.{may_bind, user_can_access_repo_for_binding, bind_repo_to_project}
use ghapp_demo.Store.Monad.{World, StoreError, not_found, failed}
use ghapp_demo.Store.Monad.Invert.{query-ok}
use ghapp_demo.Store.Projects.{Project, get_project_by_slug}
use ghapp_demo.Store.Projects.Create.{IsMemberBy, get_project_by_slug-IsMember}
use ghapp_demo.Store.Tables.{ProjectRow, MemberRow}
use ghapp_demo.Text.{Text, codes}

project_status-303 : (e : StoreError) → project_status e ≡ 303 → ⊥
project_status-303 not_found h = ground arith
project_status-303 (failed label cause) h = ground arith

module _ {S : Type 0} where
  finish_bind-done :
      (s : S) (r : Result StoreError (Unit {0}) × World)
      → (finish_bind s r).0 ≡ 303
      → (r.0 ≡ ok tt) × ((finish_bind s r).1.world ≡ r.1)
  finish_bind-done s (ok u, w) h = (refl, refl)
  finish_bind-done s (err e, w) h = ground arith

  bind_checked-done :
      (user : ℕ) (p : Project) (repo : ℤ) (s : S) (r : Result StoreError Bool × World)
      → (bind_checked user p repo s r).0 ≡ 303
      → (r.0 ≡ ok true)
        × ((bind_repo_to_project p.id repo user r.1).0 ≡ ok tt)
        × ((bind_checked user p repo s r).1.world ≡ (bind_repo_to_project p.id repo user r.1).1)
  bind_checked-done user p repo s (err e, w) h = ground arith
  bind_checked-done user p repo s (ok false, w) h = ground arith
  bind_checked-done user p repo s (ok true, w) h =
      let (o, e) = finish_bind-done s (bind_repo_to_project p.id repo user w) h in (refl, o, e)

  -- The binding was made: after GitHub was asked, the table of accesses has the repository.
  abbrev pub IsBound : Option (GithubApi S) → ℕ → Project → ℤ → Site S → World → Type 0
  IsBound api user p repo site w' =
      (stale : Bool) × (asked : Site S) × (w : World) × (ensured api user site ≡ (ok stale, asked))
      × (w.db ≡ asked.world.db)
      × (may_bind asked.world.db user repo ≡ true)
      × ((bind_repo_to_project p.id repo user w).0 ≡ ok tt)
      × (w' ≡ (bind_repo_to_project p.id repo user w).1)

  bind_with_access-IsBound :
      (api : Option (GithubApi S)) (user : ℕ) (p : Project) (repo : ℤ) (site : Site S)
      (r : Result Text Bool × Site S)
      → ensured api user site ≡ r
      → (bind_with_access user p repo r).0 ≡ 303
      → IsBound api user p repo site (bind_with_access user p repo r).1.world
  unfolding user_can_access_repo_for_binding
  bind_with_access-IsBound api user p repo site (err words, asked) e h = ground arith
  bind_with_access-IsBound api user p repo site (ok stale, asked) e h =
      let check = user_can_access_repo_for_binding user repo asked.world in
      let (can, bound, world) = bind_checked-done user p repo asked.github check h in
      let (allowed, same) =
        query-ok (codes "check user repo access") (λ db now. may_bind db user repo) asked.world true
          can in
      (stale, asked, check.1, e, same, sym allowed, bound, world)

  -- Of a user who is a member of the project under a role that manages it.
  abbrev pub IsAllowed :
      Option (GithubApi S) → Option ℕ → Text → Option Text → Site S → World → Type 0
  IsAllowed api user slug field site w' =
      (u : ℕ) × (p : Project) × (repo : ℤ) × (row : ProjectRow) × (m : MemberRow) × (user ≡ some u)
      × IsMemberBy u slug site.world p row m
      × (can_manage_project p.role ≡ true)
      × (read_id field ≡ some repo)
      × (is_positive repo ≡ true)
      × IsBound api u p repo (at site.github (get_project_by_slug u slug site.world).1) w'

  bind_id-IsBound :
      (api : Option (GithubApi S)) (user : ℕ) (p : Project) (found : Option ℤ) (site : Site S)
      → (bind_id api user p found site).0 ≡ 303
      → (repo : ℤ) × (found ≡ some repo)
        × (is_positive repo ≡ true)
        × IsBound api user p repo site (bind_id api user p found site).1.world
  bind_id-IsBound api user p none site h = ground arith
  bind_id-IsBound api user p (some repo) site h = elim (Bool-cases (is_positive repo)) [
    | inl t ↦
        let same : bind_id api user p (some repo) site
            ≡ bind_with_access user p repo (ensured api user site) =
          rw (t, bind_id) refl in
        (
          repo,
          refl,
          t,
          subst (λ r. IsBound api user p repo site r.1.world) (sym same)
              (bind_with_access-IsBound api user p repo site (ensured api user site) refl
                (ap (λ r. r.0) (sym same) ∙ h)),
        )
    | inr t ↦
        let same : bind_id api user p (some repo) site ≡ (400, site) = rw (t, bind_id) refl in
        let impossible : 400 ≡ 303 = ap (λ r. r.0) (sym same) ∙ h in ground arith
  ]

  with_project-IsBound :
      (api : Option (GithubApi S)) (user : ℕ) (field : Option Text) (s : S)
      (found : Result StoreError Project × World)
      → (with_project api user field s found).0 ≡ 303
      → (p : Project) × (repo : ℤ) × (found.0 ≡ ok p)
        × (can_manage_project p.role ≡ true)
        × (read_id field ≡ some repo)
        × (is_positive repo ≡ true)
        × IsBound api user p repo (at s found.1) (with_project api user field s found).1.world
  with_project-IsBound api user field s (err e, w) h = absurd (project_status-303 e h)
  with_project-IsBound api user field s (ok p, w) h =
      elim (Bool-cases (can_manage_project p.role)) [
        | inl t ↦
            let same : with_project api user field s (ok p, w)
                ≡ bind_id api user p (read_id field) (at s w) =
              rw (t, with_project) refl in
            let (repo, read, positive, bound) =
              bind_id-IsBound api user p (read_id field) (at s w) (ap (λ r. r.0) (sym same) ∙ h) in
            (
              p,
              repo,
              refl,
              t,
              read,
              positive,
              subst (λ r. IsBound api user p repo (at s w) r.1.world) (sym same) bound,
            )
        | inr t ↦
            let same : with_project api user field s (ok p, w) ≡ (403, at s w) =
              rw (t, with_project) refl in
            let impossible : 403 ≡ 303 = ap (λ r. r.0) (sym same) ∙ h in ground arith
      ]

  -- If the handler answers with the redirect, then there is a user who is a member of the project
  -- of that slug under a role that manages it; the form names a repository by a positive number;
  -- the access of the user was ensured, and after that the table of accesses had the repository for
  -- the user; and the world is the one that binding the repository to the project left.
  pub handle_bind_repo-IsAllowed :
      (api : Option (GithubApi S)) (user : Option ℕ) (slug : Text) (field : Option Text)
      (site : Site S)
      → (handle_bind_repo api user slug field site).0 ≡ 303
      → IsAllowed api user slug field site (handle_bind_repo api user slug field site).1.world
  unfolding handle_bind_repo
  handle_bind_repo-IsAllowed api none slug field site h = ground arith
  handle_bind_repo-IsAllowed api (some u) slug field site h =
      let (p, repo, got, manages, read, positive, bound) =
        with_project-IsBound api u field site.github (get_project_by_slug u slug site.world) h in
      let (row, m, member) = get_project_by_slug-IsMember u slug site.world p got in
      (u, p, repo, row, m, refl, member, manages, read, positive, bound)
