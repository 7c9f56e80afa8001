-- ===== src/Migrate/Run/Again.antt =====
-- server/internal/postgres/migrate.go: `Migrate` a second time.
use ghapp_demo.Base.{
  ◌≡◌, refl, sym, ap, subst, ◌∙◌, Bool, true, false, not, ◌||◌, List, [], ◌∷◌, ◌++◌, Option, some,
  arith, any, select, map, append-nil, Bool-cases, inl, inr, In,
}
use ghapp_demo.Base.Result.{ok}
use ghapp_demo.Migrate.Run.{
  Entry, Database, is_applied, versions_of, migrate, apply_files, files_of,
}
use ghapp_demo.Migrate.Run.Prefix.{HasDone, pending, is_pending, name_of, migrate-HasDone}
use ghapp_demo.Migrate.Run.Steps.{Step}
use ghapp_demo.Store.Query.Laws.{In-select}
use ghapp_demo.Text.{Text, equal}
use ghapp_demo.Text.Laws.{equal_self}

any-append : (p : Text → Bool) (xs ys : List Text) → any p (xs ++ ys) ≡ (any p xs || any p ys)
any-append p [] ys = refl
any-append p (x ∷ xs) ys = ground (arith, any-append p xs ys)

any-map : (e : Entry) (es : List Entry) → In e es → any (equal e.name) (map name_of es) ≡ true
any-map e (x ∷ es) (inl h) = rw (ap name_of h, equal_self e.name) refl
any-map e (x ∷ es) (inr h) = ground (arith, any-map e es h)
any-map e [] h = elim h [ ]

select_none :
    (p : Entry → Bool) (es : List Entry) → ((e : Entry) → In e es → p e ≡ false) → select p es ≡ []
select_none p [] h = refl
select_none p (e ∷ es) h = rw (h e (inl refl), select) (select_none p es (λ x i. h x (inr i)))

recorded_all :
    (old : List Text) (files : List Entry) (e : Entry)
    → In e files
    → is_applied (old ++ map name_of (pending old files)) e ≡ true
recorded_all old files e i = elim (Bool-cases (is_applied old e)) [
  | inl k ↦
      any-append (equal e.name) old _
      ∙ ap (λ b. b || any (equal e.name) (map name_of (pending old files))) k
  | inr k ↦
      let new : In e (pending old files) = (In-select (is_pending old) e files).1 (i, ap not k) in
      any-append (equal e.name) old _
      ∙ ap (λ b. b || any (equal e.name) (map name_of (pending old files))) k
      ∙ any-map e (pending old files) new
]

-- What is left after everything is done.
pending_none :
    (old new : List Text) (files : List Entry)
    → new ≡ old ++ map name_of (pending old files)
    → pending new files ≡ []
pending_none old new files h =
    select_none (is_pending new) files
      (λ e i. ap not (subst (λ n. is_applied n e ≡ true) (sym h) (recorded_all old files e i)))

module _ {S : Type 0} (exec : Text → S → Option S) where
  apply_files_none :
      (applied : List Text) (files : List Entry) (w : Database S)
      → pending applied files ≡ []
      → apply_files exec applied files w ≡ (ok tt, w)
  unfolding apply_files
  apply_files_none applied [] w h = refl
  apply_files_none applied (e ∷ files) w h = elim (Bool-cases (is_applied applied e)) [
    | inl k ↦
        let left : pending applied (e ∷ files) ≡ pending applied files = rw (k, select) refl in
        rw (k, apply_files) (apply_files_none applied files w (sym left ∙ h))
    | inr k ↦
        let left : pending applied (e ∷ files) ≡ e ∷ pending applied files = rw (k, select) refl in
        let no : e ∷ pending applied files ≡ [] = sym left ∙ h in ground arith
  ]

  done_all :
      (files : List Entry) (w : Database S) (r : Step S)
      → HasDone exec files w r
      → r.0 ≡ ok tt
      → versions_of r.1.versions ≡ versions_of w.versions ++ map name_of files
  done_all files w r (done, rest, p, s, v, f) h =
      let e : files ≡ done = p ∙ ap (λ x. done ++ x) (f h) ∙ append-nil done in
      v ∙ ap (λ x. versions_of w.versions ++ map name_of x) (sym e)

  -- If `Migrate` ends without an error, then a second time, with no call failing, it ends without
  -- an error, runs no statement of a migration, and records nothing.
  pub migrate_again :
      (entries : List Entry) (w w' : Database S)
      → migrate exec entries w ≡ (ok tt, w')
      → migrate exec entries (record w' { faults = [] })
        ≡ (ok tt, record w' { versions = some (versions_of w'.versions); faults = [] })
  unfolding migrate
  migrate_again entries w w' h =
      let v : versions_of (migrate exec entries w).1.versions
          ≡ versions_of w.versions
            ++ map name_of (pending (versions_of w.versions) (files_of entries)) =
        done_all (pending (versions_of w.versions) (files_of entries)) w (migrate exec entries w)
          (migrate-HasDone exec entries w) (ap (λ r. r.0) h) in
      apply_files_none (versions_of w'.versions) (files_of entries) _ (
        pending_none (versions_of w.versions) (versions_of w'.versions) (files_of entries)
          (ap (λ r. versions_of r.1.versions) (sym h) ∙ v))
