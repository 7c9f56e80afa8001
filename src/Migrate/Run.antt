-- ===== src/Migrate/Run.antt =====
-- server/internal/postgres/migrate.go: `Migrate` and `applyMigration`. What a statement of a
-- migration does to the schema is a parameter; the migrations do not write `schema_migrations`.
-- Every call of the database may fail for a reason outside the program: `faults` says which of the
-- next calls do. What a failed transaction has done is undone.
pub mod Again
pub mod Prefix
pub mod Steps
mod Tests
use ghapp_demo.Base.{
  ℕ, Bool, true, false, not, ◌&&◌, List, [], ◌∷◌, ◌++◌, Option, none, some, ltb, ◌==◌, any, select,
  if◌then◌else◌,
}
use ghapp_demo.Base.Result.{Result, ok, err}
use ghapp_demo.Migrate.Split.{split_statements}
use ghapp_demo.Text.{Text, codes, equal}
use ghapp_demo.Text.Path.{behind_last}

-- An entry of the embedded directory, with its content.
pub record Entry : Type 0 where
  pub name : Text
  pub is_dir : Bool
  pub content : Text

-- `versions` are the rows of `schema_migrations`, if the table is there.
pub record Database (S : Type 0) : Type 0 where
  pub schema : S
  pub versions : Option (List Text)
  pub faults : List Bool

pub data MigrateError : Type 0 where
  -- the call that failed, and the migration that it belongs to
  failed : Text → Text → MigrateError

abbrev pub M : Type 0 → Type 0
M S = Database S → Result MigrateError (Unit {0}) × Database S

abbrev pub next_fails : List Bool → Bool
next_fails [] = false
next_fails (b ∷ bs) = b

abbrev pub later : List Bool → List Bool
later [] = []
later (b ∷ bs) = bs

abbrev pub then_do :
    {S : Type 0}
    → Result MigrateError (Unit {0}) × Database S
    → M S
    → Result MigrateError (Unit {0}) × Database S
then_do (ok u, w) f = f w
then_do (err e, w) f = (err e, w)

-- A round trip to the server.
abbrev pub call : {S : Type 0} → Text → Text → M S
call what name w = (
  if next_fails w.faults then err (failed what name) else ok tt,
  record w { faults = later w.faults },
)

-- `a <= b` on strings
unfoldable pub text_leb : Text → Text → Bool
text_leb [] b = true
text_leb (x ∷ a) [] = false
text_leb (x ∷ a) (y ∷ b) =
    let rest = text_leb a b in if ltb x y then true else if x == y then rest else false

unfoldable pub insert_file : Entry → List Entry → List Entry
insert_file e [] = e ∷ []
insert_file e (f ∷ fs) =
    let rest = insert_file e fs in if text_leb e.name f.name then e ∷ f ∷ fs else f ∷ rest

-- `sort.Strings`, with each name's content
unfoldable pub sort_files : List Entry → List Entry
unfolding insert_file
sort_files [] = []
sort_files (e ∷ es) = insert_file e (sort_files es)

abbrev has_suffix : Option Text → Bool
has_suffix none = false
has_suffix (some suffix) = equal suffix (codes "sql")

-- A file with the extension ".sql".
abbrev pub is_migration : Entry → Bool
is_migration e = not e.is_dir && has_suffix (behind_last b'.' e.name)

unfoldable pub files_of : List Entry → List Entry
unfolding sort_files
files_of entries = sort_files (select is_migration entries)

-- `applied[name]`
abbrev pub is_applied : List Text → Entry → Bool
is_applied applied e = any (equal e.name) applied

abbrev pub versions_of : Option (List Text) → List Text
versions_of none = []
versions_of (some versions) = versions

abbrev pub executed :
    {S : Type 0} → Text → Database S → Option S → Result MigrateError (Unit {0}) × Database S
executed name w none = (err (failed (codes "apply") name), w)
executed name w (some s) = (ok tt, record w { schema = s })

-- The row, unless its key is there or the table is not.
abbrev pub inserted : Text → Option (List Text) → Option (List Text)
inserted name none = none
inserted name (some versions) =
    if any (equal name) versions then none else some (versions ++ (name ∷ []))

abbrev pub with_row :
    {S : Type 0}
    → Text
    → Database S
    → Option (List Text)
    → Result MigrateError (Unit {0}) × Database S
with_row name w none = (err (failed (codes "record") name), w)
with_row name w (some versions) = (ok tt, record w { versions = some versions })

abbrev pub record_version : {S : Type 0} → Text → M S
record_version name w =
    then_do (call (codes "record") name w) (λ w. with_row name w (inserted name w.versions))

-- The deferred `tx.Rollback`, which does nothing after a commit.
abbrev pub or_rollback :
    {S : Type 0}
    → Database S
    → Result MigrateError (Unit {0}) × Database S
    → Result MigrateError (Unit {0}) × Database S
or_rollback before (ok u, w) = (ok u, w)
or_rollback before (err e, w) = (err e, record before { faults = w.faults })

-- CREATE TABLE IF NOT EXISTS
abbrev pub create_table : {S : Type 0} → M S
create_table w =
    then_do (call (codes "create") [] w)
      (λ w. (ok tt, record w { versions = some (versions_of w.versions) }))

module _ {S : Type 0} (exec : Text → S → Option S) where
  abbrev pub execute : Text → Text → M S
  execute name stmt w =
      then_do (call (codes "apply") name w) (λ w. executed name w (exec stmt w.schema))

  unfoldable pub execute_all : Text → List Text → M S
  execute_all name [] w = (ok tt, w)
  execute_all name (stmt ∷ stmts) w = then_do (execute name stmt w) (execute_all name stmts)

  unfoldable pub apply_migration : Text → Text → M S
  unfolding execute_all
  apply_migration name sql before = or_rollback before (
      then_do (call (codes "begin") name before) (λ w.
        then_do (execute_all name (split_statements sql) w)
          (λ w. then_do (record_version name w) (call (codes "commit") name))))

  unfoldable pub apply_files : List Text → List Entry → M S
  apply_files applied [] w = (ok tt, w)
  apply_files applied (e ∷ es) w = elim (is_applied applied e) [
    | true ↦ apply_files applied es w
    | false ↦ then_do (apply_migration e.name e.content w) (apply_files applied es)
  ]

  unfoldable pub migrate : List Entry → M S
  unfolding apply_files files_of
  migrate entries w = then_do (create_table w) (λ w.
      then_do (call (codes "load") [] w)
        (λ w. apply_files (versions_of w.versions) (files_of entries) w))
