-- ===== src/Migrate/Run/Tests.antt =====
-- Migrations at concrete files; the toy schema is the list of the statements that were run.
use ghapp_demo.Base.{◌≡◌, refl, false, List, [], ◌∷◌, ◌++◌, Option, none, some, if◌then◌else◌}
use ghapp_demo.Base.Result.{ok, err}
use ghapp_demo.Migrate.Run.{
  Entry, Database, failed, migrate, apply_files, apply_migration, execute_all, files_of, sort_files,
  insert_file, text_leb, versions_of,
}
use ghapp_demo.Migrate.Run.Again.{migrate_again}
use ghapp_demo.Migrate.Run.Prefix.{HasDone, pending, migrate-HasDone}
use ghapp_demo.Migrate.Split.{split_statements}
use ghapp_demo.Text.{Text, codes, equal, trim_space}
use ghapp_demo.Text.Path.{behind_last}

abbrev log : Text → List Text → Option (List Text)
log stmt ran = if equal stmt (codes "bad") then none else some (ran ++ (stmt ∷ []))

abbrev file : Text → Text → Entry
file name content = record { name = name; is_dir = false; content = content }

-- The second file fails at its second statement.
abbrev embedded : List Entry
embedded =
    file (codes "2.sql") (codes "c; bad")
    ∷ file (codes "1.sql") (codes "a; b")
    ∷ file (codes "embed.go") (codes "x")
    ∷ []

abbrev first_file : List Entry
first_file = file (codes "1.sql") (codes "a; b") ∷ []

abbrev fresh : Database (List Text)
fresh = record { schema = []; versions = none; faults = [] }

abbrev migrated : Database (List Text)
migrated = record {
  schema = codes "a" ∷ codes "b" ∷ [];
  versions = some (codes "1.sql" ∷ []);
  faults = [];
}

first_stays : migrate log embedded fresh ≡ (err (failed (codes "apply") (codes "2.sql")), migrated)
unfolding migrate apply_files apply_migration execute_all files_of sort_files insert_file text_leb
    split_statements behind_last equal trim_space
first_stays = refl

migrate-HasDone_example :
    HasDone log (pending (versions_of none) (files_of embedded)) fresh (migrate log embedded fresh)
migrate-HasDone_example = migrate-HasDone log embedded fresh

migrate_again_example : migrate log first_file migrated ≡ (ok tt, migrated)
unfolding migrate apply_files apply_migration execute_all files_of sort_files insert_file text_leb
    split_statements behind_last equal trim_space
migrate_again_example = migrate_again log first_file fresh migrated refl
