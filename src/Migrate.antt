-- ===== src/Migrate.antt =====
-- server/internal/postgres/migrate.go: the migrations, and the splitting of a file into statements.
pub mod Run
pub mod Split
