-- ===== src/Store.antt =====
-- server/internal/postgres/store.go, over the tables of server/db/migrations/0006_schema.sql. Each
-- method is one step: what other connections do meanwhile is not modelled.
pub mod Tables
pub mod Monad
pub mod Query
pub mod Users
pub mod Prepared
pub mod Projects
pub mod Bindings
pub mod Runs
pub mod Installations
pub mod Columns
pub mod Coverage
pub mod Enrichment
pub mod Sample
mod Tests
