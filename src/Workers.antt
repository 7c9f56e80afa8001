-- ===== src/Workers.antt =====
-- server/internal/workers/pull.go
pub mod Match
pub mod Passes
mod Tests
