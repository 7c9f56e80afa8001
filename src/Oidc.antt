-- ===== src/Oidc.antt =====
-- server/internal/oidc/verifier.go
pub mod Claims
pub mod Principal
pub mod Sample
pub mod Verify
pub mod Keys
mod Tests
