-- ===== src/Handlers.antt =====
-- server/web/handler/server.go: the handlers of the HTTP routes.
pub mod Pages
pub mod Public
pub mod Request
pub mod Access
pub mod Bind
pub mod Ingest
pub mod Lineage
pub mod Login
pub mod Session
pub mod Site
pub mod Token
pub mod Unbind
