-- ===== src/Github.antt =====
-- server/internal/githubapp/client.go: the client of the GitHub API.
pub mod Client
pub mod Http
pub mod Listings
pub mod Pages
pub mod Payloads
pub mod Tokens
