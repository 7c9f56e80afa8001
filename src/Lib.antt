-- ===== src/Lib.antt =====
-- Verification of the server of ghapp-demo (server/), which stores reports of outbound network
-- traffic that a GitHub Action uploads, and shows them to the members of the projects that the
-- repositories are bound to.
--
-- An upload takes two requests. The action proves its identity with a GitHub OIDC token, which
-- server/internal/oidc/verifier.go checks; the server answers with an upload token
-- (server/internal/runsauth/tokens.go); the report is then posted with that token and stored by
-- server/internal/postgres/store.go. Reads go through the store too, and its statements decide who
-- sees a run. Background passes keep the coverage of repositories by installations of the GitHub
-- App, revoke bindings and purge runs. The limiter of server/web/handler/server.go counts the requests
-- of each repository owner.
--
-- Files:
-- - Base: shared names; lists, Boolean tests, int64 values with a sign, results.
-- - Text: text as code points, with the functions of `strings` and `strconv` that the source calls;
--   Text/Collect is the loop that `parseCSVAllowlist` and `NewVerifier` share.
-- - Limiter: `fixedWindowLimiter` of server/web/handler/server.go.
-- - Migrate: server/internal/postgres/migrate.go. Split is `splitStatements`, as a scan that keeps a
--   mode; a step looks at one byte and the text behind it. Run is `Migrate` and `applyMigration`, over
--   a schema of any type.
-- - Config: server/internal/config/config.go.
-- - Oidc: server/internal/oidc/verifier.go. Claims reads claims, Principal is
--   `principalFromClaims`, Keys is the key cache, Verify is `NewVerifier` and `Verify`.
-- - Runsauth: server/internal/runsauth/tokens.go.
-- - Store: server/internal/postgres/store.go. Tables has the rows
--   (server/db/migrations/0006_schema.sql), Monad has statements and transactions, Query has what a
--   statement does to a list of rows, Columns what the columns of an upload take, Prepared what
--   PostgreSQL checks of a statement before it runs; Users, Projects, Bindings, Runs, Installations,
--   Coverage and Enrichment have the methods, one definition each, under the method's name.
-- - Github: server/internal/githubapp/client.go. Http is `getJSONWithETag`, Pages is the loop over
--   pages that the listings share, Payloads has what GitHub answers, Tokens the installation tokens
--   with their cache, Listings the listings and `GetRepository`, Client has `NewClient`, the OAuth
--   exchange and the encryption of tokens.
-- - Workers: server/internal/workers/pull.go. Match is `matchJobsToRuns`, Passes is `RunAll`.
-- - Handlers: server/web/handler/server.go, and Session is server/internal/auth/session.go. Request
--   reads the texts of a request. Token is `handleRunsToken` over the verifier, the limiter and the
--   upload tokens, Ingest is `handleRunsIngest` over the limiter, the upload tokens and the store.
--   Site is the state of the handlers that call both the store and GitHub: Access is
--   `ensureUserRepoAccess`, Bind is `handleBindRepo`, Login is the login. Unbind is
--   `handleUnbindRepo`, Pages are the pages of the projects, Public is the page of a run and of a
--   repository's runs, with what server/web/templates/run.html shows of a run (Shown), Lineage is
--   the view of a report's processes.
--
-- State and errors: a store method is a function of a world: the tables, the clock, what befalls
-- the next statements, and the transaction. A statement may fail for an outer reason, which is an
-- event of the world; it may break a constraint, have a value that a column does not take, or be a
-- statement that PostgreSQL does not accept at all, as two of the source are; after a failure a
-- transaction refuses every statement until it ends. A statement that fails has no effect. A
-- theorem on a method that returns has that as a hypothesis on its result. An answer of a handler
-- is its status.
--
-- Parameters: the JWT library with the keys it is given (Runsauth.Jwt with its laws; the argument
-- `parse` of Oidc.Verify), base64 decoding, the HTTP exchange that fetches keys, the decoders of JSON
-- and of instants, SHA-256, the HTTP exchange with GitHub, the AEAD and the random bytes of tokens, the
-- lower case and the folding table of Unicode, what a statement of a migration does to the schema, how
-- PostgreSQL reads a UUID, the UUIDs that it generates, and which texts it takes in a TEXT and in a
-- JSONB column. A JSONB column keeps the text here.
--
-- Bounds: instants and durations are nanoseconds as natural numbers; a key's exponent is a 64-bit
-- pattern, with the wrap-around written out; identifiers are integers. Loops run over a list or count
-- down from the source's own bound. The printing of a number has fuel: the number plus one, which is
-- above the number of its digits. The loop over pages of GitHub has no bound in the source, and has
-- fuel here: one more than the full pages of a listing are enough, and a run that has no fuel left is
-- told apart from every result.
--
-- Not modelled: other connections between two statements of one method; the order of rows in the two
-- listings of repositories; the table of routes, the middleware, and the templates but for a run's page; the timer of the
-- pull workers; the start of the server; and the parts in other languages.
pub mod Base
pub mod Text
pub mod Limiter
pub mod Migrate
pub mod Config
pub mod Oidc
pub mod Runsauth
pub mod Store
pub mod Github
pub mod Workers
pub mod Handlers
