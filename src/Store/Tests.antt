-- ===== src/Store/Tests.antt =====
-- Runs of the methods on the sample database.
mod Access
mod Uploads
mod Upkeep
