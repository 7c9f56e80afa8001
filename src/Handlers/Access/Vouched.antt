-- ===== src/Handlers/Access/Vouched.antt =====
-- server/web/handler/server.go: how old the accesses are that `ensureUserRepoAccess` lets pass.
use ghapp_demo.Base.{ℕ, ◌+◌, ◌≤◌, ◌≡◌, ◌⊎◌, Bool, true, false, some}
use ghapp_demo.Base.Result.{Result, ok}
use ghapp_demo.Handlers.Access.{access_cache_ttl, access_max_staleness, sync_user_repo_access}
use ghapp_demo.Handlers.Access.Recorded.{sync_row}
use ghapp_demo.Handlers.Site.{Site, GithubApi}
use ghapp_demo.Store.Tables.{SyncRow}
use ghapp_demo.Text.{Text}

module _ {S : Type 0} (api : GithubApi S) (user : ℕ) where
  -- By a reading of the clock in a state with these tables and this state of GitHub, the last
  -- synchronisation that the tables record is no older than the age.
  abbrev pub IsRecent : ℕ → Site S → Type 0
  IsRecent age site =
      (row : SyncRow) × (t : ℕ) × (s : Site S) × (s.world.db ≡ site.world.db)
      × (s.github ≡ site.github)
      × (sync_row user site.world.db ≡ some row)
      × (row.synced_at ≡ some t)
      × (api.clock s ≤ t + age)

  -- The accesses were read from GitHub, from a state with these tables on.
  abbrev pub IsSynced : Site S → Type 0
  IsSynced site =
      (s s' : Site S) × (s.world.db ≡ site.world.db)
      × (s.github ≡ site.github)
      × (sync_user_repo_access api user s ≡ (ok tt, s'))

  -- Why access was granted, by the answer whether it is stale.
  abbrev pub IsVouched : Site S → Bool → Type 0
  IsVouched site b =
      ((b ≡ false) × IsRecent access_cache_ttl site)
      ⊎ ((b ≡ true) × IsRecent access_max_staleness site)
      ⊎ ((b ≡ false) × IsSynced site)
