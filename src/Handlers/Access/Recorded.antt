-- ===== src/Handlers/Access/Recorded.antt =====
-- server/web/handler/server.go: the record of the last synchronisation of a user.
use ghapp_demo.Base.{
  ℕ, ◌+◌, ◌≤◌, ◌≡◌, refl, sym, ◌∙◌, true, Option, none, some, arith, leb→le, ◌==◌, first,
}
use ghapp_demo.Base.Result.{Result, ok, err}
use ghapp_demo.Handlers.Access.{found_or_zero, synced_of, is_within}
use ghapp_demo.Handlers.Site.{reworded}
use ghapp_demo.Store.Bindings.{get_user_access_sync}
use ghapp_demo.Store.Monad
use ghapp_demo.Store.Monad.{World, StoreError, not_found, failed, query, or_not_found, statement}
use ghapp_demo.Store.Monad.Invert.{query_row-ok, query-ok}
use ghapp_demo.Store.Tables.{Db, SyncRow}
use ghapp_demo.Text.{Text, codes}

abbrev pub sync_row : ℕ → Db → Option SyncRow
sync_row user db = first (λ s. s.user_id == user) db.syncs

found-db :
    (r : Result StoreError (Option SyncRow) × World) → (Monad.sequel r or_not_found).1.db ≡ r.1.db
found-db (ok none, w) = refl
found-db (ok (some s), w) = refl
found-db (err e, w) = refl

query-db : {A : Type 0} (label : Text) (q : Db → ℕ → A) (w : World) → (query label q w).1.db ≡ w.db
unfolding statement
query-db label q w = ground arith

pub get_sync-db : (user : ℕ) (w : World) → (get_user_access_sync user w).1.db ≡ w.db
unfolding get_user_access_sync
get_sync-db user w =
    let q = λ (db : Db) (now : ℕ). sync_row user db in
    found-db (query (codes "get user access sync") q w)
    ∙ query-db (codes "get user access sync") q w

pub get_sync-row :
    (user : ℕ) (w : World) (row : SyncRow)
    → (get_user_access_sync user w).0 ≡ ok row
    → sync_row user w.db ≡ some row
unfolding get_user_access_sync
get_sync-row user w row h =
    let q = λ (db : Db) (now : ℕ). sync_row user db in
    let got = query_row-ok (query (codes "get user access sync") q) w row h in
    sym (query-ok (codes "get user access sync") q w (some row) got).0

pub found_or_zero-world : (r : Result StoreError SyncRow × World) → (found_or_zero r).1 ≡ r.1
found_or_zero-world (ok s, w) = refl
found_or_zero-world (err not_found, w) = refl
found_or_zero-world (err (failed label cause), w) = refl

pub found_or_zero-some :
    (r : Result StoreError SyncRow × World) (row : SyncRow)
    → (found_or_zero r).0 ≡ ok (some row)
    → r.0 ≡ ok row
found_or_zero-some (ok s, w) row h = ground arith
found_or_zero-some (err not_found, w) row h = ground arith
found_or_zero-some (err (failed label cause), w) row h = ground arith

pub reworded-ok :
    {A : Type 0} (words : StoreError → Text) (r : Result StoreError A) (a : A)
    → reworded words r ≡ ok a
    → r ≡ ok a
reworded-ok words (ok b) a h = ground arith
reworded-ok words (err e) a h = ground arith

pub is_within-le :
    (t : Option ℕ) (age now : ℕ)
    → is_within t age now ≡ true
    → (u : ℕ) × (t ≡ some u) × (now ≤ u + age)
is_within-le none age now h = ground arith
is_within-le (some u) age now h = (u, refl, leb→le now (u + age) h)

pub synced_of-some :
    (s : Option SyncRow) (t : ℕ)
    → synced_of s ≡ some t
    → (row : SyncRow) × (s ≡ some row) × (row.synced_at ≡ some t)
synced_of-some none t h = ground arith
synced_of-some (some row) t h = (row, refl, h)
