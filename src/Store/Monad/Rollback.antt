-- ===== src/Store/Monad/Rollback.antt =====
-- Transactions are all or nothing, and a failed statement poisons the rest of its transaction.
use ghapp_demo.Base.{ℕ, ◌≡◌, refl, arith, Bool-cases, inl, inr}
use ghapp_demo.Base.Result.{Result, ok, err}
use ghapp_demo.Store.Monad.{
  M, Violation, lost, violated, World, StoreError, failed, in_failed_transaction, Body, statement,
  transaction, aborted, active, finish, fails_now, tick,
}
use ghapp_demo.Store.Tables.{Db}
use ghapp_demo.Text.{Text}

finish_err-db :
    {A : Type 0} (label : Text) (w : World) (r : Result StoreError A × World) (e : StoreError)
    → (finish label w.db r).0 ≡ err e
    → (finish label w.db r).1.db ≡ w.db
finish_err-db label w (err x, v) e h = refl
finish_err-db label w (ok a, v) e h = ground arith

finish_err :
    {A : Type 0} (label : Text) (before : Db) (r : Result StoreError A × World) (e : StoreError)
    → r.0 ≡ err e
    → (finish label before r).0 ≡ err e
finish_err label before (err x, v) e h = h
finish_err label before (ok a, v) e h = ground arith

-- A transaction that ends in an error leaves the tables as they were.
pub transaction_err-db :
    {A : Type 0} (begin commit : Text) (body : M A) (w : World) (e : StoreError)
    → (transaction begin commit body w).0 ≡ err e
    → (transaction begin commit body w).1.db ≡ w.db
unfolding transaction
transaction_err-db begin commit body w e h =
    ground (arith, finish_err-db commit w (body (record (tick w) { tx = active w.now })) e)

pub statement_aborted :
    {A : Type 0} (label : Text) (body : Body A) (w : World)
    → w.tx ≡ aborted
    → statement label body w ≡ (err (failed label in_failed_transaction), w)
unfolding statement
statement_aborted label body w h = ground arith

-- A transaction whose body fails, or that does not begin, fails.
pub transaction-err :
    {A : Type 0} (begin commit : Text) (body : M A) (w : World) (e : StoreError)
    → (body (record (tick w) { tx = active w.now })).0 ≡ err e
    → (x : StoreError) × ((transaction begin commit body w).0 ≡ err x)
unfolding transaction
transaction-err begin commit body w e h = elim (Bool-cases (fails_now w.events)) [
  | inl t ↦ rw t (_, refl)
  | inr t ↦ rw t (e, finish_err commit w.db _ e h)
]

-- A statement that breaks a constraint aborts the transaction.
pub statement_violated :
    {A : Type 0} (label : Text) (body : Body A) (w : World) (t : ℕ) (v : Violation)
    → w.tx ≡ active t
    → body w.db t ≡ err v
    → (e : StoreError) × ((statement label body w).0 ≡ err e)
      × ((statement label body w).1.tx ≡ aborted)
unfolding statement
statement_violated label body w t v h broken = elim (Bool-cases (fails_now w.events)) [
  | inl stop ↦ (failed label lost, rw (h, stop) refl, rw (h, stop) refl)
  | inr runs ↦ (failed label (violated v), rw (h, runs, broken) refl, rw (h, runs, broken) refl)
]

-- A statement that fails leaves the tables as they were.
pub statement_err-db :
    {A : Type 0} (label : Text) (body : Body A) (w : World) (e : StoreError)
    → (statement label body w).0 ≡ err e
    → (statement label body w).1.db ≡ w.db
unfolding statement
statement_err-db label body w e h = ground arith
