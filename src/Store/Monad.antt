-- ===== src/Store/Monad.antt =====
-- Statements and transactions against PostgreSQL, as state passing. A statement may fail for a
-- reason outside the program; which ones do, and how the clock moves, is a list of events in the
-- state. After a failed statement a transaction is aborted: PostgreSQL then refuses every further
-- statement of it, and a commit rolls back.
pub mod Invert
pub mod Related
pub mod Rollback
use ghapp_demo.Base.{ℕ, ◌+◌, Bool, true, false, List, [], ◌∷◌, Option, none, some, if◌then◌else◌}
use ghapp_demo.Base.Result.{Result, ok, err}
use ghapp_demo.Store.Tables.{Db}
use ghapp_demo.Text.{Text}

pub data Violation : Type 0 where
  -- SQLSTATE 23505
  unique : Violation
  foreign_key check : Violation
  -- a value that the type of its column does not take
  invalid_text out_of_range : Violation
  -- the statement itself, SQLSTATE 42P08 or 42P10
  malformed : Violation

pub data Failure : Type 0 where
  -- the connection, the server or the context
  lost : Failure
  violated : Violation → Failure
  -- SQLSTATE 25P02
  in_failed_transaction : Failure
  -- a statement that the server does not accept at all
  rejected : Failure

-- `failed` carries the words that the method wraps the cause in.
pub data StoreError : Type 0 where
  -- `ErrNotFound`
  not_found : StoreError
  failed : Text → Failure → StoreError

pub data Tx : Type 0 where
  idle aborted : Tx
  -- open since this instant, which is what NOW() gives
  active : ℕ → Tx

-- What happens at a statement: whether it fails, and the time until the next one.
pub record Event : Type 0 where
  pub fails : Bool
  pub elapsed : ℕ

pub record World : Type 0 where
  pub db : Db
  pub now : ℕ
  pub events : List Event
  pub tx : Tx

abbrev pub M {ℓ} : Type ℓ → Type ℓ
M A = World → Result StoreError A × World

abbrev pub sequel {ℓ κ} :
    {A : Type ℓ} {B : Type κ}
    → Result StoreError A × World
    → (A → M B)
    → Result StoreError B × World
sequel (ok a, w) f = f a w
sequel (err e, w) f = (err e, w)

infixl 5 ◌>>=◌ ◌>>◌
abbrev pub ◌>>=◌ {ℓ κ} : {A : Type ℓ} {B : Type κ} → M A → (A → M B) → M B
◌>>=◌ m f w = sequel (m w) f

abbrev pub ◌>>◌ {ℓ} : {B : Type ℓ} → M (Unit {0}) → M B → M B
m >> k = m >>= λ _. k

abbrev pub return {ℓ} : {A : Type ℓ} → A → M A
return a w = (ok a, w)

abbrev pub throw {ℓ} : {A : Type ℓ} → StoreError → M A
throw e w = (err e, w)

-- `pgx.ErrNoRows` becomes `ErrNotFound`.
abbrev pub or_not_found {ℓ} : {A : Type ℓ} → Option A → M A
or_not_found none = throw not_found
or_not_found (some a) = return a

abbrev pub fails_now : List Event → Bool
fails_now [] = false
fails_now (e ∷ es) = e.fails

abbrev rest : List Event → List Event
rest [] = []
rest (e ∷ es) = es

abbrev wait : List Event → ℕ
wait [] = 0
wait (e ∷ es) = e.elapsed

abbrev pub tick : World → World
tick w = record w { now = w.now + wait w.events; events = rest w.events }

abbrev pub abort : Tx → Tx
abort (active t) = aborted
abort idle = idle
abort aborted = aborted

abbrev pub now_of : Tx → ℕ → ℕ
now_of (active t) now = t
now_of idle now = now
now_of aborted now = now

-- What a statement does to the tables at an instant, or the constraint that it breaks.
abbrev pub Body {ℓ} : Type ℓ → Type ℓ
Body A = Db → ℕ → Result Violation (A × Db)

abbrev settle {ℓ} :
    {A : Type ℓ} → Text → World → Result Violation (A × Db) → Result StoreError A × World
settle label w (ok (a, db)) = (ok a, record w { db = db })
settle label w (err v) = (err (failed label (violated v)), record w { tx = abort w.tx })

abbrev run_in {ℓ} : {A : Type ℓ} → Tx → Text → Body A → M A
run_in aborted label body w = (err (failed label in_failed_transaction), w)
run_in tx label body w =
    if fails_now w.events
    then (err (failed label lost), record (tick w) { tx = abort tx })
    else settle label (tick w) (body w.db (now_of tx w.now))

-- One statement, by the pool or inside a transaction.
unfoldable pub statement {ℓ} : {A : Type ℓ} → Text → Body A → M A
statement label body w = run_in w.tx label body w

abbrev pub query {ℓ} : {A : Type ℓ} → Text → (Db → ℕ → A) → M A
query label q = statement label (λ db now. ok (q db now, db))

-- A statement that breaks no constraint.
abbrev pub exec : Text → (Db → ℕ → Db) → M (Unit {0})
exec label f = statement label (λ db now. ok (tt, f db now))

-- `tx.Commit`, behind a body that returned without an error.
abbrev commit {ℓ} : {A : Type ℓ} → Text → Db → A → Tx → World → Result StoreError A × World
commit label before a aborted w =
    (err (failed label in_failed_transaction), record w { db = before; tx = idle })
commit label before a tx w =
    if fails_now w.events
    then (err (failed label lost), record (tick w) { db = before; tx = idle })
    else (ok a, record (tick w) { tx = idle })

-- The deferred `tx.Rollback`, or the commit.
abbrev finish {ℓ} :
    {A : Type ℓ} → Text → Db → Result StoreError A × World → Result StoreError A × World
finish label before (err e, w) = (err e, record w { db = before; tx = idle })
finish label before (ok a, w) = commit label before a w.tx w

-- `s.pool.Begin`, the body, and its end.
unfoldable pub transaction {ℓ} : {A : Type ℓ} → Text → Text → M A → M A
transaction begin_label commit_label body w =
    if fails_now w.events
    then (err (failed begin_label lost), tick w)
    else finish commit_label w.db (body (record (tick w) { tx = active w.now }))
