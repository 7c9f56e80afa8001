-- ===== src/Store/Monad/Invert.antt =====
-- What a successful statement, sequence or transaction tells of its parts.
use ghapp_demo.Base.{ℕ, ◌≢◌, ◌⊎◌, inl, inr, ◌≡◌, refl, sym, ap, ◌∙◌, arith, Option, none, some}
use ghapp_demo.Base.Result.{Result, ok, err}
use ghapp_demo.Store.Monad.{
  or_not_found, not_found, M, World, StoreError, ◌>>=◌, Body, statement, transaction, idle, active,
  finish, tick, now_of, query, exec, sequel,
}
use ghapp_demo.Store.Tables.{Db}
use ghapp_demo.Text.{Text}

sequel-ok :
    {A B : Type 0} (r : Result StoreError A × World) (f : A → M B) (b : B)
    → (sequel r f).0 ≡ ok b
    → (a : A) × (r.0 ≡ ok a) × (sequel r f ≡ f a r.1)
sequel-ok (ok a, w) f b h = (a, refl, refl)
sequel-ok (err e, w) f b h = cc

pub bind-ok :
    {A B : Type 0} (m : M A) (f : A → M B) (w : World) (b : B)
    → ((m >>= f) w).0 ≡ ok b
    → (a : A) × ((m w).0 ≡ ok a) × ((m >>= f) w ≡ f a (m w).1)
bind-ok m f w b h = sequel-ok (m w) f b h

pub statement-ok :
    {A : Type 0} (label : Text) (body : Body A) (w : World) (a : A)
    → (statement label body w).0 ≡ ok a
    → body w.db (now_of w.tx w.now) ≡ ok (a, (statement label body w).1.db)
unfolding statement
statement-ok label body w a h = ground arith

pub query-ok :
    {A : Type 0} (label : Text) (q : Db → ℕ → A) (w : World) (a : A)
    → (query label q w).0 ≡ ok a
    → (a ≡ q w.db (now_of w.tx w.now)) × ((query label q w).1.db ≡ w.db)
query-ok label q w a h = ground (arith, statement-ok label (λ db now. ok (q db now, db)) w a h)

pub exec-ok :
    (label : Text) (f : Db → ℕ → Db) (w : World)
    → (exec label f w).0 ≡ ok tt
    → (exec label f w).1.db ≡ f w.db (now_of w.tx w.now)
exec-ok label f w h = ground (arith, statement-ok label (λ db now. ok (tt, f db now)) w tt h)

pub statement-idle :
    {A : Type 0} (label : Text) (body : Body A) (w : World)
    → w.tx ≡ idle
    → (statement label body w).1.tx ≡ idle
unfolding statement
statement-idle label body w h = ground arith

finish-ok :
    {A : Type 0} (label : Text) (before : Db) (r : Result StoreError A × World) (a : A)
    → (finish label before r).0 ≡ ok a
    → (r.0 ≡ ok a) × ((finish label before r).1.db ≡ r.1.db)
finish-ok label before (ok b, v) a h = ground arith
finish-ok label before (err e, v) a h = ground arith

pub transaction-ok :
    {A : Type 0} (begin commit : Text) (body : M A) (w : World) (a : A)
    → (transaction begin commit body w).0 ≡ ok a
    → ((body (record (tick w) { tx = active w.now })).0 ≡ ok a)
      × ((transaction begin commit body w).1.db
          ≡ (body (record (tick w) { tx = active w.now })).1.db)
unfolding transaction
transaction-ok begin commit body w a h =
    ground (arith, finish-ok commit w.db (body (record (tick w) { tx = active w.now })) a)

pub or_not_found-ok :
    {A : Type 0} (found : Option A) (w : World) (a : A)
    → (or_not_found found w).0 ≡ ok a
    → found ≡ some a
or_not_found-ok none w a h = ground arith
or_not_found-ok (some x) w a h = ground arith

-- A query for one row that answers: the row was there.
pub query_row-ok :
    {A : Type 0} (m : M (Option A)) (w : World) (a : A)
    → ((m >>= or_not_found) w).0 ≡ ok a
    → (m w).0 ≡ ok (some a)
query_row-ok m w a h =
    let (found, got, rest) = bind-ok m or_not_found w a h in
    got ∙ ap ok (or_not_found-ok found (m w).1 a (sym (ap (λ r. r.0) rest) ∙ h))

or_not_found-err :
    {A : Type 0} (r : Result StoreError (Option A) × World)
    → (sequel r or_not_found).0 ≡ err not_found
    → (r.0 ≡ ok none) ⊎ (r.0 ≡ err not_found)
or_not_found-err (ok none, v) h = inl refl
or_not_found-err (ok (some a), v) h = ground arith
or_not_found-err (err e, v) h = ground arith

statement_ne_not_found :
    {A : Type 0} (label : Text) (body : Body A) (w : World)
    → (statement label body w).0 ≢ err not_found
unfolding statement
statement_ne_not_found label body w h = ground arith

-- `ErrNotFound` is the answer only where the statement found no row.
pub query_row_not_found :
    {A : Type 0} (label : Text) (body : Body (Option A)) (w : World)
    → ((statement label body >>= or_not_found) w).0 ≡ err not_found
    → (statement label body w).0 ≡ ok none
query_row_not_found label body w h = elim (or_not_found-err (statement label body w) h) [
  | inl e ↦ e
  | inr e ↦ elim (statement_ne_not_found label body w e) [ ]
]
