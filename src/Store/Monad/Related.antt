-- ===== src/Store/Monad/Related.antt =====
-- One statement on two states of the tables.
use ghapp_demo.Base.{ℕ, ◌≡◌, refl, ap, ◌∙◌, Bool-cases, inl, inr}
use ghapp_demo.Base.Result.{Result, ok, err}
use ghapp_demo.Store.Monad.{
  World, Tx, idle, active, aborted, Violation, Body, settle, run_in, fails_now, now_of, statement,
  tick,
}
use ghapp_demo.Store.Tables.{Db}
use ghapp_demo.Text.{Text}

abbrev pub mapped : {A E : Type 0} → (A → A) → Result E A → Result E A
mapped f (ok a) = ok (f a)
mapped f (err e) = err e

abbrev pub changed : (Db → Db) → World → World
changed g w = record w { db = g w.db }

module _ {A : Type 0} (k : A → A) (g : Db → Db) where
  -- The result of a body and its tables, both changed.
  abbrev pub both : Result Violation (A × Db) → Result Violation (A × Db)
  both (ok (a, db)) = ok (k a, g db)
  both (err v) = err v

  settle-changed :
      (label : Text) (w v : World) (r : Result Violation (A × Db))
      → (settle label w (both r)).0 ≡ mapped k (settle label v r).0
  settle-changed label w v (ok (a, db)) = refl
  settle-changed label w v (err x) = refl

  module _ (label : Text) (body : Body A) (w : World)
      (related : (now : ℕ) → body (g w.db) now ≡ both (body w.db now)) where
    run-changed :
        (tx : Tx) → (run_in tx label body (changed g w)).0 ≡ mapped k (run_in tx label body w).0
    run-changed aborted = refl
    run-changed idle = elim (Bool-cases (fails_now w.events)) [
      | inl t ↦ rw t refl
      | inr t ↦ rw t (
          ap (λ r. (settle label (tick (changed g w)) r).0) (related (now_of idle w.now))
          ∙ settle-changed label _ _ _)
    ]
    run-changed (active t) = elim (Bool-cases (fails_now w.events)) [
      | inl t ↦ rw t refl
      | inr e ↦ rw e (
          ap (λ r. (settle label (tick (changed g w)) r).0) (related (now_of (active t) w.now))
          ∙ settle-changed label _ _ _)
    ]

    -- If a body does the same on both, then so does the statement.
    pub statement-changed :
        (statement label body (changed g w)).0 ≡ mapped k (statement label body w).0
    unfolding statement
    statement-changed = run-changed w.tx
