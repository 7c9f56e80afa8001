-- ===== src/Store/Prepared.antt =====
-- What PostgreSQL checks of a statement when it is prepared, before it reads a table.
use ghapp_demo.Base.{ℕ, Bool, true, false, not, ◌&&◌, ◌||◌, List, [], ◌∷◌, any}
use ghapp_demo.Base.Result.{err}
use ghapp_demo.Store.Monad.{M, Body, malformed, statement}
use ghapp_demo.Text.{Text, equal}

-- `undetermined` are the parameters that have an occurrence at which the statement gives no type, and
-- no type was given before it.
pub record Shape : Type 0 where
  pub distinct : Bool
  pub selected : List Text
  pub ordered : List Text
  pub undetermined : List ℕ

abbrev pub plain : Shape
plain = record { distinct = false; selected = []; ordered = []; undetermined = [] }

abbrev is_empty_list : List ℕ → Bool
is_empty_list [] = true
is_empty_list (x ∷ xs) = false

-- "for SELECT DISTINCT, ORDER BY expressions must appear in select list" (SQLSTATE 42P10), and
-- "could not determine data type of parameter" (SQLSTATE 42P08).
unfoldable pub is_accepted : Shape → Bool
is_accepted s =
    (not s.distinct || not (any (λ o. not (any (equal o) s.selected)) s.ordered))
    && is_empty_list s.undetermined

abbrev checked {ℓ} : {A : Type ℓ} → Bool → Body A → Body A
checked true body db now = body db now
checked false body db now = err malformed

unfoldable pub prepared {ℓ} : {A : Type ℓ} → Text → Shape → Body A → M A
prepared label s body = statement label (checked (is_accepted s) body)
