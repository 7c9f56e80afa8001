-- ===== src/Store/Query.antt =====
-- What the SQL statements do to a list of rows.
pub mod Laws
use ghapp_demo.Base.{
  ℕ, suc, Bool, true, false, not, List, [], ◌∷◌, ◌++◌, Option, none, some, if◌then◌else◌, leb, any,
  length, select, take, first,
}

module _ {ℓ} {A : Type ℓ} where
  -- UPDATE … SET … WHERE
  abbrev pub update : (A → Bool) → (A → A) → List A → List A
  update p f [] = []
  update p f (x ∷ xs) = (if p x then f x else x) ∷ update p f xs

  -- DELETE … WHERE
  abbrev pub delete : (A → Bool) → List A → List A
  delete p xs = select (λ x. not (p x)) xs

  -- INSERT … ON CONFLICT … DO UPDATE: `p` tells the rows with the new row's key.
  abbrev pub upsert : (A → Bool) → (A → A) → A → List A → List A
  upsert p merge new [] = new ∷ []
  upsert p merge new (x ∷ xs) = if p x then merge x ∷ xs else x ∷ upsert p merge new xs

  insert_newest : (A → ℕ) → A → List A → List A
  insert_newest key x [] = x ∷ []
  insert_newest key x (y ∷ ys) =
      if leb (key y) (key x) then x ∷ y ∷ ys else y ∷ insert_newest key x ys

  -- ORDER BY key DESC
  unfoldable pub newest_first : (A → ℕ) → List A → List A
  unfolding insert_newest
  newest_first key [] = []
  newest_first key (x ∷ xs) = insert_newest key x (newest_first key xs)

  -- LIMIT, where a limit that is not positive was replaced by 100
  abbrev pub limited : ℕ → List A → List A
  limited n xs = take n xs

module _ {ℓ κ} {A : Type ℓ} {B : Type κ} where
  -- JOIN on a key of the other table, or a projection that may have no row
  abbrev pub filter_map : (A → Option B) → List A → List B
  filter_map f [] = []
  filter_map f (x ∷ xs) = elim (f x) [ none ↦ filter_map f xs | some y ↦ y ∷ filter_map f xs ]

abbrev pub is_null {ℓ} : {A : Type ℓ} → Option A → Bool
is_null none = true
is_null (some a) = false
