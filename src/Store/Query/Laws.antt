-- ===== src/Store/Query/Laws.antt =====
-- Which rows a selection, a deletion, an update or an upsert leaves in a table.
use ghapp_demo.Base.{
  ℕ, ◌+◌, ◌≡◌, refl, sym, ap, ◌↔◌, ◌⊎◌, Bool, true, false, List, [], ◌∷◌, Option, none, some,
  if◌then◌else◌, arith, any, first, length, select, map, take, ◌≤◌, suc, zero, In, Bool-cases, inl,
  inr,
}
use ghapp_demo.Store.Query.{delete, update, upsert, filter_map, newest_first, insert_newest}

module _ {A : Type 0} where
  pub In-select :
      (p : A → Bool) (a : A) (xs : List A) → In a (select p xs) ↔ (In a xs × (p a ≡ true))
  In-select p a [] = ground arith
  In-select p a (x ∷ xs) = elim (Bool-cases (p x)) [
    | inl h ↦ rw h (ground (arith, In-select p a xs, ap p))
    | inr h ↦ rw h (ground (arith, In-select p a xs, ap p))
  ]

  pub length-delete :
      (p : A → Bool) (xs : List A) → length (select p xs) + length (delete p xs) ≡ length xs
  length-delete p [] = refl
  length-delete p (x ∷ xs) = ground (arith, length-delete p xs)

  -- A row that an update does not meet stays.
  pub In-update :
      (p : A → Bool) (f : A → A) (a : A) (xs : List A)
      → In a xs
      → p a ≡ false
      → In a (update p f xs)
  In-update p f a [] i h = elim i [ ]
  In-update p f a (x ∷ xs) (inl e) h = inl (rw (e, h))
  In-update p f a (x ∷ xs) (inr i) h = inr (In-update p f a xs i h)

  -- A row after an update is one that it did not meet, or the image of one that it met.
  pub update-In :
      (p : A → Bool) (f : A → A) (a : A) (xs : List A)
      → In a (update p f xs)
      → (In a xs × (p a ≡ false)) ⊎ ((x : A) × In x xs × (p x ≡ true) × (f x ≡ a))
  update-In p f a (x ∷ xs) (inl e) = elim (Bool-cases (p x)) [
    | inl t ↦ inr (x, inl refl, t, ground (arith, e))
    | inr t ↦ inl (ground (arith, e, ap p))
  ]
  update-In p f a (x ∷ xs) (inr i) = elim (update-In p f a xs i) [
    | inl (j, t) ↦ inl (inr j, t)
    | inr (y, j, t, e) ↦ inr (y, inr j, t, e)
  ]
  update-In p f a [] i = elim i [ ]

  -- An upsert leaves the rows of other keys.
  pub In-upsert :
      (p : A → Bool) (merge : A → A) (new a : A) (xs : List A)
      → In a xs
      → p a ≡ false
      → In a (upsert p merge new xs)
  In-upsert p merge new a [] i h = elim i [ ]
  In-upsert p merge new a (x ∷ xs) (inl e) h = elim (Bool-cases (p x)) [
    | inl t ↦ ground (arith, ap p e)
    | inr t ↦ rw t (inl e)
  ]
  In-upsert p merge new a (x ∷ xs) (inr i) h = elim (Bool-cases (p x)) [
    | inl t ↦ rw t (inr i)
    | inr t ↦ rw t (inr (In-upsert p merge new a xs i h))
  ]

  -- What a lookup by the key finds after an upsert.
  abbrev pub merged : (A → A) → A → Option A → A
  merged merge new none = new
  merged merge new (some x) = merge x

  pub first-upsert :
      (p : A → Bool) (merge : A → A) (new : A) (xs : List A)
      → p new ≡ true
      → ((x : A) → p x ≡ true → p (merge x) ≡ true)
      → first p (upsert p merge new xs) ≡ some (merged merge new (first p xs))
  first-upsert p merge new [] h k = rw h refl
  first-upsert p merge new (x ∷ xs) h k = elim (Bool-cases (p x)) [
    | inl t ↦ rw t (rw (k x t) refl)
    | inr t ↦ rw t (rw t (first-upsert p merge new xs h k))
  ]

  -- A lookup by a test that tells rows of another key is not touched by an upsert.
  pub first-upsert_ne :
      (p q : A → Bool) (merge : A → A) (new : A) (xs : List A)
      → ((x : A) → p x ≡ true → q x ≡ false)
      → ((x : A) → p x ≡ true → q (merge x) ≡ false)
      → q new ≡ false
      → first q (upsert p merge new xs) ≡ first q xs
  first-upsert_ne p q merge new [] h k n = rw n refl
  first-upsert_ne p q merge new (x ∷ xs) h k n = elim (Bool-cases (p x)) [
    | inl t ↦ rw t (rw (k x t) (rw (h x t) refl))
    | inr t ↦
        rw t (ap (λ rest. if q x then some x else rest) (first-upsert_ne p q merge new xs h k n))
  ]

  -- A table has at most one row of each key: the rows that pass the test.
  pub length-upsert :
      (p : A → Bool) (merge : A → A) (new : A) (xs : List A)
      → length (upsert p merge new xs) ≡ (if any p xs then length xs else length xs + 1)
  length-upsert p merge new [] = refl
  length-upsert p merge new (x ∷ xs) = ground (arith, length-upsert p merge new xs)

  pub any-In : (p : A → Bool) (xs : List A) → any p xs ≡ true → (x : A) × In x xs × (p x ≡ true)
  any-In p [] h = ground arith
  any-In p (x ∷ xs) h = elim (Bool-cases (p x)) [
    | inl t ↦ (x, inl refl, t)
    | inr t ↦ let (y, i, u) = any-In p xs (ground (arith, h, t)) in (y, inr i, u)
  ]

  pub In-any : (p : A → Bool) (x : A) (xs : List A) → In x xs → p x ≡ true → any p xs ≡ true
  In-any p x (y ∷ xs) (inl e) h = rw (e, h) refl
  In-any p x (y ∷ xs) (inr i) h = ground (arith, In-any p x xs i h)
  In-any p x [] i h = elim i [ ]

  pub first-In : (p : A → Bool) (xs : List A) (x : A) → first p xs ≡ some x → In x xs × (p x ≡ true)
  first-In p [] x h = ground arith
  first-In p (y ∷ xs) x h = elim (Bool-cases (p y)) [
    | inl t ↦ ground (arith, h, t, ap p)
    | inr t ↦ let (i, u) = first-In p xs x (ground (arith, h, t)) in (inr i, u)
  ]

  pub take-In : (n : ℕ) (a : A) (xs : List A) → In a (take n xs) → In a xs
  take-In (suc n) a (x ∷ xs) (inl e) = inl e
  take-In (suc n) a (x ∷ xs) (inr i) = inr (take-In n a xs i)
  take-In zero a xs i = elim i [ ]
  take-In (suc n) a [] i = elim i [ ]

  pub length-take : (n : ℕ) (xs : List A) → length (take n xs) ≤ n
  length-take zero xs = omega arith
  length-take (suc n) [] = omega arith
  length-take (suc n) (x ∷ xs) = omega (arith, length-take n xs)

  insert_newest-In :
      (key : A → ℕ) (a x : A) (xs : List A) → In a (insert_newest key x xs) → In a (x ∷ xs)
  unfolding insert_newest
  insert_newest-In key a x [] i = i
  insert_newest-In key a x (y ∷ ys) i = ground (arith, insert_newest-In key a x ys, i)

  pub newest_first-In : (key : A → ℕ) (a : A) (xs : List A) → In a (newest_first key xs) → In a xs
  unfolding newest_first
  newest_first-In key a [] i = i
  newest_first-In key a (x ∷ xs) i =
      ground (arith, newest_first-In key a xs, insert_newest-In key a x (newest_first key xs) i)

module _ {A B : Type 0} (f : A → Option B) where
  In-projected :
      (b : B) (r : Option B) (rest : List B)
      → In b (elim r [ none ↦ rest | some y ↦ y ∷ rest ])
      → (r ≡ some b) ⊎ In b rest
  In-projected b none rest i = inr i
  In-projected b (some y) rest (inl e) = inl (ap some e)
  In-projected b (some y) rest (inr i) = inr i

  pub filter_map-In :
      (b : B) (xs : List A) → In b (filter_map f xs) → (x : A) × In x xs × (f x ≡ some b)
  filter_map-In b [] i = elim i [ ]
  filter_map-In b (x ∷ xs) i = elim (In-projected b (f x) (filter_map f xs) i) [
    | inl e ↦ (x, inl refl, e)
    | inr j ↦ let (y, k, e) = filter_map-In b xs j in (y, inr k, e)
  ]

module _ {A B : Type 0} (f : A → B) where
  pub map-In : (b : B) (xs : List A) → In b (map f xs) → (x : A) × In x xs × (b ≡ f x)
  map-In b (x ∷ xs) (inl e) = (x, inl refl, sym e)
  map-In b (x ∷ xs) (inr i) = let (y, j, e) = map-In b xs i in (y, inr j, e)
  map-In b [] i = elim i [ ]
