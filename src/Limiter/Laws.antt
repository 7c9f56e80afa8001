-- ===== src/Limiter/Laws.antt =====
-- What the limiter promises: how many calls pass, and that keys do not disturb one another.
use ghapp_demo.Base.{
  ℕ, ◌+◌, ◌-◌, ◌*◌, ◌≤◌, ◌<◌, ◌≡◌, ◌↔◌, refl, true, false, List, [], ◌∷◌, Option, none, some, arith,
  All, if◌then◌else◌, Bool-cases, inl, inr, ◌⊎◌, leb,
}
use ghapp_demo.Base.Int.{ℤ, pos_part, is_positive}
use ghapp_demo.Limiter.{Counter, hit, allow_in, allow, window_or_minute}
use ghapp_demo.Text.{Text, equal, is_empty, trim_space}
use ghapp_demo.Text.Dict.{Dict, lookup, lookup-insert}
use ghapp_demo.Text.Laws.{equal_iff}

-- A call: its key and its instant.
abbrev pub Call : Type 0
Call = Text × ℕ

-- How many of the calls for key `k` pass, when all are made in order with one limit and window.
unfoldable pub passed : Text → ℤ → ℤ → List Call → Option (Dict Counter) → ℕ
passed k limit window [] l = 0
passed k limit window ((key, now) ∷ calls) l =
    let (ok, l') = allow l key limit window now in
    let rest = passed k limit window calls l' in
    (if equal (trim_space key) k then (if ok then 1 else 0) else 0) + rest

abbrev after : ℕ → ℕ → ℕ → Option Counter → Option Counter
after limit window now o = if (hit o limit window now).0 then some (hit o limit window now).1 else o

-- How many calls may still pass before `a` plus the window.
left : ℕ → ℕ → Option Counter → ℕ
left a limit none = limit
left a limit (some c) = if leb a c.window_start then limit - c.count else limit - c.count + limit

hit-left :
    (o : Option Counter) (a limit window now : ℕ)
    → 0 < limit
    → a ≤ now
    → now < a + window
    → (if (hit o limit window now).0 then 1 else 0) + left a limit (after limit window now o)
      ≤ left a limit o
unfolding hit left
hit-left none a limit window now h p q = ground arith
hit-left (some c) a limit window now h p q = ground arith

left-le : (a limit : ℕ) (o : Option Counter) → left a limit o ≤ 2 * limit
unfolding left
left-le a limit none = omega arith
left-le a limit (some c) = ground arith

module _ (hits : Dict Counter) (key k : Text) (limit window : ℤ) (now : ℕ) where
  -- A call for one key leaves the counter of every other key.
  pub lookup-allow_ne :
      equal (trim_space key) k ≡ false
      → lookup k (allow_in hits key limit window now).1 ≡ lookup k hits
  unfolding allow_in
  lookup-allow_ne h = ground (
    arith,
    lookup-insert (trim_space key) k
        (hit (lookup (trim_space key) hits) (pos_part limit) (window_or_minute window) now).1 hits,
  )

  module _ (same : equal (trim_space key) k ≡ true) (filled : is_empty k ≡ false)
      (positive : is_positive limit ≡ true) where
    allow_in-hit :
        ((allow_in hits key limit window now).0
          ≡ (hit (lookup k hits) (pos_part limit) (window_or_minute window) now).0)
        × (lookup k (allow_in hits key limit window now).1
            ≡ after (pos_part limit) (window_or_minute window) now (lookup k hits))
    unfolding allow_in hit
    allow_in-hit =
        rw ((equal_iff (trim_space key) k).0 same, allow_in)
          (ground (
            arith,
            lookup-insert k k (hit (lookup k hits) (pos_part limit) (window_or_minute window) now).1
                hits,
            equal_iff k k,
          ))

module _ (k : Text) (limit window : ℤ) (a : ℕ) (filled : is_empty k ≡ false)
    (positive : is_positive limit ≡ true) where
  abbrev pub InBurst : Call → Type 0
  InBurst c = (a ≤ c.1) × (c.1 < a + window_or_minute window)

  allow_in-left :
      (hits : Dict Counter) (key : Text) (now : ℕ)
      → equal (trim_space key) k ≡ true
      → InBurst (key, now)
      → (if (allow_in hits key limit window now).0 then 1 else 0)
          + left a (pos_part limit) (lookup k (allow_in hits key limit window now).1)
        ≤ left a (pos_part limit) (lookup k hits)
  allow_in-left hits key now same (p, q) =
      let (ok, counter) = allow_in-hit hits key k limit window now same filled positive in
      rw (ok, counter)
        (hit-left (lookup k hits) a (pos_part limit) (window_or_minute window) now (ground arith) p
          q)

  passed-left :
      (calls : List Call) (hits : Dict Counter)
      → All InBurst calls
      → passed k limit window calls (some hits) ≤ left a (pos_part limit) (lookup k hits)
  unfolding passed allow
  passed-left [] hits h = omega arith
  passed-left ((key, now) ∷ calls) hits (p, h) =
      let ih = passed-left calls (allow_in hits key limit window now).1 h in
      elim (Bool-cases (equal (trim_space key) k)) [
        | inl same ↦ rw same (omega (arith, ih, allow_in-left hits key now same p))
        | inr other ↦
            rw other (omega (arith, rw (lookup-allow_ne hits key k limit window now other) at ih))
      ]

  -- However the keys of the calls mix, and whatever the limiter has counted before: of the calls
  -- made in one span as long as the window, at most twice the limit pass for one key. The key is
  -- the trimmed one and is not empty, the limit is positive, and a window that is not positive
  -- stands for a minute.
  pub passed-le_twice :
      (calls : List Call) (hits : Dict Counter)
      → All InBurst calls
      → passed k limit window calls (some hits) ≤ 2 * pos_part limit
  passed-le_twice calls hits h =
      omega (arith, passed-left calls hits h, left-le a (pos_part limit) (lookup k hits))

  -- From a limiter that has not seen the key, at most the limit pass.
  passed-le_limit :
      (calls : List Call) (hits : Dict Counter)
      → lookup k hits ≡ none
      → All InBurst calls
      → passed k limit window calls (some hits) ≤ pos_part limit
  unfolding left
  passed-le_limit calls hits new h = rw new at (passed-left calls hits h)

-- The counter has reached the limit in a window that is not over.
abbrev pub IsSpent : ℕ → ℕ → ℕ → Option Counter → Type 0
IsSpent limit window now none = ⊥
IsSpent limit window now (some c) = (now < c.window_start + window) × (limit ≤ c.count)

hit_refused_iff :
    (o : Option Counter) (limit window now : ℕ)
    → ((hit o limit window now).0 ≡ false) ↔ IsSpent limit window now o
unfolding hit
hit_refused_iff none limit window now = ground arith
hit_refused_iff (some c) limit window now = ground arith

-- A limiter that is not nil refuses a call in two cases and in no other: the trimmed key is empty,
-- or the limit is positive and the key has its limit of calls in a window that is not over.
allow_refused_iff :
    (hits : Dict Counter) (key : Text) (limit window : ℤ) (now : ℕ)
    → ((allow (some hits) key limit window now).0 ≡ false) ↔ (
        (is_empty (trim_space key) ≡ true)
        ⊎ ((is_positive limit ≡ true)
            × IsSpent
                (pos_part limit)
                (window_or_minute window)
                now
                (lookup (trim_space key) hits)))
unfolding allow allow_in
allow_refused_iff hits key limit window now =
    let (to, from) =
      hit_refused_iff (lookup (trim_space key) hits) (pos_part limit) (window_or_minute window)
        now in
    elim (Bool-cases (is_empty (trim_space key))) [
      | inl blank ↦ rw blank (ground arith)
      | inr filled ↦ rw filled (elim (Bool-cases (is_positive limit)) [
        | inl positive ↦
            rw positive (λ e. inr (refl, to e), λ s. elim s [ inl e ↦ cc | inr (_, h) ↦ from h ])
        | inr free ↦ rw free (ground arith)
      ])
    ]
