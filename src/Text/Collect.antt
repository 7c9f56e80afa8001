-- ===== src/Text/Collect.antt =====
-- The loop that `parseCSVAllowlist` (server/internal/config/config.go) and `NewVerifier`
-- (server/internal/oidc/verifier.go) share: trim, drop blanks, drop what was seen.
use ghapp_demo.Base.{
  ◌≡◌, ◌↔◌, inl, inr, refl, sym, Bool, true, false, List, [], ◌∷◌, ◌++◌, arith, if◌then◌else◌, any,
  Bool-cases, In, All, All-append, ◌||◌, ◌&&◌, not,
}
use ghapp_demo.Text.{Text, equal, is_empty, trim_space}
use ghapp_demo.Text.Laws.{equal_iff, trim_space_idem}

-- One round on the items kept so far, which are also the keys of `seen`.
unfoldable pub add_item : List Text → Text → List Text
add_item out part =
    if is_empty (trim_space part)
    then out
    else if any (equal (trim_space part)) out
    then out
    else out ++ trim_space part ∷ []

unfoldable pub collect : List Text → List Text → List Text
unfolding add_item
collect out [] = out
collect out (part ∷ parts) = collect (add_item out part) parts

-- No item twice.
abbrev pub IsDistinct : List Text → Type 0
IsDistinct [] = Unit
IsDistinct (x ∷ xs) = (any (equal x) xs ≡ false) × IsDistinct xs

-- Not empty, and without white space at its ends.
abbrev pub IsItem : Text → Type 0
IsItem s = (is_empty s ≡ false) × (trim_space s ≡ s)

pub any-equal_iff : (x : Text) (xs : List Text) → (any (equal x) xs ≡ true) ↔ In x xs
any-equal_iff x [] = ground arith
any-equal_iff x (y ∷ xs) = elim (Bool-cases (equal x y)) [
  | inl same ↦ rw same (λ _. inl (sym ((equal_iff x y).0 same)), λ _. refl)
  | inr other ↦ rw other (
    λ h. inr ((any-equal_iff x xs).0 h),
    λ m. elim m [
      | inl e ↦ ground (arith, equal_iff x y)
      | inr later ↦ (any-equal_iff x xs).1 later
    ],
  )
]

any-append_one :
    (x y : Text) (xs : List Text) → any (equal x) (xs ++ y ∷ []) ≡ (any (equal x) xs || equal x y)
any-append_one x y [] = ground arith
any-append_one x y (z ∷ xs) = ground (arith, any-append_one x y xs)

IsDistinct-append_one :
    (y : Text) (xs : List Text)
    → IsDistinct xs
    → any (equal y) xs ≡ false
    → IsDistinct (xs ++ y ∷ [])
IsDistinct-append_one y [] d h = (refl, tt)
IsDistinct-append_one y (x ∷ xs) (a, d) h = (
  ground (arith, any-append_one x y xs, equal_iff x y, equal_iff y x),
  IsDistinct-append_one y xs d (ground arith),
)

abbrev IsGood : List Text → Type 0
IsGood xs = IsDistinct xs × All IsItem xs

add_item-IsGood : (out : List Text) (part : Text) → IsGood out → IsGood (add_item out part)
unfolding add_item
add_item-IsGood out part (d, a) = elim (Bool-cases (is_empty (trim_space part))) [
  | inl blank ↦ rw blank (d, a)
  | inr filled ↦ rw filled (elim (Bool-cases (any (equal (trim_space part)) out)) [
    | inl old ↦ rw old (d, a)
    | inr new ↦ rw new (
      IsDistinct-append_one (trim_space part) out d new,
      All-append IsItem out _ a ((filled, trim_space_idem part), tt),
    )
  ])
]

-- The items of a collection are distinct, and each is trimmed and not empty.
pub collect-IsGood :
    (parts out : List Text)
    → IsDistinct out × All IsItem out
    → IsDistinct (collect out parts) × All IsItem (collect out parts)
unfolding collect
collect-IsGood [] out h = h
collect-IsGood (part ∷ parts) out h =
    collect-IsGood parts (add_item out part) (add_item-IsGood out part h)

-- The part gives this item: its trimmed form, if that is not empty.
abbrev pub gives : Text → Text → Bool
gives x part = equal x (trim_space part) && not (is_empty (trim_space part))

add_item_has :
    (out : List Text) (part x : Text)
    → any (equal x) (add_item out part) ≡ (any (equal x) out || gives x part)
unfolding add_item
add_item_has out part x = elim (Bool-cases (is_empty (trim_space part))) [
  | inl blank ↦ rw blank (ground arith)
  | inr filled ↦ rw filled (elim (Bool-cases (any (equal (trim_space part)) out)) [
    | inl old ↦ rw old (elim (Bool-cases (equal x (trim_space part))) [
      | inl same ↦ rw ((equal_iff x (trim_space part)).0 same) (rw old)
      | inr other ↦ rw other (ground arith)
    ])
    | inr new ↦ rw new (rw (any-append_one x (trim_space part) out) (ground arith))
  ])
]

-- A collection holds what was there and what its parts give, and nothing else.
pub collect_has :
    (parts out : List Text) (x : Text)
    → any (equal x) (collect out parts) ≡ (any (equal x) out || any (gives x) parts)
unfolding collect
collect_has [] out x = ground arith
collect_has (part ∷ parts) out x =
    rw (collect_has parts (add_item out part) x) (rw (add_item_has out part x) (ground arith))
