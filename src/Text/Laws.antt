-- ===== src/Text/Laws.antt =====
-- Equality and trimming of text.
use ghapp_demo.Base.{ℕ, ◌≡◌, refl, ◌↔◌, Bool, true, false, [], ◌∷◌, arith, Bool-cases, inl, inr}
use ghapp_demo.Text.{Text, equal, is_space, trim_left, keep_front, trim_right, trim_space}

pub equal_iff : (a b : Text) → (equal a b ≡ true) ↔ (a ≡ b)
unfolding equal
equal_iff (x ∷ a) (y ∷ b) = ground (arith, equal_iff a b)
equal_iff _ _ = ground arith

pub equal_self : (a : Text) → equal a a ≡ true
equal_self a = (equal_iff a a).1 refl

-- Text that starts with no code point that passes the test.
abbrev pub IsBare : (ℕ → Bool) → Text → Type 0
IsBare p [] = Unit
IsBare p (c ∷ s) = p c ≡ false

trim_left-IsBare : (p : ℕ → Bool) (s : Text) → IsBare p (trim_left p s)
unfolding trim_left
trim_left-IsBare p [] = tt
trim_left-IsBare p (c ∷ s) = elim (Bool-cases (p c)) [
  | inl h ↦ rw (h, trim_left) (trim_left-IsBare p s)
  | inr h ↦ rw (h, trim_left) h
]

trim_left_of_IsBare : (p : ℕ → Bool) (s : Text) → IsBare p s → trim_left p s ≡ s
unfolding trim_left
trim_left_of_IsBare p [] h = refl
trim_left_of_IsBare p (c ∷ s) h = rw (h, trim_left)

keep_front-IsBare : (p : ℕ → Bool) (c : ℕ) (s : Text) → p c ≡ false → IsBare p (keep_front p c s)
keep_front-IsBare p c [] h = rw h h
keep_front-IsBare p c (d ∷ s) h = h

trim_right-IsBare : (p : ℕ → Bool) (s : Text) → IsBare p s → IsBare p (trim_right p s)
unfolding trim_right
trim_right-IsBare p [] h = tt
trim_right-IsBare p (c ∷ s) h = keep_front-IsBare p c (trim_right p s) h

keep_front_idem :
    (p : ℕ → Bool) (c : ℕ) (s : Text)
    → trim_right p s ≡ s
    → trim_right p (keep_front p c s) ≡ keep_front p c s
unfolding trim_right
keep_front_idem p c [] h = ground arith
keep_front_idem p c (d ∷ s) h = rw h

pub trim_right_idem : (p : ℕ → Bool) (s : Text) → trim_right p (trim_right p s) ≡ trim_right p s
unfolding trim_right
trim_right_idem p [] = refl
trim_right_idem p (c ∷ s) = keep_front_idem p c (trim_right p s) (trim_right_idem p s)

-- Trimming trimmed text changes nothing.
pub trim_space_idem : (s : Text) → trim_space (trim_space s) ≡ trim_space s
unfolding trim_space
trim_space_idem s =
    rw (trim_left_of_IsBare is_space _ (trim_right-IsBare is_space _ (trim_left-IsBare is_space s)))
      (trim_right_idem is_space (trim_left is_space s))
