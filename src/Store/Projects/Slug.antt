-- ===== src/Store/Projects/Slug.antt =====
-- The form of a slug.
use ghapp_demo.Base.{
  ℕ, ◌≡◌, ◌≢◌, ◌⊎◌, inl, inr, refl, Bool, true, false, [], ◌∷◌, arith, All, Bool-cases, ◌==◌,
}
use ghapp_demo.Store.Projects.{is_slug_byte, sanitize, slugify}
use ghapp_demo.Text.{Text, trim_byte, trim_left, trim_right, keep_front, trim_space, to_lower}

-- `[a-z0-9]` or a dash
abbrev pub IsSlugByte : ℕ → Type 0
IsSlugByte c = (is_slug_byte c ≡ true) ⊎ (c ≡ b'-')

-- No dash follows a dash.
abbrev pub IsSpaced : Text → Type 0
IsSpaced [] = Unit
IsSpaced (c ∷ []) = Unit
IsSpaced (c ∷ d ∷ s) = ((c ≢ b'-') ⊎ (d ≢ b'-')) × IsSpaced (d ∷ s)

-- No dash is first.
abbrev pub IsOpen : Text → Type 0
IsOpen [] = Unit
IsOpen (c ∷ s) = c ≢ b'-'

-- No dash is last.
abbrev pub IsShut : Text → Type 0
IsShut [] = Unit
IsShut (c ∷ []) = c ≢ b'-'
IsShut (c ∷ d ∷ s) = IsShut (d ∷ s)

sanitize-bytes : (inside : Bool) (s : Text) → All IsSlugByte (sanitize inside s)
unfolding sanitize
sanitize-bytes inside [] = tt
sanitize-bytes inside (c ∷ s) = elim (Bool-cases (is_slug_byte c)) [
  | inl t ↦ rw (t, sanitize) (inl t, sanitize-bytes false s)
  | inr t ↦ elim (Bool-cases inside) [
    | inl u ↦ rw (t, u, sanitize) (sanitize-bytes true s)
    | inr u ↦ rw (t, u, sanitize) (inr refl, sanitize-bytes true s)
  ]
]

slug_byte_ne_dash : (c : ℕ) → is_slug_byte c ≡ true → c ≢ b'-'
unfolding is_slug_byte
slug_byte_ne_dash c h e = ground (arith, h, e)

-- After a replaced code point no dash follows.
sanitize-IsOpen : (s : Text) → IsOpen (sanitize true s)
unfolding sanitize
sanitize-IsOpen [] = tt
sanitize-IsOpen (c ∷ s) = elim (Bool-cases (is_slug_byte c)) [
  | inl t ↦ rw (t, sanitize) (slug_byte_ne_dash c t)
  | inr t ↦ rw (t, sanitize) (sanitize-IsOpen s)
]

IsSpaced-cons : (c : ℕ) (s : Text) → (c ≢ b'-') ⊎ IsOpen s → IsSpaced s → IsSpaced (c ∷ s)
IsSpaced-cons c [] h k = tt
IsSpaced-cons c (d ∷ s) h k = (h, k)

sanitize-IsSpaced : (inside : Bool) (s : Text) → IsSpaced (sanitize inside s)
unfolding sanitize
sanitize-IsSpaced inside [] = tt
sanitize-IsSpaced inside (c ∷ s) = elim (Bool-cases (is_slug_byte c)) [
  | inl t ↦
      rw (t, sanitize)
        (IsSpaced-cons c (sanitize false s) (inl (slug_byte_ne_dash c t))
          (sanitize-IsSpaced false s))
  | inr t ↦ elim (Bool-cases inside) [
    | inl u ↦ rw (t, u, sanitize) (sanitize-IsSpaced true s)
    | inr u ↦
        rw (t, u, sanitize)
          (IsSpaced-cons b'-' (sanitize true s) (inr (sanitize-IsOpen s))
            (sanitize-IsSpaced true s))
  ]
]

-- Trimming the left keeps what holds of every tail, and opens the text.
IsSpaced-tail : (c : ℕ) (s : Text) → IsSpaced (c ∷ s) → IsSpaced s
IsSpaced-tail c [] k = tt
IsSpaced-tail c (d ∷ s) k = k.1

trim_left-good :
    (s : Text)
    → All IsSlugByte s
    → IsSpaced s
    → All IsSlugByte (trim_left (◌==◌ b'-') s)
      × IsSpaced (trim_left (◌==◌ b'-') s)
      × IsOpen (trim_left (◌==◌ b'-') s)
unfolding trim_left
trim_left-good [] h k = (tt, tt, tt)
trim_left-good (c ∷ s) (h, hs) k = elim (Bool-cases (b'-' == c)) [
  | inl t ↦ rw (t, trim_left) (trim_left-good s hs (IsSpaced-tail c s k))
  | inr t ↦ rw (t, trim_left) ((h, hs), k, λ e. ground (arith, t, e))
]

before_tail : (c : ℕ) (s : Text) → IsSpaced (c ∷ s) → (c ≢ b'-') ⊎ IsOpen s
before_tail c [] k = inr tt
before_tail c (d ∷ s) k = k.0

keep_front-IsOpen : (c : ℕ) (t : Text) → c ≢ b'-' → IsOpen (keep_front (◌==◌ b'-') c t)
keep_front-IsOpen c [] h = elim (Bool-cases (b'-' == c)) [ inl t ↦ rw t tt | inr t ↦ rw t h ]
keep_front-IsOpen c (d ∷ t) h = h

trim_right-IsOpen : (s : Text) → IsOpen s → IsOpen (trim_right (◌==◌ b'-') s)
unfolding trim_right
trim_right-IsOpen [] h = tt
trim_right-IsOpen (c ∷ s) h = keep_front-IsOpen c (trim_right (◌==◌ b'-') s) h

abbrev IsTrimmed : Text → Type 0
IsTrimmed s = All IsSlugByte s × IsSpaced s × IsShut s

keep_front-IsTrimmed :
    (c : ℕ) (t : Text)
    → IsSlugByte c
    → IsTrimmed t
    → (c ≢ b'-') ⊎ IsOpen t
    → IsTrimmed (keep_front (◌==◌ b'-') c t)
keep_front-IsTrimmed c [] h k n = elim (Bool-cases (b'-' == c)) [
  | inl t ↦ rw t (tt, tt, tt)
  | inr t ↦ rw t ((h, tt), tt, λ e. ground (arith, t, e))
]
keep_front-IsTrimmed c (d ∷ t) h (hs, spaced, shut) n = ((h, hs), (n, spaced), shut)

trim_right-IsTrimmed :
    (s : Text) → All IsSlugByte s → IsSpaced s → IsTrimmed (trim_right (◌==◌ b'-') s)
unfolding trim_right
trim_right-IsTrimmed [] h k = (tt, tt, tt)
trim_right-IsTrimmed (c ∷ s) (h, hs) k =
    keep_front-IsTrimmed c (trim_right (◌==◌ b'-') s) h
      (trim_right-IsTrimmed s hs (IsSpaced-tail c s k))
      (elim (before_tail c s k) [ inl n ↦ inl n | inr opened ↦ inr (trim_right-IsOpen s opened) ])

-- A slug consists of lower-case letters, digits and dashes; no dash stands at either end, and no
-- two dashes stand side by side.
slugify-IsSlug :
    (input : Text)
    → All IsSlugByte (slugify input)
      × IsSpaced (slugify input)
      × IsOpen (slugify input)
      × IsShut (slugify input)
unfolding slugify trim_byte
slugify-IsSlug input =
    let text = to_lower (trim_space input) in
    let (bytes, spaced, opened) =
      trim_left-good (sanitize false text) (sanitize-bytes false text)
        (sanitize-IsSpaced false text) in
    let s = trim_left (◌==◌ b'-') (sanitize false text) in
    let (bytes', spaced', shut) = trim_right-IsTrimmed s bytes spaced in
    (bytes', spaced', trim_right-IsOpen s opened, shut)
