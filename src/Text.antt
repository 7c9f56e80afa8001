-- ===== src/Text.antt =====
-- Go's `strings` functions that the server calls, over the code points of valid UTF-8 text.
-- Where the source walks bytes it tests for ASCII only, and ASCII bytes are their own code points.
pub mod Collect
pub mod Dict
pub mod Laws
pub mod Number
pub mod Path
pub mod Url
use Prim.Native.Char.{code}
use Prim.Native.String.{String}
use ghapp_demo.Base.{
  ℕ, ◌+◌, Bool, true, false, ◌&&◌, ◌||◌, List, [], ◌∷◌, ◌++◌, Option, none, some, ◌==◌, within,
  if◌then◌else◌, map,
}

abbrev pub Text : Type 0
Text = List ℕ

-- A literal of the source.
abbrev pub codes : String → Text
codes String.[] = []
codes (String.◌∷◌ c s) = code c ∷ codes s

-- `==` on strings
unfoldable pub equal : Text → Text → Bool
equal [] [] = true
equal (x ∷ xs) (y ∷ ys) = x == y && equal xs ys
equal _ _ = false

-- `s == ""`
abbrev pub is_empty : Text → Bool
is_empty [] = true
is_empty (c ∷ s) = false

-- `unicode.IsSpace`
unfoldable pub is_space : ℕ → Bool
is_space c =
    within 9 13 c
    || c == 32
    || c == 0x85
    || c == 0xa0
    || c == 0x1680
    || within 0x2000 0x200a c
    || within 0x2028 0x2029 c
    || c == 0x202f
    || c == 0x205f
    || c == 0x3000

unfoldable pub trim_left : (ℕ → Bool) → Text → Text
trim_left p [] = []
trim_left p (c ∷ s) = elim (p c) [ true ↦ trim_left p s | false ↦ c ∷ s ]

-- What a code point becomes in front of text that is already trimmed at its right end.
abbrev pub keep_front : (ℕ → Bool) → ℕ → Text → Text
keep_front p c [] = if p c then [] else c ∷ []
keep_front p c (d ∷ s) = c ∷ d ∷ s

unfoldable pub trim_right : (ℕ → Bool) → Text → Text
trim_right p [] = []
trim_right p (c ∷ s) = keep_front p c (trim_right p s)

-- `strings.TrimSpace`
unfoldable pub trim_space : Text → Text
unfolding trim_left trim_right is_space
trim_space s = trim_right is_space (trim_left is_space s)

-- `strings.Trim(s, "c")` and `strings.TrimRight(s, "c")` for a cutset of one ASCII byte
unfoldable pub trim_byte : ℕ → Text → Text
unfolding trim_left trim_right
trim_byte b s = trim_right (◌==◌ b) (trim_left (◌==◌ b) s)

unfoldable pub trim_right_byte : ℕ → Text → Text
unfolding trim_right
trim_right_byte b s = trim_right (◌==◌ b) s

-- `unicode.ToLower`. U+0130 and U+212A are the only code points outside ASCII whose lower case is
-- in ASCII. The others are kept: the callers compare the result with ASCII text only.
unfoldable pub lower : ℕ → ℕ
lower c =
    if within b'A' b'Z' c
    then c + 32
    else if c == 0x130
    then b'i'
    else if c == 0x212a
    then b'k'
    else c

-- `strings.ToLower`
unfoldable pub to_lower : Text → Text
unfolding lower
to_lower s = map lower s

unfoldable pub starts_with : Text → Text → Bool
starts_with s [] = true
starts_with [] (c ∷ p) = false
starts_with (d ∷ s) (c ∷ p) = c == d && starts_with s p

-- The part before the first separator, and the part behind it if there is one.
unfoldable pub cut : ℕ → Text → Text × Option Text
cut sep [] = ([], none)
cut sep (c ∷ s) =
    let (head, tail) = cut sep s in if c == sep then ([], some s) else (c ∷ head, tail)

-- `strings.Split(s, sep)` for a separator of one byte: the fields, the first of them apart.
unfoldable pub split_fields : ℕ → Text → Text × List Text
split_fields sep [] = ([], [])
split_fields sep (c ∷ s) =
    let (head, tail) = split_fields sep s in
    if c == sep then ([], head ∷ tail) else (c ∷ head, tail)

unfoldable pub split : ℕ → Text → List Text
unfolding split_fields
split sep s = let (head, tail) = split_fields sep s in head ∷ tail
