-- ===== src/Text/Path.antt =====
-- Go's `strings.Fields`, `strings.LastIndex` and `filepath.Base` (with `/` as the separator).
use ghapp_demo.Base.{ℕ, ◌≡◌, refl, false, List, [], ◌∷◌, Option, none, some, ◌==◌, if◌then◌else◌}
use ghapp_demo.Text.{Text, is_empty, is_space, trim_right_byte}

-- The field that the text starts with, if it does not start with a space, and the fields behind it.
abbrev add_byte : ℕ → Text × List Text → Text × List Text
add_byte c (word, words) = (c ∷ word, words)

abbrev close_word : Text × List Text → Text × List Text
close_word ([], words) = ([], words)
close_word (c ∷ word, words) = ([], (c ∷ word) ∷ words)

abbrev word_list : Text × List Text → List Text
word_list ([], words) = words
word_list (c ∷ word, words) = (c ∷ word) ∷ words

unfoldable pub words_from : Text → Text × List Text
words_from [] = ([], [])
words_from (c ∷ s) =
    let rest = words_from s in if is_space c then close_word rest else add_byte c rest

-- `strings.Fields(s)`
unfoldable pub fields : Text → List Text
unfolding words_from
fields s = word_list (words_from s)

abbrev before_or : ℕ → ℕ → Option Text → Option Text
before_or sep c (some t) = some (c ∷ t)
before_or sep c none = if c == sep then some [] else none

-- The text before the last separator, `s[:strings.LastIndex(s, sep)]`, if there is one.
unfoldable pub before_last : ℕ → Text → Option Text
before_last sep [] = none
before_last sep (c ∷ s) = before_or sep c (before_last sep s)

abbrev behind_or : ℕ → ℕ → Text → Option Text → Option Text
behind_or sep c s (some t) = some t
behind_or sep c s none = if c == sep then some s else none

-- The text behind the last separator, if there is one.
unfoldable pub behind_last : ℕ → Text → Option Text
behind_last sep [] = none
behind_last sep (c ∷ s) = behind_or sep c s (behind_last sep s)

abbrev pub or_all : Text → Option Text → Text
or_all s none = s
or_all s (some t) = t

abbrev or_slash : Text → Text
or_slash [] = b'/' ∷ []
or_slash (c ∷ s) = c ∷ s

-- `filepath.Base(path)`
unfoldable pub base : Text → Text
unfolding trim_right_byte behind_last
base [] = b'.' ∷ []
base (c ∷ s) =
    let path = trim_right_byte b'/' (c ∷ s) in or_slash (or_all path (behind_last b'/' path))

or_slash-is_empty : (s : Text) → is_empty (or_slash s) ≡ false
or_slash-is_empty [] = refl
or_slash-is_empty (c ∷ s) = refl

-- The base of a path is not empty.
pub base-is_empty : (s : Text) → is_empty (base s) ≡ false
unfolding base
base-is_empty [] = refl
base-is_empty (c ∷ s) = or_slash-is_empty _
