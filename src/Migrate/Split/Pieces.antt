-- ===== src/Migrate/Split/Pieces.antt =====
-- SQL as a list of pieces, and what the splitting makes of each piece.
use ghapp_demo.Base.{ℕ, ◌≡◌, ◌≢◌, true, false, ◌&&◌, List, [], ◌∷◌, ◌++◌, All, ◌==◌, if◌then◌else◌}
use ghapp_demo.Migrate.Split.{next_is, is_tag_byte}
use ghapp_demo.Text.{Text, is_empty, trim_space, starts_with}

-- Pieces of SQL. The bytes of a quoted piece stand for themselves: a quote among them is written
-- twice. A block is a dollar-quoted body between two tags with this name.
pub data Piece : Type 0 where
  byte : ℕ → Piece
  quoted : Text → Piece
  ident : Text → Piece
  comment : Text → Piece
  block : Text → Text → Piece

-- The bytes of a quoted piece, each quote doubled.
abbrev pub doubled : ℕ → Text → Text
doubled q [] = []
doubled q (c ∷ s) = if c == q then c ∷ q ∷ doubled q s else c ∷ doubled q s

abbrev pub tag_of : Text → Text
tag_of name = b'$' ∷ (name ++ b'$' ∷ [])

-- How a piece is written, with `rest` behind it.
abbrev pub render : Piece → Text → Text
render (byte c) rest = c ∷ rest
render (quoted s) rest = b'\'' ∷ (doubled b'\'' s ++ (b'\'' ∷ rest))
render (ident s) rest = b'"' ∷ (doubled b'"' s ++ (b'"' ∷ rest))
render (comment s) rest = b'-' ∷ b'-' ∷ (s ++ (b'\n' ∷ rest))
render (block name s) rest = tag_of name ++ (s ++ (tag_of name ++ rest))

-- What stays of it in the statement: all but a comment's text.
abbrev pub kept : Piece → Text
kept (comment s) = b'\n' ∷ []
kept (quoted s) = b'\'' ∷ (doubled b'\'' s ++ (b'\'' ∷ []))
kept (ident s) = b'"' ∷ (doubled b'"' s ++ (b'"' ∷ []))
kept (byte c) = c ∷ []
kept (block name s) = tag_of name ++ (s ++ tag_of name)

-- The tag does not begin anywhere in the body, nor across its end.
abbrev pub Avoids : Text → Text → Text → Type 0
Avoids tag [] rest = Unit
Avoids tag (c ∷ s) rest = (starts_with (c ∷ (s ++ rest)) tag ≡ false) × Avoids tag s rest

-- What makes a piece readable in front of `rest`.
abbrev pub Fits : Piece → Text → Type 0
Fits (byte c) rest =
    (c ≢ b'\'') × (c ≢ b'"') × (c ≢ b'$') × (c ≢ b';') × ((c == b'-' && next_is b'-' rest) ≡ false)
Fits (quoted s) rest = next_is b'\'' rest ≡ false
Fits (ident s) rest = next_is b'"' rest ≡ false
Fits (comment s) rest = All (λ c. c ≢ b'\n') s
Fits (block name s) rest =
    All (λ c. is_tag_byte c ≡ true) name × Avoids (tag_of name) s (tag_of name ++ rest)

-- A list of pieces, with `rest` behind it.
abbrev pub render_all : List Piece → Text → Text
render_all [] rest = rest
render_all (x ∷ xs) rest = render x (render_all xs rest)

abbrev pub kept_all : List Piece → Text
kept_all [] = []
kept_all (x ∷ xs) = kept x ++ kept_all xs

abbrev pub FitAll : List Piece → Text → Type 0
FitAll [] rest = Unit
FitAll (x ∷ xs) rest = Fits x (render_all xs rest) × FitAll xs rest

-- A script: each statement with a semicolon behind it.
abbrev pub script : List (List Piece) → Text
script [] = []
script (s ∷ ss) = render_all s (b';' ∷ script ss)

abbrev pub FitScript : List (List Piece) → Type 0
FitScript [] = Unit
FitScript (s ∷ ss) = FitAll s (b';' ∷ script ss) × FitScript ss

-- The statements of a script: what its pieces keep, trimmed, without the empty ones.
abbrev pub statements : List (List Piece) → List Text
statements [] = []
statements (s ∷ ss) =
    if is_empty (trim_space (kept_all s))
    then statements ss
    else trim_space (kept_all s) ∷ statements ss
