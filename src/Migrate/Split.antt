-- ===== src/Migrate/Split.antt =====
-- server/internal/postgres/migrate.go: `splitStatements` and `parseDollarTag`. The four variables
-- `inLineComment`, `inSingleQuote`, `inDoubleQuote` and `dollarTag` exclude one another, and are one
-- mode here; what the loop adds to `i` beyond its `i++` is the number of bytes still to skip.
pub mod Clean
pub mod Pieces
pub mod RoundTrip
mod Tests
use ghapp_demo.Base.{
  ℕ, zero, suc, ◌-◌, Bool, true, false, ◌&&◌, ◌||◌, List, [], ◌∷◌, ◌++◌, Option, none, some, ◌==◌,
  within, if◌then◌else◌, length,
}
use ghapp_demo.Text.{Text, is_empty, starts_with, trim_space}

pub data Mode : Type 0 where
  plain line_comment single_quote double_quote : Mode
  dollar : Text → Mode

pub record Scan : Type 0 where
  pub mode : Mode
  pub skip : ℕ
  pub current : Text
  pub stmts : List Text

-- `ch == '_' || …`
unfoldable pub is_tag_byte : ℕ → Bool
is_tag_byte c = c == b'_' || within b'0' b'9' c || within b'a' b'z' c || within b'A' b'Z' c

-- The loop of `parseDollarTag`, from the byte behind the first `$`: the tag's remaining bytes.
unfoldable pub tag_rest : Text → Option Text
unfolding is_tag_byte
tag_rest [] = none
tag_rest (c ∷ s) =
    let rest = tag_rest s in
    if c == b'$'
    then some (b'$' ∷ [])
    else if is_tag_byte c
    then elim rest [ none ↦ none | some t ↦ some (c ∷ t) ]
    else none

-- `parseDollarTag(sql, i)` on `sql[i:]`
unfoldable pub parse_dollar_tag : Text → Option Text
unfolding tag_rest
parse_dollar_tag [] = none
parse_dollar_tag (c ∷ s) =
    if c == b'$' then elim (tag_rest s) [ none ↦ none | some t ↦ some (b'$' ∷ t) ] else none

-- `i+1 < len(sql) && sql[i+1] == c`
abbrev pub next_is : ℕ → Text → Bool
next_is c [] = false
next_is c (d ∷ s) = d == c

abbrev pub write : Scan → Text → Scan
write p t = record p { current = p.current ++ t }

abbrev pub enter : Scan → Mode → Scan
enter p m = record p { mode = m }

-- `current.WriteByte(ch)` and the two cases of a closing quote.
unfoldable pub in_quote : ℕ → Scan → ℕ → Text → Scan
in_quote quote p c s =
    if c == quote
    then if next_is quote s
      then record (write p (c ∷ quote ∷ [])) { skip = 1 }
      else enter (write p (c ∷ [])) plain
    else write p (c ∷ [])

-- `strings.TrimSpace` and the append, which end a statement.
unfoldable pub end_stmt : Scan → Scan
end_stmt p =
    let stmt = trim_space p.current in
    record p { current = []; stmts = if is_empty stmt then p.stmts else p.stmts ++ stmt ∷ [] }

unfoldable pub open_dollar : Scan → ℕ → Option Text → Scan
open_dollar p c (some tag) = record p {
  mode = dollar tag;
  current = p.current ++ tag;
  skip = length tag - 1;
}
open_dollar p c none = write p (c ∷ [])

unfoldable pub in_plain : Scan → ℕ → Text → Scan
unfolding open_dollar parse_dollar_tag
in_plain p c s =
    if c == b'-' && next_is b'-' s
    then record p { mode = line_comment; skip = 1 }
    else if c == b'\''
    then enter (write p (c ∷ [])) single_quote
    else if c == b'"'
    then enter (write p (c ∷ [])) double_quote
    else if c == b'$'
    then open_dollar p c (parse_dollar_tag (c ∷ s))
    else if c == b';'
    then end_stmt p
    else write p (c ∷ [])

-- One round of the loop, on the byte `c` with `s` behind it.
unfoldable pub step_in : Mode → Scan → ℕ → Text → Scan
unfolding in_quote in_plain
step_in plain p c s = in_plain p c s
step_in line_comment p c s = if c == b'\n' then enter (write p (c ∷ [])) plain else p
step_in single_quote p c s = in_quote b'\'' p c s
step_in double_quote p c s = in_quote b'"' p c s
step_in (dollar tag) p c s =
    if starts_with (c ∷ s) tag
    then record p { mode = plain; current = p.current ++ tag; skip = length tag - 1 }
    else write p (c ∷ [])

unfoldable pub step : ℕ → Scan → ℕ → Text → Scan
unfolding step_in
step zero p c s = step_in p.mode p c s
step (suc k) p c s = record p { skip = k }

unfoldable pub scan : Scan → Text → Scan
unfolding step
scan p [] = p
scan p (c ∷ s) = scan (step p.skip p c s) s

abbrev pub initial : Scan
initial = record { mode = plain; skip = 0; current = []; stmts = [] }

unfoldable pub split_statements : Text → List Text
unfolding scan end_stmt
split_statements sql = (end_stmt (scan initial sql)).stmts
