-- ===== src/Text/Url.antt =====
-- Go's `url.QueryEscape`, `url.PathEscape` and `url.Values.Encode`, on the UTF-8 bytes of text.
use ghapp_demo.Base.{
  ℕ, ◌+◌, ◌-◌, ◌/◌, ◌%◌, Bool, ◌||◌, List, [], ◌∷◌, ◌++◌, ◌==◌, ltb, within, if◌then◌else◌,
}
use ghapp_demo.Text.{Text}

-- The continuation bytes of a code point, the last one included.
abbrev tail_byte : ℕ → ℕ
tail_byte c = 0x80 + c % 0x40

unfoldable pub utf8 : ℕ → List ℕ
utf8 c =
    if ltb c 0x80
    then c ∷ []
    else if ltb c 0x800
    then (0xc0 + c / 0x40) ∷ tail_byte c ∷ []
    else if ltb c 0x10000
    then (0xe0 + c / 0x1000) ∷ tail_byte (c / 0x40) ∷ tail_byte c ∷ []
    else (0xf0 + c / 0x40000) ∷ tail_byte (c / 0x1000) ∷ tail_byte (c / 0x40) ∷ tail_byte c ∷ []

abbrev hex_digit : ℕ → ℕ
hex_digit d = if ltb d 10 then b'0' + d else b'A' + (d - 10)

abbrev percent : ℕ → Text → Text
percent byte rest = b'%' ∷ hex_digit (byte / 16) ∷ hex_digit (byte % 16) ∷ rest

-- Letters, digits and `-_.~`
abbrev is_unreserved : ℕ → Bool
is_unreserved c =
    within b'a' b'z' c
    || within b'A' b'Z' c
    || within b'0' b'9' c
    || c == b'-'
    || c == b'_'
    || c == b'.'
    || c == b'~'

abbrev query_byte : ℕ → Text → Text
query_byte c rest =
    if is_unreserved c then c ∷ rest else if c == b' ' then b'+' ∷ rest else percent c rest

-- A path segment keeps `$&+=:@` too.
abbrev path_byte : ℕ → Text → Text
path_byte c rest =
    if is_unreserved c || c == b'$' || c == b'&' || c == b'+' || c == b'=' || c == b':' || c == b'@'
    then c ∷ rest
    else percent c rest

unfoldable escape_bytes : (ℕ → Text → Text) → List ℕ → Text → Text
escape_bytes byte [] rest = rest
escape_bytes byte (c ∷ cs) rest = byte c (escape_bytes byte cs rest)

unfoldable pub escape : (ℕ → Text → Text) → Text → Text
unfolding escape_bytes utf8
escape byte [] = []
escape byte (c ∷ s) = escape_bytes byte (utf8 c) (escape byte s)

unfoldable pub query_escape : Text → Text
unfolding escape
query_escape s = escape query_byte s

unfoldable pub path_escape : Text → Text
unfolding escape
path_escape s = escape path_byte s

abbrev pair : Text × Text → Text
pair (key, value) = query_escape key ++ (b'=' ∷ query_escape value)

-- `v.Encode()`, for one value per key and the keys in sorted order.
unfoldable pub encode_values : List (Text × Text) → Text
encode_values [] = []
encode_values (kv ∷ []) = pair kv
encode_values (kv ∷ next ∷ rest) = pair kv ++ (b'&' ∷ encode_values (next ∷ rest))
