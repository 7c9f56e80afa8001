-- ===== src/Oidc/Claims.antt =====
-- server/internal/oidc/verifier.go: the readers of a token's claims, and the audience check. A
-- claim is one of the Go values that the readers tell apart.
pub mod Audience
use ghapp_demo.Base.{Bool, true, false, List, [], ◌∷◌, ◌++◌, Option, none, some, if◌then◌else◌, any}
use ghapp_demo.Base.Int.{ℤ}
use ghapp_demo.Text.{Text, codes, equal, is_empty, trim_space}
use ghapp_demo.Text.Dict.{Dict, lookup}
use ghapp_demo.Text.Number.{parse_int}

pub data Claim : Type 0 where
  -- `nil`
  null : Claim
  str : Text → Claim
  -- `float64` and `float32`, by what the conversion to `int64` gives
  float : ℤ → Claim
  -- `int64` and `int`
  int : ℤ → Claim
  -- `json.Number`
  number : Text → Claim
  -- `[]any`, where `none` is an item that is no string
  arr : List (Option Text) → Claim
  -- `[]string`
  strs : List Text → Claim
  -- any other value
  other : Claim

abbrev pub Claims : Type 0
Claims = Dict Claim

abbrev pub text_of : Option Claim → Text
text_of (some (str s)) = trim_space s
text_of _ = []

unfoldable pub claim_string : Claims → Text → Text
claim_string claims key = text_of (lookup key claims)

-- `none` is the result `0, false`.
abbrev int_of : Option Claim → Option ℤ
int_of (some (float n)) = some n
int_of (some (int n)) = some n
int_of (some (number s)) = parse_int s
int_of (some (str s)) = parse_int (trim_space s)
int_of _ = none

unfoldable pub claim_int64 : Claims → Text → Option ℤ
claim_int64 claims key = int_of (lookup key claims)

-- `push`
abbrev push : List Text → Text → List Text
push out raw = if is_empty (trim_space raw) then out else out ++ trim_space raw ∷ []

unfoldable pub push_items : List Text → List (Option Text) → List Text
push_items out [] = out
push_items out (some s ∷ items) = push_items (push out s) items
push_items out (none ∷ items) = push_items out items

unfoldable pub push_strs : List Text → List Text → List Text
push_strs out [] = out
push_strs out (s ∷ items) = push_strs (push out s) items

abbrev audiences_of : Option Claim → List Text
audiences_of (some (str s)) = push [] s
audiences_of (some (arr items)) = push_items [] items
audiences_of (some (strs items)) = push_strs [] items
audiences_of _ = []

unfoldable pub token_audiences : Claims → List Text
unfolding push_items push_strs
token_audiences claims = audiences_of (lookup (codes "aud") claims)

-- A list without elements; `len(xs) == 0`.
abbrev pub is_nil : List Text → Bool
is_nil [] = true
is_nil (x ∷ xs) = false

-- `isAudienceAllowed`, on the verifier's audiences; the map `allowed` has them as its keys.
unfoldable pub is_audience_allowed : List Text → Claims → Bool
is_audience_allowed audiences claims =
    if is_nil audiences
    then true
    else if is_nil (token_audiences claims)
    then false
    else any (λ a. any (equal a) audiences) (token_audiences claims)
