-- ===== src/Handlers/Request.antt =====
-- server/web/handler/server.go: what the handlers read of a request's texts.
use ghapp_demo.Base.{
  ℕ, ◌^◌, Bool, true, false, ◌&&◌, ◌||◌, List, [], ◌∷◌, Option, none, some, ◌==◌, ltb, within,
  if◌then◌else◌, length,
}
use ghapp_demo.Base.Int.{ℤ, pos, is_positive}
use ghapp_demo.Text.{Text, codes, equal, is_empty, trim_space, to_lower, cut}
use ghapp_demo.Text.Number.{parse_digits}

abbrev filled : Text → Option Text
filled t = if is_empty t then none else some t

-- The parts of `strings.SplitN(header, " ", 2)`. Comparing lower-case text is `EqualFold` with
-- "Bearer", whose letters have no other folding.
abbrev bearer_parts : Text × Option Text → Option Text
bearer_parts (scheme, none) = none
bearer_parts (scheme, some rest) =
    if equal (to_lower scheme) (codes "bearer") then filled (trim_space rest) else none

unfoldable pub bearer_token : Text → Option Text
bearer_token header =
    if is_empty (trim_space header) then none else bearer_parts (cut b' ' (trim_space header))

-- `[a-f0-9]`
abbrev pub is_hex_byte : ℕ → Bool
is_hex_byte c = within b'a' b'f' c || within b'0' b'9' c

abbrev pub all_hex : Text → Bool
all_hex [] = true
all_hex (c ∷ s) = is_hex_byte c && all_hex s

unfoldable pub normalize_sha256_hex : Text → Option Text
normalize_sha256_hex v =
    let normalized = to_lower (trim_space v) in
    if length normalized == 64 && all_hex normalized then some normalized else none

-- The text behind a prefix.
abbrev behind : Text → Text → Option Text
behind [] s = some s
behind (c ∷ p) [] = none
behind (c ∷ p) (d ∷ s) = let rest = behind p s in if c == d then rest else none

abbrev number_of : Option ℕ → Option ℤ
number_of none = none
number_of (some n) = if ltb 0 n && ltb n (2 ^ 63) then some (pos n) else none

abbrev pull_number : Text × Option Text → Option ℤ
pull_number (digits, none) = none
pull_number (digits, some kind) =
    if equal kind (codes "merge") || equal kind (codes "head")
    then number_of (parse_digits digits)
    else none

abbrev pull_rest : Option Text → Option ℤ
pull_rest none = none
pull_rest (some rest) = pull_number (cut b'/' rest)

-- `pullRefPattern` takes the digits up to the next slash.
unfoldable pub parse_pr_number : Text → Option ℤ
parse_pr_number ref = pull_rest (behind (codes "refs/pull/") (trim_space ref))

abbrev owner_part : Text → Text × Option Text → Text
owner_part name (owner, none) = name
owner_part name (owner, some rest) = owner

-- The first result of `splitRepoFullName`.
unfoldable pub repo_owner_from_full_name : Text → Text
repo_owner_from_full_name name = owner_part name (cut b'/' (trim_space name))

unfoldable pub nullable_int64_pointer : ℤ → Option ℤ
nullable_int64_pointer v = if is_positive v then some v else none

-- `parseOptionalRFC3339`, with `time.Parse` for this layout as `parse`; the outer `none` is its
-- error.
unfoldable pub parse_optional_rfc3339 : (Text → Option ℕ) → Text → Option (Option ℕ)
parse_optional_rfc3339 parse v =
    if is_empty (trim_space v)
    then some none
    else elim (parse (trim_space v)) [ none ↦ none | some t ↦ some (some t) ]

-- The first text that is not blank, trimmed; else the last resort.
abbrev pub first_filled : List Text → Text → Text
first_filled [] last = last
first_filled (t ∷ ts) last = if is_empty (trim_space t) then first_filled ts last else trim_space t

-- The part of `runSummaryPayload` that is validated.
pub record SummaryHead : Type 0 where
  pub schema_version : Text
  pub has_lineage_tree : Bool

abbrev pub is_v2 : SummaryHead → Bool
is_v2 h = equal (to_lower (trim_space h.schema_version)) (codes "v2") && h.has_lineage_tree

-- `validateRunSummaryPayload`, on what the decoder makes of the payload.
unfoldable pub validate_run_summary_payload : Option SummaryHead → Bool
validate_run_summary_payload none = false
validate_run_summary_payload (some h) = is_v2 h
