-- ===== src/Text/Number.antt =====
-- Go's `strconv.ParseInt(s, 10, 64)` and `strconv.FormatInt(n, 10)`.
pub mod RoundTrip
use ghapp_demo.Base.{
  ℕ, zero, suc, ◌+◌, ◌-◌, ◌*◌, ◌/◌, ◌%◌, ◌^◌, Bool, true, false, List, [], ◌∷◌, Option, none, some,
  ◌==◌, ltb, leb, within, if◌then◌else◌,
}
use ghapp_demo.Base.Int.{ℤ, pos, negsuc}
use ghapp_demo.Text.{Text}

-- The value of decimal digits behind digits of value `acc`.
unfoldable pub digits : ℕ → Text → Option ℕ
digits acc [] = some acc
digits acc (c ∷ s) =
    let rest = digits (acc * 10 + (c - b'0')) s in if within b'0' b'9' c then rest else none

-- At least one digit.
unfoldable pub parse_digits : Text → Option ℕ
unfolding digits
parse_digits [] = none
parse_digits (c ∷ s) = digits 0 (c ∷ s)

abbrev positive : Option ℕ → Option ℤ
positive none = none
positive (some n) = if ltb n (2 ^ 63) then some (pos n) else none

abbrev negative : Option ℕ → Option ℤ
negative none = none
negative (some zero) = some (pos 0)
negative (some (suc n)) = if ltb n (2 ^ 63) then some (negsuc n) else none

-- `none` is the error of `ParseInt`, out of range included.
unfoldable pub parse_int : Text → Option ℤ
unfolding parse_digits
parse_int [] = none
parse_int (c ∷ s) =
    if c == b'-'
    then negative (parse_digits s)
    else if c == b'+'
    then positive (parse_digits s)
    else positive (parse_digits (c ∷ s))

-- The digits of `n` in front of `acc`, with fuel above the number of digits.
unfoldable pub print_from : ℕ → ℕ → Text → Text
print_from zero n acc = acc
print_from (suc f) n acc =
    let d = b'0' + n % 10 in
    let rest = print_from f (n / 10) (d ∷ acc) in if ltb n 10 then d ∷ acc else rest

unfoldable pub print_nat : ℕ → Text
unfolding print_from
print_nat n = print_from (suc n) n []

unfoldable pub print_int : ℤ → Text
unfolding print_nat
print_int (pos n) = print_nat n
print_int (negsuc n) = b'-' ∷ print_nat (suc n)
