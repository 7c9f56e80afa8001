-- ===== src/Text/Number/RoundTrip.antt =====
-- Numbers written and read back.
use ghapp_demo.Base.{
  ℕ, zero, suc, ◌+◌, ◌*◌, ◌/◌, ◌%◌, ◌^◌, ◌<◌, ◌≡◌, refl, ap, ◌∙◌, true, [], ◌∷◌, some, ltb, within,
  arith, Bool-cases, inl, inr,
}
use ghapp_demo.Base.Int.{pos}
use ghapp_demo.Text.{Text}
use ghapp_demo.Text.Number.{digits, parse_int, print_from, print_nat}

digits-digit :
    (acc d : ℕ) (s : Text) → d < 10 → digits acc ((b'0' + d) ∷ s) ≡ digits (acc * 10 + d) s
unfolding digits
digits-digit acc d s h = ground arith

-- What is printed is read back, with any digits behind it.
digits-print_from : (f n : ℕ) (acc : Text) → n < f → digits 0 (print_from f n acc) ≡ digits n acc
unfolding print_from
digits-print_from zero n acc h = absurd (omega arith)
digits-print_from (suc f) n acc h = elim (Bool-cases (ltb n 10)) [
  | inl one ↦
      rw one (digits-digit 0 (n % 10) acc (omega arith) ∙ ap (λ k. digits k acc) (ground arith))
  | inr more ↦ rw more (
      digits-print_from f (n / 10) ((b'0' + n % 10) ∷ acc) (ground arith)
      ∙ digits-digit (n / 10) (n % 10) acc (omega arith)
      ∙ ap (λ k. digits k acc) (omega arith))
]

abbrev StartsDigit : Text → Type 0
StartsDigit [] = ⊥
StartsDigit (c ∷ s) = within b'0' b'9' c ≡ true

print_from-StartsDigit : (f n : ℕ) (acc : Text) → n < f → StartsDigit (print_from f n acc)
unfolding print_from
print_from-StartsDigit zero n acc h = absurd (omega arith)
print_from-StartsDigit (suc f) n acc h = elim (Bool-cases (ltb n 10)) [
  | inl one ↦ rw one (ground arith)
  | inr more ↦ rw more (print_from-StartsDigit f (n / 10) ((b'0' + n % 10) ∷ acc) (ground arith))
]

parse_int-StartsDigit :
    (s : Text) (n : ℕ)
    → StartsDigit s
    → digits 0 s ≡ some n
    → n < 2 ^ 63
    → parse_int s ≡ some (pos n)
unfolding parse_int
parse_int-StartsDigit [] n h e b = absurd h
parse_int-StartsDigit (c ∷ s) n h e b = ground arith

pub digits-print_nat : (n : ℕ) → digits 0 (print_nat n) ≡ some n
unfolding print_nat digits
digits-print_nat n = digits-print_from (suc n) n [] (omega arith)

-- An int64 that is not negative is read back from its decimal form.
pub parse_int-print_nat : (n : ℕ) → n < 2 ^ 63 → parse_int (print_nat n) ≡ some (pos n)
unfolding print_nat
parse_int-print_nat n b =
    parse_int-StartsDigit (print_from (suc n) n []) n
      (print_from-StartsDigit (suc n) n [] (omega arith))
      (digits-print_from (suc n) n [] (omega arith) ∙ unfold digits in refl) b
