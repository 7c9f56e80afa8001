-- ===== src/Oidc/Keys/Exponent.antt =====
-- The exponent of a key, and where it wraps round.
use ghapp_demo.Base.{ℕ, ◌+◌, ◌*◌, ◌^◌, ◌%◌, ◌≡◌, refl, ◌∙◌, ap, List, [], ◌∷◌, arith}
use ghapp_demo.Oidc.Keys.{exponent_of}

-- The number that big-endian bytes stand for, behind bytes that stand for `e`.
abbrev pub big_endian : ℕ → List ℕ → ℕ
big_endian e [] = e
big_endian e (b ∷ bs) = big_endian (e * 256 + b) bs

-- The exponent is the number that the bytes stand for, modulo 2^64.
pub exponent_of-mod : (bs : List ℕ) (e : ℕ) → exponent_of (e % 2 ^ 64) bs ≡ big_endian e bs % 2 ^ 64
unfolding exponent_of
exponent_of-mod [] e = refl
exponent_of-mod (b ∷ bs) e =
    ap (λ k. exponent_of k bs) (omega arith) ∙ exponent_of-mod bs (e * 256 + b)
