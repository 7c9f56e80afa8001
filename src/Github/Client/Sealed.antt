-- ===== src/Github/Client/Sealed.antt =====
-- server/internal/githubapp/client.go: tokens through `EncryptToken` and `DecryptToken`.
use ghapp_demo.Base.{
  ℕ, ◌≡◌, refl, sym, ap, subst, ◌∙◌, List, [], ◌∷◌, ◌++◌, some, arith, ltb, length, take, drop,
  false,
}
use ghapp_demo.Base.Result.{ok}
use ghapp_demo.Github.Client.{Aead, opened, encrypt_token, decrypt_token}

take-length_append : (xs ys : List ℕ) → take (length xs) (xs ++ ys) ≡ xs
take-length_append [] ys = refl
take-length_append (x ∷ xs) ys = ap (◌∷◌ x) (take-length_append xs ys)

drop-length_append : (xs ys : List ℕ) → drop (length xs) (xs ++ ys) ≡ ys
drop-length_append [] ys = refl
drop-length_append (x ∷ xs) ys = drop-length_append xs ys

length_append-ltb : (xs ys : List ℕ) → ltb (length (xs ++ ys)) (length xs) ≡ false
length_append-ltb [] ys = ground arith
length_append-ltb (x ∷ xs) ys = ground (arith, length_append-ltb xs ys)

opens_own :
    (a : Aead) (nonce sealed : List ℕ)
    → length nonce ≡ a.nonce_size
    → decrypt_token a (nonce ++ sealed) ≡ opened (a.unseal nonce sealed)
unfolding decrypt_token
opens_own a nonce sealed size =
    rw
      (
        sym size,
        length_append-ltb nonce sealed,
        take-length_append nonce sealed,
        drop-length_append nonce sealed,
      )
      refl

-- If the AEAD opens what it sealed with a nonce, and that nonce has the AEAD's size, then what
-- `EncryptToken` makes of a token with the nonce decrypts to the token.
pub decrypt-encrypt :
    (a : Aead) (nonce plaintext out : List ℕ)
    → length nonce ≡ a.nonce_size
    → a.unseal nonce (a.seal nonce plaintext) ≡ some plaintext
    → encrypt_token a (some nonce) plaintext ≡ some out
    → decrypt_token a out ≡ ok plaintext
unfolding encrypt_token
decrypt-encrypt a nonce plaintext out size law h =
    subst (λ o. decrypt_token a o ≡ ok plaintext) (some-inj h)
      (opens_own a nonce (a.seal nonce plaintext) size ∙ ap opened law)
  where
    some-inj : {x y : List ℕ} → some x ≡ some y → x ≡ y
    some-inj e = ground arith
