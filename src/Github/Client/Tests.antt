-- ===== src/Github/Client/Tests.antt =====
-- The client at concrete configurations, with toy decoders and a toy AEAD that appends its nonce.
use ghapp_demo.Base.{◌≡◌, refl, [], ◌∷◌, ◌++◌, none, some}
use ghapp_demo.Base.Result.{ok, err}
use ghapp_demo.Github.Client.{
  Aead, encrypt_token, decrypt_token, ClientConfig, Decoders, other, new_client, key_length,
  not_rsa, parse_rsa_private_key, replace_newlines, Client, auth_code_url, too_short,
}
use ghapp_demo.Github.Client.Sealed.{decrypt-encrypt}
use ghapp_demo.Text.{Text, codes, trim_space}
use ghapp_demo.Text.Url.{encode_values, query_escape}

abbrev toy_aead : Aead
toy_aead = record {
  nonce_size = 2;
  seal = λ nonce plain. plain ++ nonce;
  unseal = λ nonce sealed. some (88 ∷ 89 ∷ []);
}

decrypt-encrypt_example : decrypt_token toy_aead (1 ∷ 2 ∷ 88 ∷ 89 ∷ 1 ∷ 2 ∷ []) ≡ ok (88 ∷ 89 ∷ [])
unfolding encrypt_token
decrypt-encrypt_example =
    decrypt-encrypt toy_aead (1 ∷ 2 ∷ []) (88 ∷ 89 ∷ []) (1 ∷ 2 ∷ 88 ∷ 89 ∷ 1 ∷ 2 ∷ []) refl refl
      refl

short_ciphertext : decrypt_token toy_aead (1 ∷ []) ≡ err too_short
unfolding decrypt_token
short_ciphertext = refl

abbrev toy_decoders : Decoders Text
toy_decoders = record {
  base64 = λ t. some t;
  pem = λ t. some t;
  pkcs1 = λ block. none;
  pkcs8 = λ block. some other;
}

abbrev config : ClientConfig
config = record {
  client_id = codes " id ";
  client_secret = codes "s";
  base_url = codes "https://a.b/ ";
  token_encryption_key = codes "short";
  app_id = codes "7";
  app_private_key = codes "a\\nb";
}

short_key : new_client toy_decoders config ≡ err (key_length 5)
unfolding new_client trim_space
short_key = refl

other_key : parse_rsa_private_key toy_decoders (codes "k") ≡ err not_rsa
unfolding parse_rsa_private_key trim_space replace_newlines
other_key = refl

newlines : replace_newlines (codes "a\\nb\\\\n") ≡ codes "a\nb\\\n"
unfolding replace_newlines
newlines = refl

abbrev client : Client Text
client = record {
  client_id = codes "id";
  client_secret = codes "s";
  base_url = codes "https://a.b";
  aead_key = [];
  app_id = codes "7";
  app_private_key = [];
}

login_url :
    auth_code_url client (codes "x y")
    ≡ codes
        "https://github.com/login/oauth/authorize?client_id=id&redirect_uri=https%3A%2F%2Fa.b%2Fauth%2Fgithub%2Fcallback&state=x+y"
unfolding auth_code_url encode_values query_escape
login_url = refl
