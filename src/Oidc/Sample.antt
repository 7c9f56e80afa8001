-- ===== src/Oidc/Sample.antt =====
-- A verifier with one key, and a library that reads one token, for the tests.
use ghapp_demo.Base.{ℕ, List, [], ◌∷◌, Option, some}
use ghapp_demo.Base.Int.{pos}
use ghapp_demo.Oidc.Claims.{Claims, str, int}
use ghapp_demo.Oidc.Keys.{KeyCache, PublicKey, Clock}
use ghapp_demo.Oidc.Verify.{Verifier, Parsed}
use ghapp_demo.Text.{Text, codes}

abbrev pub claims : Claims
claims =
    (codes "aud", str (codes "demo"))
    ∷ (codes "repository", str (codes "o/r"))
    ∷ (codes "repository_id", int (pos 7))
    ∷ (codes "repository_owner_id", int (pos 8))
    ∷ (codes "repository_visibility", str (codes "private"))
    ∷ (codes "run_id", int (pos 3))
    ∷ (codes "run_attempt", int (pos 1))
    ∷ (codes "actor_id", int (pos 9))
    ∷ (codes "sha", str (codes "c0"))
    ∷ []

abbrev pub key : PublicKey
key = record { modulus = 35 ∷ []; exponent = 5 }

abbrev pub cache : KeyCache
cache = record { keys = (codes "k1", key) ∷ []; expires_at = 100 }

abbrev pub early : Clock
early = record { looked = 5; checked = 6; stored = 7 }

abbrev pub late : Clock
late = record { looked = 105; checked = 106; stored = 107 }

abbrev pub decode : Text → Option (List ℕ)
decode t = some t

-- A library that reads this one token.
abbrev pub parse : Text → Text → Option Parsed
parse issuer raw = some (codes "k1", λ k. some claims)

abbrev pub verifier : Verifier
verifier = record {
  issuer = codes "i";
  audiences = codes "demo" ∷ [];
  jwks_url = [];
  cache_ttl = 60;
}
