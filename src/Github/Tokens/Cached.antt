-- ===== src/Github/Tokens/Cached.antt =====
-- server/internal/githubapp/client.go: the cache of installation tokens.
use ghapp_demo.Base.{
  ℕ, ◌+◌, ◌<◌, ◌≤◌, ◌⊎◌, inl, inr, ltb, Bool-cases, ◌≡◌, refl, sym, ap, subst, ◌∙◌, List, ◌∷◌,
  Option, none, some, arith,
}
use ghapp_demo.Base.Int.{ℤ, eq_ℤ_iff}
use ghapp_demo.Base.Result.{Result, ok, err}
use ghapp_demo.Github.Http.{Outside, Net, CachedInstallationToken, ClientError, bind, sent}
use ghapp_demo.Github.Tokens.{
  TokenPayload, cached, usable, minute, token_or_new, installation_token, store_token, read_token,
  token_post,
}
use ghapp_demo.Text.{Text}

usable_live :
    (c : CachedInstallationToken) (now : ℕ)
    → now + minute < c.expires_at
    → usable now (some c) ≡ some c.token
usable_live c now h = ground (arith, h)

module _ {S : Type 0} (o : Outside S) (decode : Text → Option TokenPayload) (app_id : Text)
    (id : ℤ) where
  -- A token for the key stands in front of the cache.
  abbrev IsStored : Text → Net S → Type 0
  IsStored token w =
      (c : CachedInstallationToken) × (cached id w.installation_tokens ≡ some c) × (c.token ≡ token)

  cached_front :
      (c : CachedInstallationToken) (rest : List (ℤ × CachedInstallationToken))
      → cached id ((id, c) ∷ rest) ≡ some c
  unfolding cached
  cached_front c rest = rw ((eq_ℤ_iff id id).1 refl) refl

  store_token-IsStored :
      (r : Result ClientError TokenPayload × Net S) (token : Text) (w' : Net S)
      → bind r (store_token id) ≡ (ok token, w')
      → IsStored token w'
  store_token-IsStored (ok p, w) token w' h =
      let e : p.token ≡ token = ground arith in
      let s : record w {
        installation_tokens =
            (id, record { token = p.token; expires_at = p.expires_at }) ∷ w.installation_tokens;
      }
          ≡ w' =
        ap (λ r. r.1) h in
      subst (IsStored token) s
        (record { token = p.token; expires_at = p.expires_at }, cached_front _ _, e)
  store_token-IsStored (err e, w) token w' h = ground arith

  usable-token :
      (token : Text) (c : Option CachedInstallationToken) (now : ℕ)
      → usable now c ≡ some token
      → (t : CachedInstallationToken) × (c ≡ some t) × (t.token ≡ token)
  usable-token token none now h = ground arith
  usable-token token (some t) now h = (t, refl, ground arith)

  token_or_new-IsStored :
      (u : Option Text) (token : Text) (w w' : Net S)
      → u ≡ usable (o.clock w.outside) (cached id w.installation_tokens)
      → token_or_new o decode app_id id u w ≡ (ok token, w')
      → IsStored token w'
  token_or_new-IsStored (some t) token w w' u h =
      let (c, e, k) = usable-token t (cached id w.installation_tokens) _ (sym u) in
      let s : w ≡ w' = ap (λ r. r.1) h in
      let same : t ≡ token = ground arith in subst (IsStored token) s (c, e, k ∙ same)
  token_or_new-IsStored none token w w' u h =
      store_token-IsStored
        (sent w (read_token decode) (o.send (token_post o app_id id (o.clock w.outside)) w.outside))
        token w' h

  -- A token that was returned, cached or new, is what the cache has for the installation. While
  -- more than a minute is left of it, asking again returns it and sends no request.
  pub installation_token-cached :
      (token : Text) (w w' : Net S)
      → installation_token o decode app_id id w ≡ (ok token, w')
      → (c : CachedInstallationToken) × (cached id w'.installation_tokens ≡ some c)
        × (c.token ≡ token)
        × ((c.expires_at ≤ o.clock w'.outside + minute)
            ⊎ (installation_token o decode app_id id w' ≡ (ok token, w')))
  unfolding installation_token
  installation_token-cached token w w' h =
      let (c, e, t) = token_or_new-IsStored _ token w w' refl h in
      let again = λ (live : o.clock w'.outside + minute < c.expires_at).
        ap (λ u. token_or_new o decode app_id id u w')
          (ap (usable (o.clock w'.outside)) e
            ∙ usable_live c (o.clock w'.outside) live
            ∙ ap some t) in
      (
        c,
        e,
        t,
        elim (Bool-cases (ltb (o.clock w'.outside + minute) c.expires_at)) [
          | inl l ↦ inr (again (ground (arith, l)))
          | inr l ↦ inl (ground (arith, l))
        ],
      )
