-- ===== src/Handlers/Login/Matched.antt =====
-- server/web/handler/server.go: who is logged in by the callback.
use ghapp_demo.Base.{
  ℕ, ◌+◌, ◌≡◌, refl, sym, ap, subst, ◌∙◌, Bool, false, ◌||◌, List, [], ◌∷◌, Option, none, some,
  arith, Bool-cases, inl, inr,
}
use ghapp_demo.Base.Result.{Result, ok, err}
use ghapp_demo.Handlers.Login.{
  LoginAnswer, error_answer, or_status, failing, or_500, session_length, refresh_bytes,
  start_session, log_in, logged_in, with_state, callback, handle_github_callback,
}
use ghapp_demo.Handlers.Session.{
  new_token, session_cookie, cleared_oauth_state_cookie, read_oauth_state_cookie,
}
use ghapp_demo.Handlers.Site.{Site, GithubApi, Call, sequel, return, lift, store, stored, github}
use ghapp_demo.Store.Monad.{World, StoreError}
use ghapp_demo.Store.Users.{
  User, create_session, upsert_user_from_github, upsert_user_github_tokens,
}
use ghapp_demo.Text.{Text, codes, equal, is_empty}
use ghapp_demo.Text.Dict.{Dict}
use ghapp_demo.Text.Laws.{equal_iff}

module _ {S : Type 0} where
  sequel-ok :
      {A B : Type 0} (r : Result ℕ A × Site S) (f : A → Call ℕ S B) (b : B) (s' : Site S)
      → sequel r f ≡ (ok b, s')
      → (a : A) × (s : Site S) × (r ≡ (ok a, s)) × (f a s ≡ (ok b, s'))
  sequel-ok (ok a, s) f b s' h = (a, s, refl, h)
  sequel-ok (err e, s) f b s' h = ground arith

  or_status-ok :
      {A : Type 0} (status : ℕ) (r : Result Text A × Site S) (a : A) (s' : Site S)
      → or_status status r ≡ (ok a, s')
      → r ≡ (ok a, s')
  or_status-ok status (ok b, s) a s' h = ground arith
  or_status-ok status (err e, s) a s' h = ground arith

  stored-ok :
      {A : Type 0} (words : StoreError → Text) (g : S) (r : Result StoreError A × World) (a : A)
      (s' : Site S)
      → stored words g r ≡ (ok a, s')
      → r ≡ (ok a, s'.world)
  stored-ok words g (ok b, w) a s' h = ground arith
  stored-ok words g (err e, w) a s' h = ground arith

-- A session of the user was stored.
abbrev pub IsStarted : User → Text → ℕ → World → Type 0
IsStarted user token expires w' =
    (w : World) × (create_session user.id token expires w ≡ (ok tt, w'))

-- The login came back with the state that the cookie has, and ended in a session, whose token
-- the cookie has that is set.
abbrev pub IsLoggedIn :
    {S : Type 0} → Bool → Dict Text → Text → Text → LoginAnswer × Site S → Type 0
IsLoggedIn secure cookies state code answer =
    (is_empty state ≡ false)
    × (is_empty code ≡ false)
    × (read_oauth_state_cookie cookies ≡ some state)
    × ((user : User) × (token : Text) × (expires : ℕ) × IsStarted user token expires answer.1.world
        × (answer.0.cookies
            ≡ cleared_oauth_state_cookie secure ∷ session_cookie token expires secure ∷ []))

abbrev ToDashboard : LoginAnswer → Type 0
ToDashboard answer = answer.location ≡ some (codes "/dashboard")

module _ {S : Type 0} (api : GithubApi S) (encode : List ℕ → Text) (random : Option (List ℕ)) where
  start_session-IsStarted :
      (user : User) (token : Text) (expires : ℕ) (s s' : Site S)
      → start_session api encode random user s ≡ (ok (token, expires), s')
      → IsStarted user token expires s'.world
  start_session-IsStarted user token expires s s' h =
      let (raw, s1, e1, h1) =
        sequel-ok (lift (or_500 (new_token encode random)) s) _ (token, expires) s' h in
      let exp = api.clock s1 + session_length in
      let put = or_status 500 (store api (create_session user.id raw exp) s1) in
      let (u, s2, e2, h2) = sequel-ok put (λ u. return (raw, exp)) (token, expires) s' h1 in
      let made : create_session user.id raw exp s1.world ≡ (ok u, s2.world) =
        stored-ok api.words s1.github (create_session user.id raw exp s1.world) u s2
          (or_status-ok 500 (store api (create_session user.id raw exp) s1) u s2 e2) in
      let same : (ok (raw, exp), s2) ≡ (ok (token, expires), s') = h2 in
      let t : raw ≡ token = ground arith in
      let e : exp ≡ expires = ground arith in
      let w : s2.world ≡ s'.world = ap (λ r. r.1.world) same in
      (
        s1.world,
        subst (λ x. create_session user.id token expires s1.world ≡ (ok tt, x)) w
            (ap (λ x. create_session user.id x expires s1.world) (sym t)
              ∙ ap (λ x. create_session user.id raw x s1.world) (sym e)
              ∙ made),
      )

  log_in-IsStarted :
      (code token : Text) (expires : ℕ) (s s' : Site S)
      → log_in api encode random code s ≡ (ok (token, expires), s')
      → (user : User) × IsStarted user token expires s'.world
  unfolding log_in
  log_in-IsStarted code token expires s s' h =
      let b : Text × ℕ = (token, expires) in
      let (tokens, s1, e1, h1) =
        sequel-ok (failing 502 (github (api.exchange_user_code code)) s) _ b s' h in
      let (profile, s2, e2, h2) =
        sequel-ok (failing 502 (github (api.github_user tokens.access_token)) s1) _ b s' h1 in
      let (user, s3, e3, h3) =
        sequel-ok
          (failing 500
            (store api (upsert_user_from_github profile.id profile.login profile.avatar_url)) s2)
          _ b s' h2 in
      let (access, s4, e4, h4) =
        sequel-ok (failing 500 (github (api.encrypt_token tokens.access_token)) s3) _ b s' h3 in
      let (refresh, s5, e5, h5) =
        sequel-ok (failing 500 (refresh_bytes api encode random tokens) s4) _ b s' h4 in
      let (u, s6, e6, h6) =
        sequel-ok
          (failing 500
            (store api (
              upsert_user_github_tokens user.id access tokens.access_token_expires_at refresh
                tokens.refresh_token_expires_at))
            s5)
          _ b s' h5 in
      (user, start_session-IsStarted user token expires s6 s' h6)

  logged_in-IsStarted :
      (secure : Bool) (r : Result ℕ (Text × ℕ) × Site S) (code : Text) (s : Site S)
      → log_in api encode random code s ≡ r
      → ToDashboard (logged_in api encode random secure r).0
      → (user : User) × (token : Text) × (expires : ℕ) × IsStarted user token expires
          (logged_in api encode random secure r).1.world
        × ((logged_in api encode random secure r).0.cookies
            ≡ cleared_oauth_state_cookie secure ∷ session_cookie token expires secure ∷ [])
  logged_in-IsStarted secure (err status, s') code s e h = ground arith
  logged_in-IsStarted secure (ok (token, expires), s') code s e h =
      let (user, started) = log_in-IsStarted code token expires s s' e in
      (user, token, expires, started, refl)

  with_state-IsLoggedIn :
      (secure : Bool) (cookies : Dict Text) (state code : Text) (s : Site S) (found : Option Text)
      → is_empty state ≡ false
      → is_empty code ≡ false
      → read_oauth_state_cookie cookies ≡ found
      → ToDashboard (with_state api encode random secure state code found s).0
      → IsLoggedIn secure cookies state code
          (with_state api encode random secure state code found s)
  with_state-IsLoggedIn secure cookies state code s none p q e h = ground arith
  with_state-IsLoggedIn secure cookies state code s (some c) p q e h =
      elim (Bool-cases (equal c state)) [
        | inl t ↦
            let r : Result ℕ (Text × ℕ) × Site S = log_in api encode random code s in
            let same : with_state api encode random secure state code (some c) s
                ≡ logged_in api encode random secure r =
              rw (t, with_state) refl in
            let at_dashboard : ToDashboard (logged_in api encode random secure r).0 =
              subst (λ x. ToDashboard x.0) same h in
            subst (IsLoggedIn secure cookies state code) (sym same) (
              p,
              q,
              e ∙ ap some ((equal_iff c state).0 t),
              logged_in-IsStarted secure r code s refl at_dashboard,
            )
        | inr t ↦
            let same : with_state api encode random secure state code (some c) s
                ≡ (error_answer 401 (cleared_oauth_state_cookie secure ∷ []), s) =
              rw (t, with_state) refl in
            let at_dashboard : none ≡ some (codes "/dashboard") =
              sym (ap (λ x. x.0.location) same) ∙ h in
            ground arith
      ]

  callback-IsLoggedIn :
      (secure : Bool) (cookies : Dict Text) (state code : Text) (s : Site S)
      → ToDashboard (callback api encode random secure cookies state code s).0
      → IsLoggedIn secure cookies state code
          (callback api encode random secure cookies state code s)
  unfolding callback
  callback-IsLoggedIn secure cookies state code s h =
      elim (Bool-cases (is_empty state || is_empty code)) [
        | inl t ↦
            let same : callback api encode random secure cookies state code s
                ≡ (error_answer 400 [], s) =
              rw (t) refl in
            let at_dashboard : none ≡ some (codes "/dashboard") =
              sym (ap (λ x. x.0.location) same) ∙ h in
            ground arith
        | inr t ↦
            let found : Option Text = read_oauth_state_cookie cookies in
            let same : callback api encode random secure cookies state code s
                ≡ with_state api encode random secure state code found s =
              rw (t) refl in
            subst (IsLoggedIn secure cookies state code) (sym same) (
              with_state-IsLoggedIn secure cookies state code s found (ground (arith, t))
                (ground (arith, t)) refl (subst (λ x. ToDashboard x.0) same h))
      ]

-- If the callback redirects to the dashboard, then the query has a state and a code, the cookie
-- of the login has the same state, a session was stored for a user, and the session's token and
-- expiry are those of the cookie that is set, beside the one that clears the state.
pub handle_github_callback-IsLoggedIn :
    {S : Type 0} (api : Option (GithubApi S)) (encode : List ℕ → Text) (random : Option (List ℕ))
    (secure : Bool) (cookies : Dict Text) (state code : Text) (s : Site S)
    → (handle_github_callback api encode random secure cookies state code s).0.location
      ≡ some (codes "/dashboard")
    → IsLoggedIn secure cookies state code
        (handle_github_callback api encode random secure cookies state code s)
unfolding handle_github_callback
handle_github_callback-IsLoggedIn none encode random secure cookies state code s h = ground arith
handle_github_callback-IsLoggedIn (some api) encode random secure cookies state code s h =
    callback-IsLoggedIn api encode random secure cookies state code s h
