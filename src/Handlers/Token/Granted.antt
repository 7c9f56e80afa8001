-- ===== src/Handlers/Token/Granted.antt =====
-- server/web/handler/server.go: the upload tokens that `handleRunsToken` grants.
use ghapp_demo.Base.{
  ℕ, ◌+◌, ◌≤◌, ◌≡◌, refl, sym, ap, subst, ◌∙◌, Bool, true, false, not, ◌&&◌, List, [], ◌∷◌, Option,
  none, some, if◌then◌else◌, arith, ◌==◌, length, Bool-cases, inl, inr,
}
use ghapp_demo.Base.Int.{pos}
use ghapp_demo.Base.Result.{Result, ok, err, bind-eq-ok, guard, guard-eq-ok}
use ghapp_demo.Handlers.Ingest.{Request, owner_rate}
use ghapp_demo.Handlers.Request.{bearer_token, normalize_sha256_hex, all_hex, is_hex_byte}
use ghapp_demo.Handlers.Token.{
  RunTokenRequest, granted, TokenState, TokenClock, upload_request, or_400, read_token_request,
  issued_reply, issue_to, limit_principal, with_principal, with_bearer, handle_runs_token,
}
use ghapp_demo.Limiter.{Counter, allow, minute}
use ghapp_demo.Oidc.Claims.{
  Claims, Claim, null, str, float, int, number, arr, strs, other, claim_string, text_of,
}
use ghapp_demo.Oidc.Keys.{KeyCache, Response, Clock}
use ghapp_demo.Oidc.Principal.{Principal}
use ghapp_demo.Oidc.Principal.Sound.{Identifies}
use ghapp_demo.Oidc.Verify.{Verifier, VerifyError, Parsed, verify}
use ghapp_demo.Oidc.Verify.Accepts.{IsVouched, verify-IsVouched}
use ghapp_demo.Runsauth.{
  Jwt, TokenManager, TokenError, UploadRequest, issue_upload_token, verify_upload_token,
  upload_claims, second,
}
use ghapp_demo.Runsauth.Laws.{IsComplete, verify-issue}
use ghapp_demo.Text.{
  Text, codes, is_empty, is_space, trim_left, trim_right, keep_front, trim_space, to_lower,
}
use ghapp_demo.Text.Dict.{Dict, lookup}
use ghapp_demo.Text.Laws.{trim_space_idem}
use ghapp_demo.Text.Number.{print_int}

keep_front-filled :
    (c : ℕ) (t : Text) → is_space c ≡ false → is_empty (keep_front is_space c t) ≡ false
keep_front-filled c [] h = rw (h, keep_front) refl
keep_front-filled c (d ∷ t) h = refl

trim_left_kept : (c : ℕ) (s : Text) → is_space c ≡ false → trim_left is_space (c ∷ s) ≡ c ∷ s
unfolding trim_left
trim_left_kept c s h = rw (h, trim_left) refl

-- Text that starts with no space is not blank.
filled_front : (c : ℕ) (s : Text) → is_space c ≡ false → is_empty (trim_space (c ∷ s)) ≡ false
unfolding trim_space trim_right
filled_front c s h =
    ap (λ t. is_empty (trim_right is_space t)) (trim_left_kept c s h)
    ∙ keep_front-filled c (trim_right is_space s) h

hex_space : (c : ℕ) → is_hex_byte c ≡ true → is_space c ≡ false
unfolding is_space
hex_space c h = ground arith

hex_filled : (s : Text) → length s ≡ 64 → all_hex s ≡ true → is_empty (trim_space s) ≡ false
hex_filled [] l h = ground arith
hex_filled (c ∷ s) l h = filled_front c s (hex_space c (ground (arith, h)))

normalize-hex :
    (s sha : Text)
    → (if length s == 64 && all_hex s then some s else none) ≡ some sha
    → length sha == 64 && all_hex sha ≡ true
normalize-hex s sha h = elim (Bool-cases (length s == 64 && all_hex s)) [
  | inl t ↦ ground (arith, h, t)
  | inr t ↦ ground (arith, h, t)
]

normalize-filled :
    (v sha : Text) → normalize_sha256_hex v ≡ some sha → is_empty (trim_space sha) ≡ false
unfolding normalize_sha256_hex
normalize-filled v sha h =
    let t : length sha == 64 && all_hex sha ≡ true =
      normalize-hex (to_lower (trim_space v)) sha h in
    hex_filled sha (ground (arith, t)) (ground (arith, t))

-- What the claims of a token lack only if the principal or the request lacks it.
abbrev IsFilled : UploadRequest → Type 0
IsFilled req =
    (is_empty (trim_space req.payload_sha256) ≡ false)
    × (is_empty (trim_space req.execution_id) ≡ false)

or_400-ok : {A : Type 0} (o : Option A) (a : A) → or_400 o ≡ ok a → o ≡ some a
or_400-ok none a h = ground arith
or_400-ok (some b) a h = ground arith

read_token_request-IsFilled :
    (decode : Text → Option RunTokenRequest) (p : Principal) (given : Option Text)
    (req : UploadRequest)
    → read_token_request decode p given ≡ ok req
    → IsFilled req
unfolding read_token_request
read_token_request-IsFilled decode p given req h =
    let (body, e1, h1) = bind-eq-ok (or_400 given) _ h in
    let (asked, e2, h2) = bind-eq-ok (or_400 (decode body)) _ h1 in
    let (sha, e3, h3) = bind-eq-ok (or_400 (normalize_sha256_hex asked.payload_sha256)) _ h2 in
    let (u, e4, h4) =
      bind-eq-ok (guard (not (is_empty (trim_space asked.execution_id))) 400) _ h3 in
    let x = normalize-filled asked.payload_sha256 sha (or_400-ok _ sha e3) in
    let y = guard-eq-ok (not (is_empty (trim_space asked.execution_id))) 400 e4 in
    let made : upload_request p asked sha ≡ req = ground (arith, h4) in
    subst IsFilled made (x, ap is_empty (trim_space_idem asked.execution_id) ∙ ground (arith, y))

text_of-trimmed : (c : Option Claim) → trim_space (text_of c) ≡ text_of c
unfolding trim_space trim_left trim_right
text_of-trimmed (some (str s)) = trim_space_idem s
text_of-trimmed none = refl
text_of-trimmed (some null) = refl
text_of-trimmed (some (float n)) = refl
text_of-trimmed (some (int n)) = refl
text_of-trimmed (some (number s)) = refl
text_of-trimmed (some (arr items)) = refl
text_of-trimmed (some (strs items)) = refl
text_of-trimmed (some other) = refl

-- A claim that is not empty is not blank.
claim-filled :
    (claims : Claims) (key v : Text)
    → v ≡ claim_string claims key
    → is_empty v ≡ false
    → is_empty (trim_space v) ≡ false
unfolding claim_string
claim-filled claims key v e h =
    subst (λ t. is_empty t ≡ false)
      (sym (ap trim_space e ∙ text_of-trimmed (lookup key claims) ∙ sym e)) h

complete :
    (date : ℕ → ℕ) (m : TokenManager) (p : Principal) (req : UploadRequest) (now : ℕ)
    (claims : Claims)
    → Identifies claims p
    → IsFilled req
    → IsComplete (upload_claims date m p req now)
unfolding upload_claims
complete date m p req now claims i (payload, execution) = record {
  repository = claim-filled claims (codes "repository") p.repository i.name i.named;
  commit_sha = claim-filled claims (codes "sha") p.commit_sha i.commit i.pinned;
  payload = payload;
  execution = execution;
  run_id = i.run.1;
  repository_id = i.repo.1;
  owner_id = i.owner.1;
  run_attempt = i.attempt.1;
}

module _ (base64 : Text → Option (List ℕ)) (parse : Text → Text → Option Parsed)
    (decode : Text → Option RunTokenRequest) (jwt : Jwt) (m : TokenManager) (r : Request)
    (t : TokenClock) (token : Text) (expires : ℕ) where
  -- The token was issued for this principal, on a request whose claims are not blank.
  abbrev pub IsIssued : Principal → UploadRequest → Type 0
  IsIssued p req = (issue_upload_token jwt m p req t.issued ≡ ok (token, expires)) × IsFilled req

  issued_reply-ok :
      (o : Result TokenError (Text × ℕ))
      → issued_reply o ≡ granted token expires
      → o ≡ ok (token, expires)
  issued_reply-ok (ok (raw, e)) h = ground arith
  issued_reply-ok (err e) h = ground arith

  issue_to-IsIssued :
      (p : Principal) (o : Result ℕ UploadRequest)
      → read_token_request decode p r.body ≡ o
      → issue_to base64 parse decode jwt m p t.issued o ≡ granted token expires
      → (req : UploadRequest) × IsIssued p req
  issue_to-IsIssued p (err status) e h = ground arith
  issue_to-IsIssued p (ok req) e h = (
    req,
    (
      issued_reply-ok (issue_upload_token jwt m p req t.issued) h,
      read_token_request-IsFilled decode p r.body req e,
    ),
  )

  limit_principal-IsIssued :
      (p : Principal) (keys : KeyCache) (o : Bool × Option (Dict Counter))
      → (limit_principal base64 parse decode jwt m p r t keys o).0 ≡ granted token expires
      → (req : UploadRequest) × IsIssued p req
  limit_principal-IsIssued p keys (false, l) h = ground arith
  limit_principal-IsIssued p keys (true, l) h =
      issue_to-IsIssued p (read_token_request decode p r.body) refl h

  with_principal-IsIssued :
      (l : Option (Dict Counter)) (o : KeyCache × Result VerifyError Principal)
      → (with_principal base64 parse decode jwt m r t l o).0 ≡ granted token expires
      → (p : Principal) × (o.1 ≡ ok p) × ((req : UploadRequest) × IsIssued p req)
  with_principal-IsIssued l (keys, err e) h = ground arith
  with_principal-IsIssued l (keys, ok p) h = (
    p,
    refl,
    limit_principal-IsIssued p keys
        (allow l (print_int p.repository_owner_id) owner_rate (pos minute) t.limited) h,
  )

  with_bearer-IsIssued :
      (v : Verifier) (verified : Clock) (response : Response) (s : TokenState) (o : Option Text)
      → (with_bearer base64 parse decode jwt v m r t verified response s o).0
        ≡ granted token expires
      → (bearer : Text) × (p : Principal) × (o ≡ some bearer)
        × ((verify base64 parse v s.keys bearer verified response).1 ≡ ok p)
        × ((req : UploadRequest) × IsIssued p req)
  with_bearer-IsIssued v verified response s none h = ground arith
  with_bearer-IsIssued v verified response s (some bearer) h =
      let (p, got, issued) =
        with_principal-IsIssued s.limiter (verify base64 parse v s.keys bearer verified response)
          h in
      (bearer, p, refl, got, issued)

  -- A token that was granted, from its issue until a second before its expiry, is accepted for an
  -- upload. Its claims are those of a principal that the OIDC verifier vouched for, from the bearer
  -- token of the request.
  pub handle_runs_token-verify :
      (v : Verifier) (verified : Clock) (response : Response) (s : TokenState) (later : ℕ)
      → (handle_runs_token base64 parse decode jwt (some v) (some m) r t verified response s).0
        ≡ granted token expires
      → t.issued ≤ later
      → later + second ≤ expires
      → (bearer : Text) × (p : Principal) × (req : UploadRequest) × (bearer_token r.authorization
          ≡ some bearer)
        × IsVouched v
            (verify base64 parse v s.keys bearer verified response).0
            (parse v.issuer (trim_space bearer))
            p
        × (verify_upload_token jwt m token later
            ≡ ok (upload_claims jwt.numeric_date m p req t.issued))
  unfolding handle_runs_token
  handle_runs_token-verify v verified response s later h from until =
      let (bearer, p, e, got, (req, (issued, filled))) =
        with_bearer-IsIssued v verified response s (bearer_token r.authorization) h in
      let vouched = verify-IsVouched base64 parse v s.keys verified response p bearer got in
      (
        bearer,
        p,
        req,
        e,
        vouched,
        verify-issue jwt m p req t.issued token expires issued later
            (complete jwt.numeric_date m p req t.issued vouched.claims vouched.is_identified filled)
            from until,
      )
