-- ===== src/Github/Listings/Tests.antt =====
-- A toy server: its state is the clock, it has one repository, and it gives a token for an hour.
use ghapp_demo.Base.{
  ℕ, zero, suc, ◌+◌, ◌*◌, ◌≤◌, ◌⊎◌, ◌≡◌, refl, ap, ◌∙◌, sym, false, List, [], ◌∷◌, ◌++◌, Option,
  some, arith, if◌then◌else◌, map, drop, take, Bool-cases, inl, inr,
}
use ghapp_demo.Base.Int.{pos}
use ghapp_demo.Base.Result.{ok}
use ghapp_demo.Github.Http.{CachedInstallationToken, Outside, Net, Request, Response}
use ghapp_demo.Github.Payloads.{RepoPayload, repo_of}
use ghapp_demo.Github.Tokens.{
  TokenPayload, bearer, minute, installation_token, cached, app_bearer_token,
}
use ghapp_demo.Github.Listings.{page_endpoint, list_user_installation_repositories}
use ghapp_demo.Github.Tokens.Cached.{installation_token-cached}
use ghapp_demo.Github.Listings.Complete.{list_user_installation_repositories-Lists, Answers}
use ghapp_demo.Github.Pages.Complete.{Lists, slice}
use ghapp_demo.Text.{Text, codes, equal, trim_space}
use ghapp_demo.Text.Laws.{equal_iff}
use ghapp_demo.Text.Number.{print_int, print_nat, digits, print_from}
use ghapp_demo.Text.Number.RoundTrip.{digits-print_nat}

abbrev only : RepoPayload
only = record {
  id = pos 7;
  full_name = codes "o/r";
  visibility = codes "public";
  owner_login = codes "o";
  owner_id = pos 8;
}

abbrev reply : Request → ℕ → Option Response × ℕ
reply r now = (some (record { status = 200; etag = []; body = r.endpoint }), suc now)

abbrev toy_outside : Outside ℕ
toy_outside = record { send = reply; clock = λ now. now; sign = λ claims. claims.issuer }

abbrev start : Net ℕ
start = record { installation_tokens = []; outside = 5 }

abbrev first_page : Text
first_page = codes "https://api.github.com/user/installations/3/repositories?per_page=100&page=1"

abbrev decode_repos : Text → Option (List RepoPayload)
decode_repos body = some (if equal body first_page then only ∷ [] else [])

abbrev AnyState : ℕ → Type 0
AnyState now = Unit

abbrev path : Text
path = codes "user/installations/" ++ print_int (pos 3) ++ codes "/repositories"

-- The digits of the page behind the rest of the URL.
page_digits : (n : ℕ) → drop 75 (page_endpoint path n) ≡ print_nat n
unfolding print_int print_nat print_from
page_digits n = refl

first_page_digits : drop 75 first_page ≡ print_nat 1
unfolding print_nat print_from
first_page_digits = refl

later_page : (q : ℕ) → equal (page_endpoint path (suc (suc q))) first_page ≡ false
later_page q = elim (Bool-cases (equal (page_endpoint path (suc (suc q))) first_page)) [
  | inl h ↦
      let e : page_endpoint path (suc (suc q)) ≡ first_page = (equal_iff _ _).0 h in
      let d : print_nat (suc (suc q)) ≡ print_nat 1 =
        sym (page_digits (suc (suc q))) ∙ ap (drop 75) e ∙ first_page_digits in
      let n : some (suc (suc q)) ≡ some 1 =
        sym (digits-print_nat (suc (suc q))) ∙ ap (digits 0) d ∙ digits-print_nat 1 in
      ground arith
  | inr h ↦ h
]

drop_nil : (k : ℕ) → drop {A = RepoPayload} k [] ≡ []
drop_nil zero = refl
drop_nil (suc k) = refl

later_slice : (q : ℕ) → slice (suc q) (only ∷ []) ≡ []
later_slice q =
    let e : suc q * 100 ≡ suc (q * 100 + 99) = omega arith in
    ap (take 100) (ap (λ k. drop k (only ∷ [])) e ∙ drop_nil (q * 100 + 99))

later_items :
    (q : ℕ) → decode_repos (page_endpoint path (suc (suc q))) ≡ some (slice (suc q) (only ∷ []))
later_items q =
    ap (λ b. some (if b then only ∷ [] else [])) (later_page q) ∙ ap some (sym (later_slice q))

first_items : decode_repos (page_endpoint path 1) ≡ some (slice 0 (only ∷ []))
unfolding equal print_int print_nat print_from
first_items = refl

abbrev reply_at : ℕ → Response
reply_at page = record { status = 200; etag = []; body = page_endpoint path page }

toy-Answers : Answers toy_outside decode_repos path (bearer (codes "t")) AnyState (only ∷ [])
toy-Answers zero s j = (reply_at 1, suc s, refl, refl, first_items, tt)
toy-Answers (suc q) s j = (reply_at (suc (suc q)), suc s, refl, refl, later_items q, tt)

list_user_installation_repositories-Lists_example :
    Lists
      (λ w. AnyState w.outside)
      (list_user_installation_repositories toy_outside decode_repos 1 (codes "t") (pos 3) start)
      (map repo_of (only ∷ []))
list_user_installation_repositories-Lists_example =
    list_user_installation_repositories-Lists toy_outside decode_repos AnyState (only ∷ []) 1
      (codes "t") (pos 3) start toy-Answers tt (omega arith)

abbrev decode_token : Text → Option TokenPayload
decode_token body = some (record { token = codes "ghs"; expires_at = 60 * minute })

abbrev with_cache : Net ℕ
with_cache = record {
  installation_tokens = (pos 3, record { token = codes "ghs"; expires_at = 60 * minute }) ∷ [];
  outside = 6;
}

installation_token-cached_example :
    (c : CachedInstallationToken) × (cached (pos 3) with_cache.installation_tokens ≡ some c)
    × (c.token ≡ codes "ghs")
    × ((c.expires_at ≤ 6 + minute)
        ⊎ (installation_token toy_outside decode_token (codes "7") (pos 3) with_cache
            ≡ (ok (codes "ghs"), with_cache)))
unfolding installation_token cached trim_space app_bearer_token
installation_token-cached_example =
    installation_token-cached toy_outside decode_token (codes "7") (pos 3) (codes "ghs") start
      with_cache refl
