-- ===== src/Oidc/Claims/Audience.antt =====
-- When a token's audience is accepted.
use ghapp_demo.Base.{
  ◌≡◌, ◌↔◌, ◌⊎◌, inl, inr, refl, true, false, List, [], ◌∷◌, any, In, Bool-cases, if◌then◌else◌,
}
use ghapp_demo.Oidc.Claims.{Claims, token_audiences, is_nil, is_audience_allowed}
use ghapp_demo.Text.{Text, equal}
use ghapp_demo.Text.Collect.{any-equal_iff}

-- An item of both lists.
abbrev pub Shares : List Text → List Text → Type 0
Shares xs ys = (a : Text) × In a xs × In a ys

any-Shares : (xs ys : List Text) → (any (λ a. any (equal a) ys) xs ≡ true) ↔ Shares xs ys
any-Shares [] ys = (λ h. cc, λ (a, m, n). absurd m)
any-Shares (x ∷ xs) ys = elim (Bool-cases (any (equal x) ys)) [
  | inl found ↦ rw found (λ _. (x, inl refl, (any-equal_iff x ys).0 found), λ _. refl)
  | inr missing ↦ rw missing (
    λ h. let (a, m, n) = (any-Shares xs ys).0 h in (a, inr m, n),
    λ (a, m, n). elim m [
      | inl e ↦ cc (missing, e, (any-equal_iff a ys).1 n)
      | inr later ↦ (any-Shares xs ys).1 (a, later, n)
    ],
  )
]

accepts_iff :
    (audiences tokens : List Text)
    → ((if is_nil audiences
          then true
          else if is_nil tokens
          then false
          else any (λ a. any (equal a) audiences) tokens)
        ≡ true)
      ↔ ((audiences ≡ []) ⊎ Shares tokens audiences)
accepts_iff [] tokens = (λ _. inl refl, λ _. refl)
accepts_iff (b ∷ bs) [] = (λ h. cc, λ s. elim s [ inl e ↦ cc | inr (a, m, n) ↦ absurd m ])
accepts_iff (b ∷ bs) (t ∷ ts) =
    let (to, from) = any-Shares (t ∷ ts) (b ∷ bs) in
    (λ h. inr (to h), λ s. elim s [ inl e ↦ cc | inr shared ↦ from shared ])

-- A token is accepted exactly when the verifier has no audiences or shares one with the token.
pub is_audience_allowed_iff :
    (audiences : List Text) (claims : Claims)
    → (is_audience_allowed audiences claims ≡ true)
      ↔ ((audiences ≡ []) ⊎ Shares (token_audiences claims) audiences)
unfolding is_audience_allowed
is_audience_allowed_iff audiences claims = accepts_iff audiences (token_audiences claims)
