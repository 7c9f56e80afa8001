-- ===== src/Store/Installations/Laws.antt =====
-- Which installation speaks for a repository.
use ghapp_demo.Base.{
  ◌≡◌, ◌≢◌, ◌⊎◌, inl, inr, refl, sym, ap, ◌∙◌, Bool, true, false, List, [], ◌∷◌, Option, none, some,
  arith, In, Bool-cases,
}
use ghapp_demo.Base.Int.{ℤ, eq_ℤ_iff}
use ghapp_demo.Base.Result.{ok}
use ghapp_demo.Store.Installations.{
  is_active, least, smaller, covers, get_any_installation_id_for_repo,
}
use ghapp_demo.Store.Monad.{World}
use ghapp_demo.Store.Monad.Invert.{query-ok}
use ghapp_demo.Store.Tables.{InstallationRepoRow}

smaller-cases : (a : ℤ) (r : Option ℤ) → (smaller a r ≡ some a) ⊎ (smaller a r ≡ r)
smaller-cases a none = inl refl
smaller-cases a (some b) = ground arith

module _ (p : InstallationRepoRow → Bool) where
  least-In :
      (xs : List InstallationRepoRow) (id : ℤ)
      → least p xs ≡ some id
      → (x : InstallationRepoRow) × In x xs × (p x ≡ true) × (x.installation_id ≡ id)
  least-In [] id h = ground arith
  least-In (x ∷ xs) id h = elim (Bool-cases (p x)) [
    | inl t ↦ elim (smaller-cases x.installation_id (least p xs)) [
      | inl e ↦ (x, inl refl, t, ground (arith, e, h, t))
      | inr e ↦
          let (y, i, u, same) = least-In xs id (ground (arith, e, h, t)) in (y, inr i, u, same)
    ]
    | inr t ↦ let (y, i, u, same) = least-In xs id (ground (arith, h, t)) in (y, inr i, u, same)
  ]

  smaller_ne_none : (a : ℤ) (r : Option ℤ) → smaller a r ≢ none
  smaller_ne_none a none h = ground arith
  smaller_ne_none a (some b) h = ground arith

  least-none :
      (xs : List InstallationRepoRow) (x : InstallationRepoRow)
      → least p xs ≡ none
      → In x xs
      → p x ≡ false
  least-none [] x h i = elim i [ ]
  least-none (y ∷ xs) x h i = elim (Bool-cases (p y)) [
    | inl t ↦ elim (smaller_ne_none y.installation_id (least p xs) (ground (arith, h, t))) [ ]
    | inr t ↦ elim i [ inl e ↦ ap p (sym e) ∙ t | inr j ↦ least-none xs x (ground (arith, h, t)) j ]
  ]

-- The installation that is found for a repository is one that covers it: it has the repository and
-- is not deleted. Where none is found, no installation that is not deleted has the repository.
pub get_any_installation_id_for_repo-covers :
    (repo : ℤ) (w : World) (found : Option ℤ)
    → (get_any_installation_id_for_repo repo w).0 ≡ ok found
    → ((id : ℤ)
        → found ≡ some id
        → (x : InstallationRepoRow) × In x w.db.installation_repos
          × (x.repo_id ≡ repo)
          × (x.installation_id ≡ id)
          × (is_active w.db id ≡ true))
      × (found ≡ none
          → (x : InstallationRepoRow) → In x w.db.installation_repos
          → x.repo_id ≡ repo
          → is_active w.db x.installation_id ≡ false)
unfolding get_any_installation_id_for_repo
get_any_installation_id_for_repo-covers repo w found h =
    let e = (query-ok _ _ w found h).0 in
    (
      λ id named.
          let (x, i, t, same) =
            least-In (covers w.db repo) w.db.installation_repos id (sym e ∙ named) in
          (
            x,
            i,
            (eq_ℤ_iff x.repo_id repo).0 (ground (arith, t)),
            same,
            ap (is_active w.db) (sym same) ∙ ground (arith, t),
          ),
      λ nobody x i same.
          let t = least-none (covers w.db repo) w.db.installation_repos x (sym e ∙ nobody) i in
          ground (arith, t, (eq_ℤ_iff x.repo_id repo).1 same),
    )
