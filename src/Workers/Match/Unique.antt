-- ===== src/Workers/Match/Unique.antt =====
-- A match is the only one on both sides, and no run is forgotten.
use ghapp_demo.Base.{
  ℕ, ◌≡◌, ◌⊎◌, inl, inr, refl, sym, ap, ◌∙◌, Bool, true, false, not, List, [], ◌∷◌, Option, none,
  some, arith, ◌==◌, select, length, In, Bool-cases,
}
use ghapp_demo.Base.Int.{eq_ℤ_iff}
use ghapp_demo.Store.Enrichment.{EnrichmentRunRow}
use ghapp_demo.Store.Query.{upsert}
use ghapp_demo.Store.Query.Laws.{In-select}
use ghapp_demo.Github.Payloads.{RunJob}
use ghapp_demo.Workers.Match.{
  Candidate, fits, has_id, is_shared, put_matched, sole, keep_chosen, chosen_of, match_jobs_to_runs,
}

-- Rows that pass a test that one row passes are that row.
only-one :
    {A : Type 0} (p : A → Bool) (xs : List A) (a b : A)
    → length (select p xs) ≡ 1
    → In a xs
    → In b xs
    → p a ≡ true
    → p b ≡ true
    → a ≡ b
only-one p xs a b one i j ha hb =
    both (select p xs) one ((In-select p a xs).1 (i, ha)) ((In-select p b xs).1 (j, hb))
  where
    both : (ys : List _) → length ys ≡ 1 → In a ys → In b ys → a ≡ b
    both (y ∷ []) h (inl e) (inl f) = sym e ∙ f
    both _ h k l = ground (arith, h, k, l)

upsert-In :
    (p : Candidate → Bool) (new a : Candidate) (xs : List Candidate)
    → In a (upsert p (λ _. new) new xs)
    → (new ≡ a) ⊎ In a xs
upsert-In p new a [] i = ground (arith, i)
upsert-In p new a (x ∷ xs) i = elim (Bool-cases (p x)) [
  | inl t ↦ ground (arith, i, t)
  | inr t ↦ ground (arith, i, t, upsert-In p new a xs)
]

put_matched-In :
    (out cs : List Candidate) (a : Candidate) → In a (put_matched out cs) → In a out ⊎ In a cs
put_matched-In out [] a i = inl i
put_matched-In out (c ∷ cs) a i =
    elim (put_matched-In (upsert (λ d. d.0 == c.0) (λ _. c) c out) cs a i) [
      | inl j ↦ elim (upsert-In (λ d. d.0 == c.0) c a out j) [ inl e ↦ inr (inl e) | inr k ↦ inl k ]
      | inr j ↦ inr (inr j)
    ]

sole-some : (jobs : List RunJob) (job : RunJob) → sole jobs ≡ some job → jobs ≡ job ∷ []
sole-some (x ∷ []) job h = ground (arith, h)
sole-some [] job h = ground (arith, h)
sole-some (x ∷ y ∷ jobs) job h = ground (arith, h)

keep_chosen-In :
    (run : ℕ) (r : Option RunJob) (rest : List Candidate) (c : Candidate)
    → In c (keep_chosen run r rest)
    → ((run ≡ c.0) × (r ≡ some c.1)) ⊎ In c rest
keep_chosen-In run none rest c i = inr i
keep_chosen-In run (some job) rest c (inl e) = inl (ap (λ x. x.0) e, ap (λ x. some x.1) e)
keep_chosen-In run (some job) rest c (inr i) = inr i

module _ (fold : ℕ → ℕ) (jobs : List RunJob) where
  -- A run and a job of the lists that fit, where no other job fits the run.
  abbrev pub IsOnly : List EnrichmentRunRow → Candidate → Type 0
  IsOnly runs c =
      (run : EnrichmentRunRow) × In run runs
      × (run.id ≡ c.0)
      × In c.1 jobs
      × (fits fold run c.1 ≡ true)
      × ((other : RunJob) → In other jobs → fits fold run other ≡ true → other ≡ c.1)

  sole-fits :
      (run : EnrichmentRunRow) (job : RunJob)
      → sole (select (fits fold run) jobs) ≡ some job
      → In job jobs
        × (fits fold run job ≡ true)
        × ((other : RunJob) → In other jobs → fits fold run other ≡ true → other ≡ job)
  sole-fits run job h =
      let one = sole-some (select (fits fold run) jobs) job h in
      let (i, t) = (In-select (fits fold run) job jobs).0 (rw one (inl refl)) in
      (i, t, λ other j u. only-one (fits fold run) jobs other job (ap length one) j i u t)

  chosen-IsOnly :
      (runs : List EnrichmentRunRow) (c : Candidate)
      → In c (chosen_of fold jobs runs)
      → IsOnly runs c
  chosen-IsOnly [] c i = elim i [ ]
  chosen-IsOnly (run ∷ runs) c i =
      elim (keep_chosen-In run.id (sole (select (fits fold run) jobs)) (chosen_of fold jobs runs) c
        i) [
          | inl (same, found) ↦
              let (j, t, only) = sole-fits run c.1 found in (run, inl refl, same, j, t, only)
          | inr j ↦
              let (r, k, same, on_list, t, only) = chosen-IsOnly runs c j in
              (r, inr k, same, on_list, t, only)
        ]

  module _ (runs : List EnrichmentRunRow) where
    abbrev matched : List Candidate
    matched = (match_jobs_to_runs fold runs jobs).0

    abbrev ambiguous : List ℕ
    ambiguous = (match_jobs_to_runs fold runs jobs).1

    matched-In :
        (c : Candidate)
        → In c matched
        → In c (chosen_of fold jobs runs) × (is_shared (chosen_of fold jobs runs) c ≡ false)
    unfolding match_jobs_to_runs
    matched-In c i = elim (put_matched-In [] _ c i) [
      | inl j ↦ elim j [ ]
      | inr j ↦
          let (k, t) =
            (In-select (λ x. not (is_shared (chosen_of fold jobs runs) x)) c
                (chosen_of fold jobs runs)).0
              j in
          (k, ground (arith, t))
    ]

    -- A match is a run and a job that fit, where no other job fits the run; and no two runs are
    -- matched with jobs of one identifier.
    pub match_jobs_to_runs-IsOnly :
        (c : Candidate)
        → In c matched
        → IsOnly runs c × ((d : Candidate) → In d matched → d.1.id ≡ c.1.id → d ≡ c)
    match_jobs_to_runs-IsOnly c i =
        let (j, lone) = matched-In c i in
        (
          chosen-IsOnly runs c j,
          λ d k same.
              only-one (has_id c.1.id) (chosen_of fold jobs runs) d c (ground (arith, lone))
                (matched-In d k).0 j ((eq_ℤ_iff d.1.id c.1.id).1 same)
                ((eq_ℤ_iff c.1.id c.1.id).1 refl),
        )
