-- ===== src/Workers/Match/Covers.antt =====
-- Every run is either matched or ambiguous.
use ghapp_demo.Base.{
  ℕ, ◌≡◌, ◌⊎◌, inl, inr, refl, ap, subst, Bool, true, not, List, [], ◌∷◌, ◌++◌, Option, none, some,
  arith, ◌==◌, any, select, map, In, Bool-cases,
}
use ghapp_demo.Store.Enrichment.{EnrichmentRunRow}
use ghapp_demo.Store.Query.{upsert}
use ghapp_demo.Store.Query.Laws.{In-select, any-In, In-any}
use ghapp_demo.Github.Payloads.{RunJob}
use ghapp_demo.Workers.Match.{
  Candidate, fits, is_shared, put_matched, add_id, add_ids, sole, keep_chosen, keep_unmatched,
  chosen_of, unmatched_of, match_jobs_to_runs,
}

module _ (k : ℕ) where
  abbrev is_of : Candidate → Bool
  is_of c = c.0 == k

  upsert_key :
      (c : Candidate) (out : List Candidate)
      → (any is_of out ≡ true) ⊎ (is_of c ≡ true)
      → any is_of (upsert (λ d. d.0 == c.0) (λ _. c) c out) ≡ true
  upsert_key c [] h = ground (arith, h)
  upsert_key c (d ∷ out) h = elim (Bool-cases (d.0 == c.0)) [
    | inl t ↦ rw t (ground (arith, h, t))
    | inr t ↦ rw t (ground (arith, h, t, upsert_key c out))
  ]

  put_matched_key :
      (out cs : List Candidate)
      → (any is_of out ≡ true) ⊎ (any is_of cs ≡ true)
      → any is_of (put_matched out cs) ≡ true
  put_matched_key out [] h = ground (arith, h)
  put_matched_key out (c ∷ cs) h =
      put_matched_key (upsert (λ d. d.0 == c.0) (λ _. c) c out) cs (elim (Bool-cases (is_of c)) [
        | inl t ↦ inl (upsert_key c out (inr t))
        | inr t ↦ elim h [
          | inl e ↦ inl (upsert_key c out (inl e))
          | inr e ↦ inr (ground (arith, e, t))
        ]
      ])

  In-add_id : (id : ℕ) (ids : List ℕ) → (id ≡ k) ⊎ In k ids → In k (add_id id ids)
  In-add_id id ids (inl e) = elim (Bool-cases (any (◌==◌ id) ids)) [
    | inl t ↦
        let (x, i, same) = any-In (◌==◌ id) ids t in
        rw t (subst (λ n. In n ids) (ground (arith, same, e)) i)
    | inr t ↦ rw t (inl e)
  ]
  In-add_id id ids (inr i) = elim (Bool-cases (any (◌==◌ id) ids)) [
    | inl t ↦ rw t i
    | inr t ↦ rw t (inr i)
  ]

  In-add_ids : (ids : List ℕ) → In k ids → In k (add_ids ids)
  In-add_ids [] i = i
  In-add_ids (id ∷ ids) (inl e) = In-add_id id (add_ids ids) (inl e)
  In-add_ids (id ∷ ids) (inr i) = In-add_id id (add_ids ids) (inr (In-add_ids ids i))

kept :
    (run : ℕ) (r : Option RunJob) (cs : List Candidate) (ids : List ℕ)
    → ((job : RunJob) × In (run, job) (keep_chosen run r cs)) ⊎ In run (keep_unmatched run r ids)
kept run none cs ids = inr (inl refl)
kept run (some job) cs ids = inl (job, inl refl)

later_chosen :
    (run : ℕ) (r : Option RunJob) (cs : List Candidate) (c : Candidate)
    → In c cs
    → In c (keep_chosen run r cs)
later_chosen run none cs c i = i
later_chosen run (some job) cs c i = inr i

later_unmatched :
    (run : ℕ) (r : Option RunJob) (ids : List ℕ) (id : ℕ)
    → In id ids
    → In id (keep_unmatched run r ids)
later_unmatched run none ids id i = inr i
later_unmatched run (some job) ids id i = i

In-append : {A : Type 0} (a : A) (xs ys : List A) → In a xs ⊎ In a ys → In a (xs ++ ys)
In-append a [] ys (inl i) = elim i [ ]
In-append a [] ys (inr j) = j
In-append a (x ∷ xs) ys (inl (inl e)) = inl e
In-append a (x ∷ xs) ys (inl (inr i)) = inr (In-append a xs ys (inl i))
In-append a (x ∷ xs) ys (inr j) = inr (In-append a xs ys (inr j))

In-map : {A B : Type 0} (f : A → B) (a : A) (xs : List A) → In a xs → In (f a) (map f xs)
In-map f a (x ∷ xs) (inl e) = inl (ap f e)
In-map f a (x ∷ xs) (inr i) = inr (In-map f a xs i)
In-map f a [] i = elim i [ ]

module _ (fold : ℕ → ℕ) (jobs : List RunJob) where
  split_runs :
      (runs : List EnrichmentRunRow) (run : EnrichmentRunRow)
      → In run runs
      → ((job : RunJob) × In (run.id, job) (chosen_of fold jobs runs))
        ⊎ In run.id (unmatched_of fold jobs runs)
  split_runs [] run i = elim i [ ]
  split_runs (r ∷ runs) run (inl e) =
      subst
        (λ (x : EnrichmentRunRow).
          ((job : RunJob) × In (x.id, job) (chosen_of fold jobs (r ∷ runs)))
          ⊎ In x.id (unmatched_of fold jobs (r ∷ runs)))
        e
        (kept r.id (sole (select (fits fold r) jobs)) (chosen_of fold jobs runs)
          (unmatched_of fold jobs runs))
  split_runs (r ∷ runs) run (inr i) = elim (split_runs runs run i) [
    | inl (job, j) ↦ inl (job, later_chosen r.id _ (chosen_of fold jobs runs) (run.id, job) j)
    | inr j ↦ inr (later_unmatched r.id _ (unmatched_of fold jobs runs) run.id j)
  ]

  -- A run that is not among the matched ones is among the ambiguous ones.
  pub match_jobs_to_runs-covers :
      (runs : List EnrichmentRunRow) (run : EnrichmentRunRow)
      → In run runs
      → (any (λ (c : Candidate). c.0 == run.id) (match_jobs_to_runs fold runs jobs).0 ≡ true)
        ⊎ In run.id (match_jobs_to_runs fold runs jobs).1
  unfolding match_jobs_to_runs
  match_jobs_to_runs-covers runs run i =
      let chosen = chosen_of fold jobs runs in
      let lone = select (λ c. not (is_shared chosen c)) chosen in
      let shared = select (is_shared chosen) chosen in
      elim (split_runs runs run i) [
        | inr j ↦
            inr (In-add_ids run.id _ (In-append run.id (unmatched_of fold jobs runs) _ (inl j)))
        | inl (job, j) ↦ elim (Bool-cases (is_shared chosen (run.id, job))) [
          | inl t ↦ inr (
              In-add_ids run.id _ (
                In-append run.id (unmatched_of fold jobs runs) _ (
                  inr (
                    In-map (λ (c : Candidate). c.0) (run.id, job) shared
                      ((In-select (is_shared chosen) (run.id, job) chosen).1 (j, t))))))
          | inr t ↦ inl (
              put_matched_key run.id [] lone (
                inr (
                  In-any (λ (c : Candidate). c.0 == run.id) (run.id, job) lone
                    ((In-select (λ c. not (is_shared chosen c)) (run.id, job) chosen).1
                      (j, ground (arith, t)))
                    (ground arith))))
        ]
      ]
