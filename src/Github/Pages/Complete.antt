-- ===== src/Github/Pages/Complete.antt =====
-- server/internal/githubapp/client.go: the loop over pages against a server that has a list of
-- items and gives each page of it.
use ghapp_demo.Base.{
  ℕ, zero, suc, ◌+◌, ◌*◌, ◌<◌, ◌≡◌, refl, sym, ap, subst, ◌∙◌, true, false, List, [], ◌∷◌, ◌++◌,
  some, arith, ltb, length, take, drop, take_short, take-drop, drop_add, length-take-drop, map,
  append_assoc, Bool-cases, ltb→lt, ltb_false→le, inl, inr,
}
use ghapp_demo.Base.Result.{ok}
use ghapp_demo.Github.Http.{Net, N, Page, fetched, Response}
use ghapp_demo.Github.Pages.{next_page, list_pages, listed, etag_or, Run}
use ghapp_demo.Text.{Text}

-- The items of page p + 1.
abbrev pub slice : {A : Type 0} → ℕ → List A → List A
slice p all = take 100 (drop (p * 100) all)

-- In every state of the invariant, every page is answered with its items, and the invariant stays.
abbrev pub Serves : {S A : Type 0} → (Net S → Type 0) → (ℕ → N S (Page (List A))) → List A → Type 0
Serves {S} I fetch all =
    (p : ℕ) (w : Net S)
    → I w
    → (res : Response) × (w' : Net S) × (fetch (suc p) w ≡ (ok (fetched res (slice p all)), w'))
      × I w'

-- The loop has ended with these items.
abbrev pub Lists : {S B : Type 0} → (Net S → Type 0) → Run S B → List B → Type 0
Lists {S} I r items =
    (etag : Text) × (w' : Net S) × (r ≡ (some (ok (listed items etag)), w')) × I w'

map_append : {A B : Type 0} (f : A → B) (xs ys : List A) → map f (xs ++ ys) ≡ map f xs ++ map f ys
map_append f [] ys = refl
map_append f (x ∷ xs) ys = ap (◌∷◌ (f x)) (map_append f xs ys)

module _ {S A B : Type 0} (item : A → B) (more : List B → Text → Net S → Run S B) (items : List B)
    (etag : Text) (res : Response) (payload : List A) (w : Net S) where
  next_page_short :
      ltb (length payload) 100 ≡ true
      → next_page item more items etag (ok (fetched res payload), w)
        ≡ (some (ok (listed (items ++ map item payload) (etag_or etag res))), w)
  next_page_short h = rw (h, next_page) refl

  next_page_full :
      ltb (length payload) 100 ≡ false
      → next_page item more items etag (ok (fetched res payload), w)
        ≡ more (items ++ map item payload) (etag_or etag res) w
  next_page_full h = rw (h, next_page) refl

module _ {S A B : Type 0} (I : Net S → Type 0) (fetch : ℕ → N S (Page (List A))) (item : A → B)
    (all : List A) (serves : Serves I fetch all) where
  -- What the pages from p + 1 on have.
  abbrev left : ℕ → List A
  left p = drop (p * 100) all

  left_next : (p : ℕ) → left (suc p) ≡ drop 100 (left p)
  left_next p =
      let e : suc p * 100 ≡ p * 100 + 100 = omega arith in
      ap (λ k. drop k all) e ∙ drop_add (p * 100) 100 all

  gathered :
      (p : ℕ) (items : List B)
      → (items ++ map item (slice p all)) ++ map item (left (suc p)) ≡ items ++ map item (left p)
  gathered p items =
      append_assoc items _ _
      ∙ ap (◌++◌ items) (
          sym (map_append item (slice p all) (left (suc p)))
          ∙ ap (map item) (ap (◌++◌ (slice p all)) (left_next p) ∙ take-drop 100 (left p)))

  left-suc : (p : ℕ) → length (slice p all) + length (left (suc p)) ≡ length (left p)
  left-suc p =
      ap (λ xs. length (slice p all) + length xs) (left_next p) ∙ length-take-drop 100 (left p)

  short : (p : ℕ) → ltb (length (slice p all)) 100 ≡ true → slice p all ≡ left p
  short p h = take_short 100 (left p) (ltb→lt _ 100 h)

  fuel_left :
      (fuel p : ℕ)
      → ltb (length (slice p all)) 100 ≡ false
      → length (left p) < suc fuel * 100
      → length (left (suc p)) < fuel * 100
  fuel_left fuel p k h = omega (arith, left-suc p, ltb_false→le (length (slice p all)) 100 k, h)

  list_pages-from :
      (fuel p : ℕ) (items : List B) (etag : Text) (w : Net S)
      → I w
      → length (left p) < fuel * 100
      → Lists I (list_pages fuel fetch item (suc p) items etag w) (items ++ map item (left p))
  unfolding list_pages
  list_pages-from zero p items etag w i h = ground arith
  list_pages-from (suc fuel) p items etag w i h =
      let (res, w', e, i') = serves p w i in
      let more : List B → Text → Net S → Run S B = list_pages fuel fetch item (suc (suc p)) in
      elim (Bool-cases (ltb (length (slice p all)) 100)) [
        | inl k ↦ (
          etag_or etag res,
          w',
          ap (next_page item more items etag) e
              ∙ next_page_short item more items etag res (slice p all) w' k
              ∙ ap (λ xs. (some (ok (listed (items ++ map item xs) (etag_or etag res))), w'))
                  (short p k),
          i',
        )
        | inr k ↦
            subst (λ r. Lists I r (items ++ map item (left p)))
              (sym (
                ap (next_page item more items etag) e
                ∙ next_page_full item more items etag res (slice p all) w' k))
              (subst (Lists I _) (gathered p items) (
                list_pages-from fuel (suc p) (items ++ map item (slice p all)) (etag_or etag res) w'
                  i' (fuel_left fuel p k h)))
      ]

  -- If in every state of an invariant the server answers each page with its hundred items, keeping
  -- the invariant, then the loop ends within as many turns as there are full pages and one more,
  -- having listed every item once and in order.
  pub list_pages-Lists :
      (fuel : ℕ) (etag : Text) (w : Net S)
      → I w
      → length all < fuel * 100
      → Lists I (list_pages fuel fetch item 1 [] etag w) (map item all)
  list_pages-Lists fuel etag w i h = list_pages-from fuel 0 [] etag w i h
