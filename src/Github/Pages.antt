-- ===== src/Github/Pages.antt =====
-- server/internal/githubapp/client.go: the loop over pages that the five listings share, on fuel.
pub mod Complete
use ghapp_demo.Base.{
  ℕ, zero, suc, Bool, true, false, List, [], ◌∷◌, ◌++◌, Option, none, some, ltb, length, map,
  if◌then◌else◌,
}
use ghapp_demo.Base.Result.{Result, ok, err}
use ghapp_demo.Github.Http.{Net, N, ClientError, Page, not_modified, fetched, Response}
use ghapp_demo.Text.{Text, is_empty}

pub data Listing (B : Type 0) : Type 0 where
  -- the items, and the ETag
  listed : List B → Text → Listing B
  unmodified : Listing B

-- `if etag == "" { etag = res.Header.Get("ETag") }`
abbrev pub etag_or : Text → Response → Text
etag_or etag res = if is_empty etag then res.etag else etag

-- The result, or `none` where the fuel ran out, and the state.
abbrev pub Run : Type 0 → Type 0 → Type 0
Run S B = Option (Result ClientError (Listing B)) × Net S

module _ {S A B : Type 0} where
  abbrev pub next_page :
      (A → B)
      → (List B → Text → Net S → Run S B)
      → List B
      → Text
      → Result ClientError (Page (List A)) × Net S
      → Run S B
  next_page item more items etag (err e, w) = (some (err e), w)
  next_page item more items etag (ok (not_modified res), w) = (some (ok unmodified), w)
  next_page item more items etag (ok (fetched res payload), w) = elim (ltb (length payload) 100) [
    | true ↦ (some (ok (listed (items ++ map item payload) (etag_or etag res))), w)
    | false ↦ more (items ++ map item payload) (etag_or etag res) w
  ]

  -- The loop at a page, with what it has gathered.
  unfoldable pub list_pages :
      ℕ → (ℕ → N S (Page (List A))) → (A → B) → ℕ → List B → Text → Net S → Run S B
  list_pages zero fetch item page items etag w = (none, w)
  list_pages (suc fuel) fetch item page items etag w =
      next_page item (list_pages fuel fetch item (suc page)) items etag (fetch page w)
