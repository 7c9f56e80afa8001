-- ===== src/Store/Users/Sessions.antt =====
-- Sessions: who a token stands for, until when.
use ghapp_demo.Base.{
  ℕ, ◌≡◌, refl, ap, ◌∙◌, Bool, false, ◌&&◌, List, [], ◌∷◌, ◌++◌, Option, none, some, arith, ltb,
  if◌then◌else◌, any, first, Bool-cases, inl, inr,
}
use ghapp_demo.Base.Result.{ok}
use ghapp_demo.Store.Monad.{World, idle}
use ghapp_demo.Store.Monad.Invert.{query-ok, exec-ok, statement-ok, statement-idle}
use ghapp_demo.Store.Query.{delete}
use ghapp_demo.Store.Tables.{Db, SessionRow}
use ghapp_demo.Store.Users.{
  User, find_user, found_user, session_user, create_session, delete_session,
  get_user_by_session_token,
}
use ghapp_demo.Text.{Text, equal}
use ghapp_demo.Text.Laws.{equal_self}

abbrev is_live : Text → ℕ → SessionRow → Bool
is_live token now s = equal s.token token && ltb now s.expires_at

first-append_live :
    (token : Text) (now : ℕ) (new : SessionRow) (rows : List SessionRow)
    → any (λ s. equal s.token token) rows ≡ false
    → new.token ≡ token
    → first (is_live token now) (rows ++ new ∷ [])
      ≡ (if ltb now new.expires_at then some new else none)
first-append_live token now new [] h e = rw e (rw (equal_self token))
first-append_live token now new (s ∷ rows) h e =
    ground (arith, first-append_live token now new rows, h)

first-delete_live :
    (token : Text) (now : ℕ) (rows : List SessionRow)
    → first (is_live token now) (delete (λ s. equal s.token token) rows) ≡ none
first-delete_live token now [] = refl
first-delete_live token now (s ∷ rows) = elim (Bool-cases (equal s.token token)) [
  | inl same ↦ rw same (first-delete_live token now rows)
  | inr other ↦ rw other (rw other (first-delete_live token now rows))
]

get-found :
    (token : Text) (w : World) (found : Option User)
    → w.tx ≡ idle
    → (get_user_by_session_token token w).0 ≡ ok found
    → found ≡ session_user w.db (first (is_live token w.now) w.db.sessions)
unfolding get_user_by_session_token
get-found token w found t h = ground (arith, query-ok _ _ w found h)

module _ (user : ℕ) (token : Text) (expires : ℕ) (w : World)
    (created : (create_session user token expires w).0 ≡ ok tt) where
  abbrev row : SessionRow
  row = record { token = token; user_id = user; expires_at = expires }

  create-sessions :
      (any (λ s. equal s.token token) w.db.sessions ≡ false)
      × ((create_session user token expires w).1.db.sessions ≡ w.db.sessions ++ row ∷ [])
  unfolding create_session
  create-sessions = ground (arith, statement-ok _ _ w tt created)

  create-idle : w.tx ≡ idle → (create_session user token expires w).1.tx ≡ idle
  unfolding create_session
  create-idle t = statement-idle _ _ w t

  -- A session that was stored stands for its user until it expires, and for nobody from then on.
  -- The token is looked up in a later state that has the same sessions, with no transaction open.
  pub get-create :
      (w' : World) (found : Option User)
      → w'.tx ≡ idle
      → w'.db.sessions ≡ (create_session user token expires w).1.db.sessions
      → (get_user_by_session_token token w').0 ≡ ok found
      → found ≡ (if ltb w'.now expires then found_user w'.db (find_user user w'.db) else none)
  get-create w' found t same h =
      let (new, stored) = create-sessions in
      get-found token w' found t h
      ∙ ap (λ rows. session_user w'.db (first (is_live token w'.now) rows)) (same ∙ stored)
      ∙ ap (session_user w'.db) (first-append_live token w'.now row w.db.sessions new refl)
      ∙ ground arith

-- A token whose session was deleted stands for nobody.
pub get-delete :
    (token : Text) (w w' : World) (found : Option User)
    → (delete_session token w).0 ≡ ok tt
    → w'.tx ≡ idle
    → w'.db.sessions ≡ (delete_session token w).1.db.sessions
    → (get_user_by_session_token token w').0 ≡ ok found
    → found ≡ none
unfolding delete_session
get-delete token w w' found h t same k =
    get-found token w' found t k
    ∙ ap (λ rows. session_user w'.db (first (is_live token w'.now) rows))
        (same ∙ ap (λ (db : Db). db.sessions) (exec-ok _ _ w h))
    ∙ ap (session_user w'.db) (first-delete_live token w'.now w.db.sessions)
