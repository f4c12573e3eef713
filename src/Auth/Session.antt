-- ===== src/Auth/Session.antt =====
-- Refresh tokens: issue, use and revocation in internal/handlers/auth.go.
use syncent.Base.{
  String, true, false, Option, none, some, List, [], ◌∷◌, All, ◌≡◌, ◌≢◌, ◌⊎◌, refl, sym, ◌∙◌, ap,
  subst, arith, inl, inr, Bool-cases, Option-cases, str_eq, eq_iff, ◌↔◌,
}
use syncent.External.{External}
use syncent.Config.{Config}
use syncent.Http.{Request, respond_error, respond_json}
use syncent.Database.{Db, User}
use syncent.Database.Users.{find_in, find_in-update_in, find_in-update_in_other}
use syncent.Tokens.{verify_refresh_token}
use syncent.Audit.Frame.{users-log_action}
use syncent.Auth.{LoginBody, login, refresh, logout, stored_is, set_refresh_hash}
use syncent.Auth.Login.{login_other_users}

-- What a refresh needs: a token that parses as a refresh token of a user whose row holds the hash of
-- this very token.
-- the row of a user who is not logged in, if there is one, holds no hash
abbrev NoSession : String → Db → Type 0
NoSession username db =
    (find_in username db.users ≡ none)
    ⊎ ((u : User) × (find_in username db.users ≡ some u) × (u.refresh_token_hash ≡ none))

module _ (x : External) (cfg : Config) (r : Request) where
  abbrev pub Refreshable : String → Db → Type 0
  Refreshable token db =
      (username : String) × (hash : String) × (u : User) × (verify_refresh_token x r.now token
          cfg.jwt_secret
        ≡ some (username, hash))
      × (find_in username db.users ≡ some u)
      × (u.refresh_token_hash ≡ some hash)

  stored_is_inv :
      (o : Option User) (hash : String)
      → stored_is o hash ≡ true
      → (u : User) × (o ≡ some u) × (u.refresh_token_hash ≡ some hash)
  unfolding stored_is
  stored_is_inv none hash e = cc
  stored_is_inv (some u) hash e = (u, refl, stored u.refresh_token_hash e)
    where
      stored :
          (h : Option String)
          → (elim h [ none ↦ false | some s ↦ str_eq s hash ]) ≡ true
          → h ≡ some hash
      stored none q = cc
      stored (some s) q = ap some ((eq_iff s hash).0 q)

  stored_is_of :
      (u : User) (hash : String) → u.refresh_token_hash ≡ some hash → stored_is (some u) hash ≡ true
  unfolding stored_is
  stored_is_of u hash e = rw (e, stored_is) ((eq_iff hash hash).1 refl)

  Refreshable-row :
      (token username hash : String) (db : Db)
      → verify_refresh_token x r.now token cfg.jwt_secret ≡ some (username, hash)
      → Refreshable token db
      → (u : User) × (find_in username db.users ≡ some u) × (u.refresh_token_hash ≡ some hash)
  Refreshable-row token username hash db parsed (name, h, u, parsed', found, same) =
      let pair : ◌≡◌ {A = Option (String × String)} (some (name, h)) (some (username, hash)) =
        cc (parsed, parsed') in
      let same_name : name ≡ username = cc pair in
      (u, subst (λ (s : String). find_in s db.users ≡ some u) same_name found, cc (pair, same))

  Refreshable-stored :
      (token username hash : String) (db : Db)
      → verify_refresh_token x r.now token cfg.jwt_secret ≡ some (username, hash)
      → Refreshable token db
      → stored_is (find_in username db.users) hash ≡ true
  Refreshable-stored token username hash db parsed h =
      let (u, found, same) = Refreshable-row token username hash db parsed h in
      rw found (stored_is_of u hash same)

  -- A refresh is answered 200 exactly for a token that parses as a refresh token, unexpired, for a
  -- user whose row holds the hash of that token. It never changes a table.
  pub refresh_iff :
      (token : String) (db : Db)
      → (((refresh x cfg r (some token) db).1.status ≡ 200) ↔ Refreshable token db)
        × ((refresh x cfg r (some token) db).0 ≡ db)
  unfolding refresh respond_error respond_json
  refresh_iff token db = elim (Option-cases (verify_refresh_token x r.now token cfg.jwt_secret)) [
    | inl bad ↦ (
      (λ e. absurd (omega (arith, (rw (bad, refresh) at e))), λ h. cc (bad, h.3)),
      rw (bad, refresh),
    )
    | inr ((username, hash), parsed) ↦
        elim (Bool-cases (stored_is (find_in username db.users) hash)) [
          | inl stored ↦
              let (u, found, same) = stored_is_inv (find_in username db.users) hash stored in
              (
                (λ e. (username, hash, u, parsed, found, same), λ _. rw (parsed, stored, refresh)),
                rw (parsed, stored, refresh),
              )
          | inr other ↦ (
            (
              λ e. absurd (omega (arith, (rw (parsed, other, refresh) at e))),
              λ h. cc (other, Refreshable-stored token username hash db parsed h),
            ),
            rw (parsed, other, refresh),
          )
        ]
  ]

  -- A token of a user whose row holds no hash is refused.
  refresh-NoSession :
      (token username hash : String) (db : Db)
      → verify_refresh_token x r.now token cfg.jwt_secret ≡ some (username, hash)
      → NoSession username db
      → refresh x cfg r (some token) db ≡ (db, respond_error 401 "REFRESH_REVOKED" "Token revoked.")
  unfolding refresh stored_is
  refresh-NoSession token username hash db parsed (inl missing) = rw (parsed, refresh, missing)
  refresh-NoSession token username hash db parsed (inr (u, found, cleared)) =
      rw (parsed, refresh, found, stored_is, cleared)

-- A request about sessions: a login, with its body, a refresh, with its cookie, or a logout.
pub data SessionRequest : Type 0 where
  login_request : Request → LoginBody → SessionRequest
  refresh_request : Request → Option String → SessionRequest
  logout_request : Request → SessionRequest

-- it is no login of the user
abbrev pub NoLogin : String → SessionRequest → Type 0
NoLogin username (login_request r b) = b.username ≢ username
NoLogin username (refresh_request r cookie) = Unit
NoLogin username (logout_request r) = Unit

module _ (x : External) (cfg : Config) where
  unfoldable pub handle_session : SessionRequest → Db → Db
  handle_session (login_request r b) db = (login x cfg r (some b) db).0
  handle_session (refresh_request r cookie) db = (refresh x cfg r cookie db).0
  handle_session (logout_request r) db = (logout x cfg r db).0

  -- one request after the other
  unfoldable pub handle_sessions : List SessionRequest → Db → Db
  handle_sessions [] db = db
  handle_sessions (q ∷ rest) db = handle_sessions rest (handle_session q db)

  logout-clears : (r : Request) (db : Db) → NoSession r.username (logout x cfg r db).0
  unfolding logout
  logout-clears r db =
      let row : find_in r.username (logout x cfg r db).0.users
          ≡ (elim (find_in r.username db.users) [
            | none ↦ none
            | some u ↦ some (set_refresh_hash none u)
          ]) =
        rw (logout, users-log_action)
          (find_in-update_in r.username (set_refresh_hash none) db.users (λ v. refl)) in
      elim (Option-cases (find_in r.username db.users)) [
        | inl missing ↦ inl (rw (missing) at row)
        | inr (u, found) ↦ inr (set_refresh_hash none u, rw (found) at row, refl)
      ]

  logout-NoSession :
      (r : Request) (username : String) (db : Db)
      → NoSession username db
      → NoSession username (logout x cfg r db).0
  unfolding logout
  logout-NoSession r username db h = elim (Bool-cases (str_eq r.username username)) [
    | inl same ↦
        subst (λ n. NoSession n (logout x cfg r db).0) ((eq_iff r.username username).0 same)
          (logout-clears r db)
    | inr other ↦
        let kept : find_in username (logout x cfg r db).0.users ≡ find_in username db.users =
          rw (logout, users-log_action)
            (find_in-update_in_other r.username username (set_refresh_hash none) db.users
              (λ v. refl) (λ e. cc (sym other ∙ (eq_iff r.username username).1 e))) in
        elim h [
          | inl missing ↦ inl (kept ∙ missing)
          | inr (u, found, cleared) ↦ inr (u, kept ∙ found, cleared)
        ]
  ]

  handle_session-NoSession :
      (username : String) (q : SessionRequest) (db : Db)
      → NoLogin username q
      → NoSession username db
      → NoSession username (handle_session q db)
  unfolding handle_session refresh
  handle_session-NoSession username (login_request r b) db other h =
      let kept = login_other_users x cfg r b username db other in
      elim h [
        | inl missing ↦ inl (kept ∙ missing)
        | inr (u, found, cleared) ↦ inr (u, kept ∙ found, cleared)
      ]
  handle_session-NoSession username (refresh_request r none) db other h = h
  handle_session-NoSession username (refresh_request r (some token)) db other h =
      subst (NoSession username) (sym ((refresh_iff x cfg r token db).1)) h
  handle_session-NoSession username (logout_request r) db other h = logout-NoSession r username db h

  handle_sessions-NoSession :
      (username : String) (l : List SessionRequest) (db : Db)
      → All (NoLogin username) l
      → NoSession username db
      → NoSession username (handle_sessions l db)
  unfolding handle_sessions
  handle_sessions-NoSession username [] db others h = h
  handle_sessions-NoSession username (q ∷ rest) db (other, others) h =
      handle_sessions-NoSession username rest (handle_session q db) others
        (handle_session-NoSession username q db other h)

  -- After a logout, and whatever logins of other users, refreshes and logouts follow, every refresh
  -- token of the user is refused as revoked, unexpired ones included, with the tables unchanged, as long
  -- as no request to log in as that user comes.
  pub logout_revokes :
      (s r : Request) (token hash : String) (db : Db) (later : List SessionRequest)
      → All (NoLogin s.username) later
      → verify_refresh_token x r.now token cfg.jwt_secret ≡ some (s.username, hash)
      → refresh x cfg r (some token) (handle_sessions later (logout x cfg s db).0) ≡ (
        handle_sessions later (logout x cfg s db).0,
        respond_error 401 "REFRESH_REVOKED" "Token revoked.",
      )
  logout_revokes s r token hash db later others parsed =
      refresh-NoSession x cfg r token s.username hash (handle_sessions later (logout x cfg s db).0)
        parsed
        (handle_sessions-NoSession s.username later (logout x cfg s db).0 others
          (logout-clears s db))
