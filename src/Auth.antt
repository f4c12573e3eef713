-- ===== src/Auth.antt =====
-- internal/handlers/auth.go: login with lockout, token refresh, logout.
pub mod Lockout
pub mod Race
pub mod Login
pub mod Session
mod Tests
use Prim.Native.String.{len}
use syncent.Base.{
  ℕ, ◌+◌, ◌-◌, ◌*◌, ◌/◌, String, Bool, true, false, not, ◌&&◌, ◌||◌, Option, none, some, List, [],
  ◌∷◌, str_eq, concat, if◌then◌else◌, ltb, leb,
}
use syncent.External.{External, second, minute}
use syncent.Config.{Config}
use syncent.Http.{Response, Request, Cookie, Value, text, num, bool, respond_json, respond_error}
use syncent.Database.{Db, User}
use syncent.Database.Users.{find_in, update_in}
use syncent.Crypto.{decrypt, ok, err}
use syncent.Audit.{log_action}
use syncent.Tokens.{
  verify_password, verify_totp_with_replay, create_access_token, create_refresh_token,
  verify_refresh_token,
}

-- UPDATE users SET ... WHERE username=$1
abbrev pub update_user : String → (User → User) → Db → Db
update_user name f db = record db { users = update_in name f db.users }

abbrev pub set_failures : ℕ → User → User
set_failures n u = record u { failed_login_attempts = n }

abbrev pub set_locked : ℕ → ℕ → User → User
set_locked n until u = record u { failed_login_attempts = n; locked_until = some until }

abbrev pub clear_failures : User → User
clear_failures u = record u { failed_login_attempts = 0; locked_until = none }

abbrev pub set_refresh_hash : Option String → User → User
set_refresh_hash h u = record u { refresh_token_hash = h }

-- lockedUntil != nil && time.Now().Before(*lockedUntil)
abbrev pub is_locked : ℕ → User → Bool
is_locked now u = elim u.locked_until [ none ↦ false | some until ↦ ltb now until ]

-- storedHash != nil && *storedHash == tokenHash; a missing row leaves it nil
unfoldable pub stored_is : Option User → String → Bool
stored_is none h = false
stored_is (some u) h = elim u.refresh_token_hash [ none ↦ false | some s ↦ str_eq s h ]

pub record LoginBody : Type 0 where
  pub username : String
  pub password : String
  pub totp_code : String

abbrev pub signed_or_empty {ℓ} : {A : Type ℓ} → A → Option (String × A) → String × A
signed_or_empty a none = ("", a)
signed_or_empty a (some p) = p

module _ (x : External) where
  unfoldable pub increment_failures : ℕ → String → ℕ → String → Db → Db
  increment_failures now username new_count ip db =
      if leb 5 new_count
      then log_action x now "login_locked"
          (concat ("Locked after " ∷ x.decimal new_count ∷ " fails: " ∷ username ∷ [])) none
          (some username) ip (update_user username (set_locked new_count (now + 15 * minute)) db)
      else log_action x now "login_failed" (concat ("Failed login: " ∷ username ∷ [])) none
          (some username) ip (update_user username (set_failures new_count) db)

  abbrev pub locked_message : ℕ → User → String
  locked_message now u = concat (
      "Account locked. Try again in "
      ∷ x.decimal ((elim u.locked_until [ none ↦ 0 | some until ↦ until - now ]) / second)
      ∷ " seconds."
      ∷ [])

module _ (x : External) (cfg : Config) (r : Request) where
  -- `Login` once the second factor is accepted: reset, tokens, cookie, audit
  unfoldable pub finish_login : String → Db → Db × Response
  finish_login username db =
      let cleared = update_user username clear_failures db in
      let access = signed_or_empty 0 (
        create_access_token x r.now (r.random 0) username cfg.jwt_secret
          cfg.jwt_access_expire_min) in
      let refresh = signed_or_empty "" (
        create_refresh_token x r.now (r.random 1) username cfg.jwt_secret
          cfg.jwt_refresh_expire_days) in
      let stored = update_user username (set_refresh_hash (some refresh.1)) cleared in
      (
        log_action x r.now "login_success" (concat ("Login: " ∷ username ∷ [])) none none
            r.client_ip stored,
        record (respond_json 200 (
            ("access_token", text access.0)
            ∷ ("token_type", text "bearer")
            ∷ ("expires_in", num access.1)
            ∷ [])) {
              cookie = some (record {
                name = "refresh_token";
                value = refresh.0;
                path = "/api/auth";
                http_only = true;
                secure = cfg.enforce_https;
                same_site_strict = true;
                max_age = some (cfg.jwt_refresh_expire_days * 86400);
              });
            },
      )

  -- `Login` from the check of the one-time code
  unfoldable pub check_code : LoginBody → User → String → Db → Db × Response
  check_code b u secret db =
      let (after, accepted) = verify_totp_with_replay x r.now b.username secret b.totp_code db in
      if accepted then finish_login b.username after else (
        increment_failures x r.now b.username (u.failed_login_attempts + 1) r.client_ip after,
        respond_error 401 "AUTH_FAILED" "Invalid credentials.",
      )

  -- `Login` for a row that was found
  unfoldable pub login_user : LoginBody → User → Db → Db × Response
  unfolding check_code
  login_user b u db =
      if is_locked r.now u
      then (db, respond_error 429 "ACCOUNT_LOCKED" (locked_message x r.now u))
      else if not (verify_password x b.password u.password_hash)
      then (
        increment_failures x r.now b.username (u.failed_login_attempts + 1) r.client_ip db,
        respond_error 401 "AUTH_FAILED" "Invalid credentials.",
      )
      else if not u.is_totp_enabled
      then (db, respond_error 403 "TOTP_NOT_SETUP" "2FA not configured yet.")
      else if str_eq b.totp_code ""
      then (db, respond_error 400 "TOTP_REQUIRED" "TOTP code required.")
      else (elim (decrypt x cfg.master_key u.totp_secret_encrypted) [
        | err _ ↦ (db, respond_error 500 "DECRYPT_ERROR" "Internal error.")
        | ok secret ↦ check_code b u secret db
      ])

  -- `none` is a body that does not decode; an unknown user costs a dummy comparison
  unfoldable pub login : Option LoginBody → Db → Db × Response
  unfolding login_user
  login none db =
      (db, respond_error 400 "INVALID_INPUT" "Username, password, and TOTP code required.")
  login (some b) db = elim (find_in b.username db.users) [
    | none ↦ (db, respond_error 401 "AUTH_FAILED" "Invalid credentials.")
    | some u ↦ login_user b u db
  ]

  -- `none` is a request without the cookie
  unfoldable pub refresh : Option String → Db → Db × Response
  unfolding stored_is
  refresh none db = (db, respond_error 401 "NO_REFRESH" "No refresh token.")
  refresh (some token) db = elim (verify_refresh_token x r.now token cfg.jwt_secret) [
    | none ↦ (db, respond_error 401 "REFRESH_INVALID" "Invalid refresh token.")
    | some (username, token_hash) ↦
        if stored_is (find_in username db.users) token_hash
        then (let access = signed_or_empty 0 (
              create_access_token x r.now (r.random 0) username cfg.jwt_secret
                cfg.jwt_access_expire_min) in
            (
              db,
              respond_json 200 (
                  ("access_token", text access.0)
                  ∷ ("token_type", text "bearer")
                  ∷ ("expires_in", num access.1)
                  ∷ []),
            ))
        else (db, respond_error 401 "REFRESH_REVOKED" "Token revoked.")
  ]

  unfoldable pub logout : Db → Db × Response
  logout db = (
    log_action x r.now "logout" (concat ("Logout: " ∷ r.username ∷ [])) none none r.client_ip
        (update_user r.username (set_refresh_hash none) db),
    record (respond_json 200 (("message", text "Logged out.") ∷ [])) {
      cookie = some (record {
        name = "refresh_token";
        value = "";
        path = "/api/auth";
        http_only = true;
        secure = false;
        same_site_strict = false;
        max_age = none;
      });
    },
  )

  -- a missing row leaves the role empty
  unfoldable pub me : Db → Response
  me db = respond_json 200 (
      ("username", text r.username)
      ∷ ("role", text (elim (find_in r.username db.users) [ none ↦ "" | some u ↦ u.role ]))
      ∷ [])
