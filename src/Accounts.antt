-- ===== src/Accounts.antt =====
-- The accounts: Setup and VerifyTOTPSetup of internal/handlers/auth.go, ValidateCredentials, Register,
-- ResetPassword and UpdateAppConfig of internal/handlers/settings.go.
pub mod Laws
mod Tests
use Prim.Native.String.{len}
use syncent.Base.{
  ℕ, ◌+◌, ◌*◌, String, Bool, true, false, not, ◌&&◌, ◌||◌, Option, none, some, List, [], ◌∷◌, ◌++◌,
  str_eq, concat, codes, all, length, map, ltb, leb, if◌then◌else◌, ◌==◌,
}
use syncent.External.{External, minute}
use syncent.Config.{Config}
use syncent.Http.{Response, Request, Value, text, bool, respond_json, respond_error}
use syncent.Database.{Db, User, varchar}
use syncent.Database.Users.{find_in, update_in}
use syncent.Crypto.{Result, encrypt, decrypt, ok, err}
use syncent.Audit.{log_action}
use syncent.Tokens.{hash_password, verify_password, verify_totp}
use syncent.Auth.{update_user, set_failures, set_locked, is_locked}
use syncent.TwoFactor.{config_value, set_config, username_of}

pub record Credentials : Type 0 where
  pub username : String
  pub password : String

pub record ResetBody : Type 0 where
  pub current_password : String
  pub new_password : String
  pub totp_code : String

abbrev pub new_user : String → String → String → String → String → ℕ → User
new_user id username hash secret role now = record {
  id = id;
  username = username;
  password_hash = hash;
  totp_secret_encrypted = secret;
  is_totp_enabled = false;
  role = role;
  failed_login_attempts = 0;
  locked_until = none;
  refresh_token_hash = none;
  updated_at = now;
}

abbrev pub add_user : User → Db → Db
add_user u db = record db { users = db.users ++ u ∷ [] }

-- INSERT INTO users ... SELECT ... WHERE NOT EXISTS (SELECT 1 FROM users); `none` is an error or no row
unfoldable pub insert_first_user : User → Db → Option Db
insert_first_user u db = elim db.users [
  | [] ↦ if varchar 50 u.username then some (add_user u db) else none
  | v ∷ rest ↦ none
]

-- INSERT INTO users ...; the username is unique
unfoldable pub insert_user : User → Db → Db
insert_user u db = elim (find_in u.username db.users) [
  | some v ↦ db
  | none ↦ if varchar 50 u.username then add_user u db else db
]

abbrev pub set_totp_enabled : User → User
set_totp_enabled u = record u { is_totp_enabled = true }

abbrev pub set_password : String → ℕ → User → User
set_password hash now u = record u {
  password_hash = hash;
  refresh_token_hash = none;
  updated_at = now;
}

-- [a-zA-Z0-9_]
unfoldable pub username_char : ℕ → Bool
username_char c =
    leb b'a' c && leb c b'z' || leb b'A' c && leb c b'Z' || leb b'0' c && leb c b'9' || c == b'_'

-- the keys that `UpdateAppConfig` takes
unfoldable pub allowed_key : String → Bool
allowed_key k =
    str_eq k "allow_registration"
    || str_eq k "max_servers"
    || str_eq k "health_check_interval_default"
    || str_eq k "log_retention_days"

-- the loop of `UpdateAppConfig`
unfoldable pub update_keys :
    List (String × String) → List (String × String) → List (String × String)
update_keys [] config = config
update_keys ((k, v) ∷ rest) config =
    update_keys rest (if allowed_key k then set_config k v config else config)

abbrev with_secret : ℕ → String → String → String → Response
with_secret status m uri secret =
    record (respond_json status
      (("message", text m) ∷ ("totp_uri", text uri) ∷ ("totp_secret", text secret) ∷ [])) {
        no_store = true;
      }

abbrev or_empty : Option String → String
or_empty none = ""
or_empty (some s) = s

abbrev ok_or_empty : Result String → String
ok_or_empty (err e) = ""
ok_or_empty (ok s) = s

abbrev secret_or_empty : Option (String × String) → String × String
secret_or_empty none = ("", "")
secret_or_empty (some p) = p

module _ (x : External) (c : Config) (r : Request) where
  -- `Setup` with credentials that are given; the random source is drawn for the salt, the secret and
  -- the row's key
  unfoldable pub setup_with : Credentials → Db → Db × Response
  setup_with body db = elim (hash_password x body.password (r.random 0)) [
    | none ↦ (db, respond_error 500 "HASH_ERROR" "Failed to hash password.")
    | some hash ↦ elim (x.totp_generate body.username (r.random 1)) [
      | none ↦ (db, respond_error 500 "TOTP_ERROR" "Failed to generate TOTP.")
      | some (secret, uri) ↦ elim (encrypt x c.master_key r.nonce secret) [
        | err e ↦ (db, respond_error 500 "ENCRYPT_ERROR" "Failed to encrypt TOTP secret.")
        | ok sealed ↦
            elim (insert_first_user
              (new_user (x.uuid (r.random 2)) body.username hash sealed "admin" r.now) db) [
                | none ↦ (db, respond_error 403 "SETUP_DONE" "Admin already exists.")
                | some db' ↦ (
                  log_action x r.now "admin_setup" (concat ("Admin created: " ∷ body.username ∷ []))
                      none none r.client_ip db',
                  with_secret 201 "Admin created. Scan QR or enter secret in authenticator app." uri
                      secret,
                )
              ]
      ]
    ]
  ]

  unfoldable pub setup : Option Credentials → Db → Db × Response
  setup none db = (db, respond_error 400 "INVALID_INPUT" "Username and password required.")
  setup (some body) db =
      if str_eq body.username "" || str_eq body.password ""
      then (db, respond_error 400 "INVALID_INPUT" "Username and password required.")
      else if ltb (len body.password) 12
      then (db, respond_error 400 "WEAK_PASSWORD" "Password must be at least 12 characters.")
      else setup_with body db

  -- username, code
  unfoldable pub verify_totp_setup : Option (String × String) → Db → Db × Response
  verify_totp_setup none db =
      (db, respond_error 400 "INVALID_INPUT" "Username and TOTP code required.")
  verify_totp_setup (some (username, code)) db = elim (find_in username db.users) [
    | none ↦ (db, respond_error 404 "USER_NOT_FOUND" "User not found.")
    | some u ↦
        if u.is_totp_enabled
        then (db, respond_error 400 "TOTP_ALREADY_ENABLED" "2FA already enabled.")
        else (elim (decrypt x c.master_key u.totp_secret_encrypted) [
          | err e ↦ (db, respond_error 500 "DECRYPT_ERROR" "Internal error.")
          | ok secret ↦
              if not (verify_totp x r.now secret code)
              then (
                db,
                respond_error 400 "INVALID_TOTP" "Invalid code. Check authenticator app time sync.",
              )
              else (
                log_action x r.now "totp_enabled" (concat ("2FA enabled for " ∷ username ∷ [])) none
                    none r.client_ip (update_user username set_totp_enabled db),
                respond_json 200
                    (("message", text "2FA verified and enabled. You can now login.") ∷ []),
              )
        ])
  ]

  -- the counting of `ValidateCredentials`, without an audit entry
  unfoldable pub count_failure : ℕ → String → Db → Db
  count_failure new_fails username db =
      if leb 5 new_fails
      then update_user username (set_locked new_fails (r.now + 15 * minute)) db
      else update_user username (set_failures new_fails) db

  unfoldable pub validate_credentials : Option Credentials → Db → Db × Response
  validate_credentials none db =
      (db, respond_error 400 "INVALID_INPUT" "Username and password required.")
  validate_credentials (some body) db =
      if str_eq body.username "" || str_eq body.password ""
      then (db, respond_error 400 "INVALID_INPUT" "Username and password required.")
      else (elim (find_in body.username db.users) [
        | none ↦ (db, respond_error 401 "AUTH_FAILED" "Invalid username or password.")
        | some u ↦
            if is_locked r.now u
            then (db, respond_error 429 "ACCOUNT_LOCKED" "Account locked. Try again later.")
            else if not (verify_password x body.password u.password_hash)
            then (
              count_failure (u.failed_login_attempts + 1) body.username db,
              respond_error 401 "AUTH_FAILED" "Invalid username or password.",
            )
            else (db, respond_json 200 (("valid", bool true) ∷ []))
      ])

  -- `Register` once it is allowed and the body is read
  unfoldable pub register_with : Credentials → Db → Db × Response
  register_with body db =
      if ltb (len body.username) 3 || ltb 50 (len body.username)
      then (db, respond_error 400 "INVALID_INPUT" "Username must be 3-50 characters.")
      else if ltb (len body.password) 12
      then (db, respond_error 400 "WEAK_PASSWORD" "Password must be at least 12 characters.")
      else if not (all username_char (codes body.username))
      then (db, respond_error 400 "INVALID_INPUT" "Username: letters, numbers, underscore only.")
      else (elim (find_in body.username db.users) [
        | some u ↦ (db, respond_error 409 "USERNAME_TAKEN" "Username already exists.")
        | none ↦
            let hash = or_empty (hash_password x body.password (r.random 0)) in
            let secret = secret_or_empty (x.totp_generate body.username (r.random 1)) in
            let sealed = ok_or_empty (encrypt x c.master_key r.nonce secret.0) in
            (
              log_action x r.now "user_registered" (concat ("New user: " ∷ body.username ∷ [])) none
                  (username_of r) r.client_ip
                  (insert_user
                    (new_user (x.uuid (r.random 2)) body.username hash sealed "user" r.now) db),
              with_secret 201 "Account created. Set up 2FA to continue." secret.1 secret.0,
            )
      ])

  unfoldable pub register : Option Credentials → Db → Db × Response
  register body db =
      if not (str_eq (config_value "allow_registration" db.app_config) "true")
      then (db, respond_error 403 "REGISTRATION_DISABLED" "Registration is currently disabled.")
      else (elim body [
        | none ↦ (db, respond_error 400 "INVALID_INPUT" "Username and password required.")
        | some b ↦
            if str_eq b.username "" || str_eq b.password ""
            then (db, respond_error 400 "INVALID_INPUT" "Username and password required.")
            else register_with b db
      ])

  -- the stored hash and the secret; a missing row leaves both empty
  abbrev pub stored_hash : Option User → String
  stored_hash none = ""
  stored_hash (some u) = u.password_hash

  abbrev pub stored_secret : Option User → String
  stored_secret none = ""
  stored_secret (some u) = u.totp_secret_encrypted

  -- `ResetPassword` once the body is read
  unfoldable pub reset_with : ResetBody → Db → Db × Response
  reset_with body db =
      let u = find_in r.username db.users in
      if not (verify_password x body.current_password (stored_hash u))
      then (db, respond_error 401 "AUTH_FAILED" "Current password is wrong.")
      else if not (
          verify_totp x r.now (ok_or_empty (decrypt x c.master_key (stored_secret u)))
            body.totp_code)
      then (db, respond_error 403 "INVALID_TOTP" "Invalid TOTP code.")
      else (
        log_action x r.now "password_changed" (concat ("Password changed for " ∷ r.username ∷ []))
            none (username_of r) r.client_ip
            (update_user r.username
              (set_password (or_empty (hash_password x body.new_password (r.random 0))) r.now) db),
        respond_json 200
            (("message", text "Password changed. All sessions revoked — please login again.") ∷ []),
      )

  unfoldable pub reset_password : Option ResetBody → Db → Db × Response
  reset_password none db = (
    db,
    respond_error 400 "INVALID_INPUT" "current_password, new_password, and totp_code required.",
  )
  reset_password (some body) db =
      if str_eq body.new_password "" || str_eq body.totp_code "" || str_eq body.current_password ""
      then (
        db,
        respond_error 400 "INVALID_INPUT" "current_password, new_password, and totp_code required.",
      )
      else if ltb (len body.new_password) 12
      then (db, respond_error 400 "WEAK_PASSWORD" "New password must be at least 12 characters.")
      else reset_with body db

  -- `none` is a body that is no JSON object of texts
  unfoldable pub update_app_config : Option (List (String × String)) → Db → Db × Response
  update_app_config none db = (db, respond_error 400 "INVALID_INPUT" "JSON object required.")
  update_app_config (some body) db = (
    log_action x r.now "config_changed" "App config updated" none (username_of r) r.client_ip
        (record db { app_config = update_keys body db.app_config }),
    respond_json 200 (("message", text "Config updated.") ∷ []),
  )

unfoldable pub check_setup : Db → Response
unfolding respond_json
check_setup db = respond_json 200 (("setup_required", bool (length db.users == 0)) ∷ [])

unfoldable pub is_registration_allowed : Db → Response
unfolding respond_json
is_registration_allowed db =
    respond_json 200
      (("allowed", bool (str_eq (config_value "allow_registration" db.app_config) "true")) ∷ [])

-- the stored values over the defaults
unfoldable pub over_defaults :
    List (String × String) → List (String × String) → List (String × String)
over_defaults [] config = config
over_defaults ((k, v) ∷ rest) config = over_defaults rest (set_config k v config)

unfoldable pub get_app_config : Db → Response
unfolding respond_json over_defaults
get_app_config db = respond_json 200 (
    map (λ (p : String × String). (p.0, text p.1))
      (over_defaults db.app_config (
        ("allow_registration", "false")
        ∷ ("max_servers", "50")
        ∷ ("health_check_interval_default", "30")
        ∷ ("log_retention_days", "30")
        ∷ [])))
