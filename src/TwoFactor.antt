-- ===== src/TwoFactor.antt =====
-- The second factor of actions: is2FARequired, VerifyAction and Toggle2FA of
-- internal/handlers/settings.go, verifyUserTOTP and getUserID of internal/handlers/servers.go.
pub mod Laws
mod Tests
use syncent.Base.{
  ℕ, String, Bool, true, false, not, ◌&&◌, Option, none, some, List, [], ◌∷◌, str_eq, concat,
  if◌then◌else◌,
}
use syncent.External.{External}
use syncent.Config.{Config}
use syncent.Http.{Response, Request, Value, text, bool, respond_json, respond_error}
use syncent.Database.{Db, User}
use syncent.Database.Users.{find_in}
use syncent.Crypto.{Result, decrypt, ok, err}
use syncent.Audit.{log_action}
use syncent.Tokens.{verify_totp}

-- SELECT value FROM app_config WHERE key=$1; no row leaves the variable empty
unfoldable pub config_value : String → List (String × String) → String
config_value key [] = ""
config_value key ((k, v) ∷ rest) = if str_eq k key then v else config_value key rest

-- INSERT INTO app_config ... ON CONFLICT (key) DO UPDATE
unfoldable pub set_config : String → String → List (String × String) → List (String × String)
set_config key value [] = (key, value) ∷ []
set_config key value ((k, v) ∷ rest) =
    if str_eq k key then (k, value) ∷ rest else (k, v) ∷ set_config key value rest

unfoldable pub is_2fa_required : Db → Bool
unfolding config_value
is_2fa_required db = not (str_eq (config_value "require_2fa" db.app_config) "false")

unfoldable pub get_2fa_status : Db → Response
unfolding respond_json
get_2fa_status db = respond_json 200 (("required", bool (is_2fa_required db)) ∷ [])

-- no row leaves the variable empty
unfoldable pub get_user_id : String → Db → String
unfolding find_in
get_user_id username db = elim (find_in username db.users) [ none ↦ "" | some u ↦ u.id ]

abbrev pub username_of : Request → Option String
username_of r = if str_eq r.username "" then none else some r.username

-- `body.enable`, `totp_code`, `confirmation`
pub record ToggleBody : Type 0 where
  pub enable : Bool
  pub totp_code : String
  pub confirmation : String

abbrev message_only : String → List (String × Value)
message_only m = ("message", text m) ∷ []

abbrev set_2fa : String → Db → Db
set_2fa value db = record db { app_config = set_config "require_2fa" value db.app_config }

module _ (x : External) (c : Config) where
  -- The code is compared with the secret only; codes that were used before are not looked up.
  unfoldable pub verify_user_totp : ℕ → String → String → Db → Bool
  unfolding find_in decrypt verify_totp
  verify_user_totp now username code db = elim (find_in username db.users) [
    | none ↦ false
    | some u ↦ elim (decrypt x c.master_key u.totp_secret_encrypted) [
      | err e ↦ false
      | ok secret ↦ verify_totp x now secret code
    ]
  ]

  unfoldable pub verify_action : ℕ → String → String → String → String → Db → Bool
  unfolding is_2fa_required verify_user_totp
  verify_action now username totp_code confirmation confirm_text db =
      if is_2fa_required db
      then verify_user_totp now username totp_code db
      else str_eq confirmation confirm_text

  -- `none` is a body that does not decode
  unfoldable pub toggle_2fa : Request → Option ToggleBody → Db → Db × Response
  unfolding is_2fa_required verify_user_totp log_action set_config respond_json respond_error
  toggle_2fa r none db = (db, respond_error 400 "INVALID_INPUT" "Invalid request.")
  toggle_2fa r (some body) db =
      if body.enable && not (is_2fa_required db)
      then (if not (str_eq body.confirmation "ENABLE 2FA")
          then (db, respond_error 400 "CONFIRM_REQUIRED" "Type 'ENABLE 2FA' to confirm.")
          else (
            log_action x r.now "2fa_enabled" (concat ("2FA enabled by " ∷ r.username ∷ [])) none
                (username_of r) r.client_ip (set_2fa "true" db),
            respond_json 200 (message_only "2FA has been enabled."),
          ))
      else if not body.enable && is_2fa_required db
      then (if str_eq body.totp_code ""
          then (db, respond_error 400 "TOTP_REQUIRED" "TOTP code required to disable 2FA.")
          else if not (str_eq body.confirmation "DISABLE 2FA")
          then (db, respond_error 400 "CONFIRM_REQUIRED" "Type 'DISABLE 2FA' to confirm.")
          else if not (verify_user_totp r.now r.username body.totp_code db)
          then (db, respond_error 403 "INVALID_TOTP" "Invalid TOTP code.")
          else (
            log_action x r.now "2fa_disabled" (concat ("2FA disabled by " ∷ r.username ∷ [])) none
                (username_of r) r.client_ip (set_2fa "false" db),
            respond_json 200 (
                message_only
                  "2FA has been disabled. Verification will use text confirmation instead."),
          ))
      else (db, respond_json 200 (message_only "No change."))
