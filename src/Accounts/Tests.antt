-- ===== src/Accounts/Tests.antt =====
-- The accounts' handlers on a sample database.
use syncent.Base.{ℕ, ◌*◌, true, some, [], ◌∷◌, ◌≡◌, ◌≢◌, ◌⊎◌, refl}
use syncent.External.{minute}
use syncent.Http.{respond_error, respond_json}
use syncent.Database.{empty_db}
use syncent.Database.Users.{find_in}
use syncent.Crypto.{decrypt}
use syncent.Tokens.{verify_password, verify_totp, verify_refresh_token}
use syncent.Auth.{refresh}
use syncent.TwoFactor.{is_2fa_required}
use syncent.Accounts.{
  Credentials, ResetBody, setup, reset_password, reset_with, update_app_config, stored_hash,
}
use syncent.Accounts.Laws.{update_app_config_keeps_2fa, SetUp, setup_once, reset_password_revokes}
use syncent.Sample.Codec.{decode, encode, to_bytes, of_bytes}
use syncent.Sample.{sample, config, request, db}

abbrev noon : ℕ
noon = 1000 * minute

update_app_config_keeps_2fa_example :
    is_2fa_required
      (update_app_config sample config
        (request noon "alice")
        (some (("require_2fa", "false") ∷ ("max_servers", "3") ∷ []))
        db).0
    ≡ is_2fa_required db
update_app_config_keeps_2fa_example =
    update_app_config_keeps_2fa sample config (request noon "alice")
      (some (("require_2fa", "false") ∷ ("max_servers", "3") ∷ [])) db

abbrev first : Credentials
first = record { username = "root"; password = "correct horse battery" }

setup_once_example :
    (((setup sample config (request noon "") (some first) empty_db).0 ≡ empty_db)
      × ((setup sample config (request noon "") (some first) empty_db).1.status ≢ 201))
    ⊎ (SetUp sample config
          (request noon "")
          first
          empty_db
          (setup sample config (request noon "") (some first) empty_db).0
        × ((setup sample config (request noon "") (some first) empty_db).1.status ≡ 201))
setup_once_example = setup_once sample config (request noon "") first empty_db

abbrev renew : ResetBody
renew = record {
  current_password = "correct horse battery";
  new_password = "another horse battery";
  totp_code = "123456";
}

reset_password_revokes_example :
    (verify_password sample "correct horse battery"
        (stored_hash sample config (request noon "alice") (find_in "alice" db.users))
      ≡ true)
    × (refresh sample config
          (request noon "")
          (some "refresh token")
          (reset_password sample config (request noon "alice") (some renew) db).0
        ≡ (
          (reset_password sample config (request noon "alice") (some renew) db).0,
          respond_error 401 "REFRESH_REVOKED" "Token revoked.",
        ))
unfolding reset_password reset_with find_in decrypt decode encode to_bytes of_bytes verify_password
    verify_totp verify_refresh_token respond_json
reset_password_revokes_example =
    reset_password_revokes sample config (request noon "alice") renew db (request noon "")
      "refresh token" "#refresh token" refl refl
