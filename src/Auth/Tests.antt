-- ===== src/Auth/Tests.antt =====
-- The theorems about internal/handlers/auth.go at concrete users and requests, and tests.
use syncent.Base.{ℕ, ◌+◌, ◌*◌, ◌≤◌, String, some, List, [], ◌∷◌, ◌≡◌, ◌↔◌, refl, arith, ◌≢◌, eq_iff}
use syncent.External.{minute, second}
use syncent.Http.{respond_error, respond_json}
use syncent.Database.{Db}
use syncent.Database.Users.{find_in}
use syncent.Sample.Codec.{encode, decode, to_bytes, of_bytes}
use syncent.Sample.{sample, config, request, alice, bob, db}
use syncent.Tokens.{verify_totp_with_replay, verify_password, verify_refresh_token, keep}
use syncent.Crypto.{decrypt}
use syncent.Auth.{LoginBody, login, refresh, logout, set_failures, finish_login}
use syncent.Auth.Lockout.{answered, answered_bounded}
use syncent.Auth.Race.{late_logins, late_guesses_count_once}
use syncent.Auth.Login.{Admitted, logged_in, login_success, login_other_users}
use syncent.Auth.Session.{
  SessionRequest, login_request, refresh_request, handle_sessions, Refreshable, refresh_iff,
  logout_revokes,
}

abbrev noon : ℕ
noon = 1000 * minute

abbrev right : LoginBody
right = record { username = "alice"; password = "correct horse battery"; totp_code = "123456" }

abbrev wrong : LoginBody
wrong = record right { password = "guess" }

login_ok : (login sample config (request noon "") (some right) db).1.status ≡ 200
unfolding login find_in verify_password decrypt decode to_bytes of_bytes encode
    verify_totp_with_replay keep finish_login respond_json
login_ok = refl

abbrev after_login : Db
after_login = (login sample config (request noon "") (some right) db).0

login_success_example :
    (a : Admitted sample config (request noon "") right db) × (find_in "alice" after_login.users
      ≡ some (logged_in sample config (request noon "") "alice" a.user))
login_success_example = login_success sample config (request noon "") right db login_ok

alice_not_bob : ◌≢◌ {A = String} "alice" "bob"
alice_not_bob = ground (arith, eq_iff "alice" "bob")

login_other_users_example : find_in "bob" after_login.users ≡ some bob
unfolding find_in
login_other_users_example =
    login_other_users sample config (request noon "") right "bob" db alice_not_bob

answered_bounded_example :
    answered sample config
      ((request noon "", wrong)
        ∷ (request (noon + second) "", wrong)
        ∷ (request (noon + 2 * second) "", wrong)
        ∷ (request (noon + 3 * second) "", wrong)
        ∷ [])
      db
    ≤ 3
unfolding find_in verify_password
answered_bounded_example =
    answered_bounded sample config "alice" noon alice
      ((request noon "", wrong)
        ∷ (request (noon + second) "", wrong)
        ∷ (request (noon + 2 * second) "", wrong)
        ∷ (request (noon + 3 * second) "", wrong)
        ∷ [])
      db refl
      (
        (refl, refl, omega arith, omega arith),
        (
          (refl, refl, omega arith, omega arith),
          ((refl, refl, omega arith, omega arith), ((refl, refl, omega arith, omega arith), tt)),
        ),
      )

late_guesses_count_once_example :
    find_in "alice"
      (late_logins sample config alice
        ((request noon "", wrong) ∷ (request noon "", wrong) ∷ (request noon "", wrong) ∷ [])
        db).users
    ≡ some (set_failures 3 alice)
unfolding find_in verify_password
late_guesses_count_once_example =
    late_guesses_count_once sample config alice "alice" (request noon "", wrong)
      ((request noon "", wrong) ∷ (request noon "", wrong) ∷ []) db
      ((refl, refl, refl), ((refl, refl, refl), ((refl, refl, refl), tt))) (omega arith) refl

refresh_iff_example :
    (((refresh sample config (request noon "") (some "refresh token") after_login).1.status ≡ 200)
      ↔ Refreshable sample config (request noon "") "refresh token" after_login)
    × ((refresh sample config (request noon "") (some "refresh token") after_login).0 ≡ after_login)
refresh_iff_example = refresh_iff sample config (request noon "") "refresh token" after_login

abbrev later_requests : List SessionRequest
later_requests =
    login_request (request noon "") (record { username = "bob"; password = "x"; totp_code = "y" })
    ∷ refresh_request (request noon "") (some "refresh token")
    ∷ []

abbrev after_more : Db
after_more =
    handle_sessions sample config later_requests
      (logout sample config (request noon "alice") after_login).0

logout_revokes_example :
    refresh sample config (request noon "") (some "refresh token") after_more
    ≡ (after_more, respond_error 401 "REFRESH_REVOKED" "Token revoked.")
unfolding verify_refresh_token
logout_revokes_example =
    logout_revokes sample config (request noon "alice") (request noon "") "refresh token"
      "#refresh token" after_login later_requests (ground (arith, eq_iff "bob" "alice"), (tt, tt))
      refl
