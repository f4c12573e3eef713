-- ===== src/Auth/Login.antt =====
-- What a successful login has checked, and what it does to the tables.
use syncent.Base.{
  ◌+◌, String, true, false, some, ◌≡◌, ◌≢◌, refl, arith, inl, inr, Bool-cases, Option-cases, str_eq,
  ◌⊎◌,
}
use syncent.External.{External}
use syncent.Config.{Config}
use syncent.Http.{Response, Request, respond_error}
use syncent.Database.{Db, User}
use syncent.Database.Users.{find_in, update_in, find_in-update_in, find_in-update_in_other}
use syncent.Crypto.{Result, CryptoError, decrypt, ok, err}
use syncent.Tokens.{verify_password, verify_totp, create_refresh_token}
use syncent.Tokens.Replay.{seen, recorded, verify_totp_with_replay_cases}
use syncent.Audit.Frame.{users-log_action}
use syncent.Auth.{
  LoginBody, login, login_user, check_code, finish_login, is_locked, clear_failures,
  set_refresh_hash, signed_or_empty,
}
use syncent.Auth.Lockout.{find_in-increment_failures_other}

module _ (x : External) (cfg : Config) (r : Request) where
  -- the hash of the refresh token that a login issues
  abbrev pub issued_hash : String → String
  issued_hash username =
      (signed_or_empty "" (
        create_refresh_token x r.now (r.random 1) username cfg.jwt_secret
          cfg.jwt_refresh_expire_days)).1

  -- the row after a successful login
  abbrev pub logged_in : String → User → User
  logged_in username u = set_refresh_hash (some (issued_hash username)) (clear_failures u)

  -- Everything that `Login` checks before it answers 200.
  pub record Admitted (b : LoginBody) (db : Db) : Type 0 where
    pub user : User
    pub secret : String
    pub found : find_in b.username db.users ≡ some user
    pub unlocked : is_locked r.now user ≡ false
    pub password_right : verify_password x b.password user.password_hash ≡ true
    pub enabled : user.is_totp_enabled ≡ true
    pub code_given : str_eq b.totp_code "" ≡ false
    pub decrypted : decrypt x cfg.master_key user.totp_secret_encrypted ≡ ok secret
    pub code_valid : verify_totp x r.now secret b.totp_code ≡ true
    pub code_fresh : seen r.now b.username b.totp_code db ≡ false

  check_code_inv :
      (b : LoginBody) (u : User) (secret : String) (db : Db)
      → (check_code x cfg r b u secret db).1.status ≡ 200
      → (verify_totp x r.now secret b.totp_code ≡ true)
        × (seen r.now b.username b.totp_code db ≡ false)
        × (check_code x cfg r b u secret db
            ≡ finish_login x cfg r b.username (recorded r.now b.username b.totp_code db))
  unfolding check_code respond_error
  check_code_inv b u secret db e =
      elim (verify_totp_with_replay_cases x r.now b.username secret b.totp_code db) [
        | inl refused ↦ absurd (omega (arith, (rw (refused, check_code) at e)))
        | inr (valid, fresh, accepted) ↦ (valid, fresh, rw (accepted, check_code))
      ]

  Result-cases :
      (q : Result String) → ((s : String) × (q ≡ ok s)) ⊎ ((c : CryptoError) × (q ≡ err c))
  Result-cases (ok s) = inl (s, refl)
  Result-cases (err c) = inr (c, refl)

  module _ (b : LoginBody) (db : Db) where
    abbrev Success : Db × Response → Type 0
    Success p =
        Admitted b db
        × (p ≡ finish_login x cfg r b.username (recorded r.now b.username b.totp_code db))

    login_user_inv :
        (u : User)
        → find_in b.username db.users ≡ some u
        → (login_user x cfg r b u db).1.status ≡ 200
        → Success (login_user x cfg r b u db)
    unfolding login_user respond_error
    login_user_inv u found e = elim (Bool-cases (is_locked r.now u)) [
      | inl locked ↦ absurd (omega (arith, (rw (locked, login_user) at e)))
      | inr unlocked ↦ elim (Bool-cases (verify_password x b.password u.password_hash)) [
        | inr wrong ↦ absurd (omega (arith, (rw (unlocked, wrong, login_user) at e)))
        | inl right ↦ elim (Bool-cases u.is_totp_enabled) [
          | inr off ↦ absurd (omega (arith, (rw (unlocked, right, off, login_user) at e)))
          | inl on ↦ elim (Bool-cases (str_eq b.totp_code "")) [
            | inl empty ↦ absurd (omega (arith, (rw (unlocked, right, on, empty, login_user) at e)))
            | inr given ↦ elim (Result-cases (decrypt x cfg.master_key u.totp_secret_encrypted)) [
              | inr (c, fails) ↦
                  absurd (omega (arith, (rw (unlocked, right, on, given, fails, login_user) at e)))
              | inl (secret, plain) ↦
                  let reached : (check_code x cfg r b u secret db).1.status ≡ 200 =
                    rw (unlocked, right, on, given, plain, login_user) at e in
                  let (valid, fresh, same) = check_code_inv b u secret db reached in
                  (
                    record {
                      user = u;
                      secret = secret;
                      found = found;
                      unlocked = unlocked;
                      password_right = right;
                      enabled = on;
                      code_given = given;
                      decrypted = plain;
                      code_valid = valid;
                      code_fresh = fresh;
                    },
                    rw (unlocked, right, on, given, plain, login_user) same,
                  )
            ]
          ]
        ]
      ]
    ]

    login_inv : (login x cfg r (some b) db).1.status ≡ 200 → Success (login x cfg r (some b) db)
    unfolding login respond_error
    login_inv e = elim (Option-cases (find_in b.username db.users)) [
      | inl missing ↦ absurd (omega (arith, (rw (missing, login) at e)))
      | inr (u, found) ↦ rw (found, login) (login_user_inv u found (rw (found, login) at e))
    ]

  finish_login_row :
      (username : String) (db : Db) (u : User)
      → find_in username db.users ≡ some u
      → find_in username (finish_login x cfg r username db).0.users ≡ some (logged_in username u)
  unfolding finish_login
  finish_login_row username db u found = rw (
    users-log_action,
    find_in-update_in username (set_refresh_hash (some (issued_hash username)))
        (update_in username clear_failures db.users) (λ v. refl),
    find_in-update_in username clear_failures db.users (λ v. refl),
    found,
  )

  finish_login_other :
      (username other : String) (db : Db)
      → username ≢ other
      → find_in other (finish_login x cfg r username db).0.users ≡ find_in other db.users
  unfolding finish_login
  finish_login_other username other db differs = rw (
    users-log_action,
    find_in-update_in_other username other (set_refresh_hash (some (issued_hash username)))
        (update_in username clear_failures db.users) (λ v. refl) differs,
    find_in-update_in_other username other clear_failures db.users (λ v. refl) differs,
  )

  -- A login is answered 200 only for a stored user whose account is not locked, with the right
  -- password, two-factor set up, and a one-time code that the user's decrypted secret validates and
  -- that is not on record for the last 90 seconds. The user's row then has no failures, no lock and
  -- the hash of the new refresh token, and is otherwise unchanged.
  pub login_success :
      (b : LoginBody) (db : Db)
      → (login x cfg r (some b) db).1.status ≡ 200
      → (a : Admitted b db) × (find_in b.username (login x cfg r (some b) db).0.users
          ≡ some (logged_in b.username a.user))
  login_success b db e =
      let (a, same) = login_inv b db e in
      (
        a,
        rw same
            (finish_login_row b.username (recorded r.now b.username b.totp_code db) a.user a.found),
      )

  check_code_other :
      (b : LoginBody) (u : User) (secret other : String) (db : Db)
      → b.username ≢ other
      → find_in other (check_code x cfg r b u secret db).0.users ≡ find_in other db.users
  unfolding check_code
  check_code_other b u secret other db differs =
      elim (verify_totp_with_replay_cases x r.now b.username secret b.totp_code db) [
        | inl refused ↦
            rw (refused, check_code)
              (find_in-increment_failures_other x r.now b.username r.client_ip
                (u.failed_login_attempts + 1) db other differs)
        | inr (_, _, accepted) ↦
            rw (accepted, check_code)
              (finish_login_other b.username other (recorded r.now b.username b.totp_code db)
                differs)
      ]

  login_user_other :
      (b : LoginBody) (u : User) (other : String) (db : Db)
      → b.username ≢ other
      → find_in other (login_user x cfg r b u db).0.users ≡ find_in other db.users
  unfolding login_user
  login_user_other b u other db differs =
      let counted =
        find_in-increment_failures_other x r.now b.username r.client_ip
          (u.failed_login_attempts + 1) db other differs in
      elim (Result-cases (decrypt x cfg.master_key u.totp_secret_encrypted)) [
        | inl (secret, plain) ↦
            ground (arith, plain, counted, check_code_other b u secret other db differs)
        | inr (c, fails) ↦ ground (arith, fails, counted)
      ]

  -- Whatever its answer, a login changes the row of no user but the one it names.
  pub login_other_users :
      (b : LoginBody) (other : String) (db : Db)
      → b.username ≢ other
      → find_in other (login x cfg r (some b) db).0.users ≡ find_in other db.users
  unfolding login
  login_other_users b other db differs = elim (Option-cases (find_in b.username db.users)) [
    | inl missing ↦ rw (missing, login)
    | inr (u, found) ↦ rw (found, login) (login_user_other b u other db differs)
  ]
