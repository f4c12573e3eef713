-- ===== src/Auth/Lockout.antt =====
-- Wrong passwords lock the account: `Login` and `incrementFailures` of internal/handlers/auth.go.
use syncent.Base.{
  ℕ, ◌+◌, ◌-◌, ◌*◌, ◌≤◌, ◌<◌, max, String, true, false, some, List, [], ◌∷◌, leb, lt→ltb, ◌==◌,
  if◌then◌else◌, ◌≡◌, ◌≢◌, refl, subst, arith, inl, inr, Bool-cases, All,
}
use syncent.External.{External, minute}
use syncent.Config.{Config}
use syncent.Http.{Request, respond_error}
use syncent.Database.{Db, User}
use syncent.Database.Users.{find_in, update_in, find_in-update_in, find_in-update_in_other}
use syncent.Tokens.{verify_password}
use syncent.Audit.Frame.{users-log_action}
use syncent.Auth.{
  LoginBody, login, login_user, increment_failures, is_locked, set_failures, set_locked,
  locked_message,
}

-- the row after one more failure
abbrev pub failed_row : ℕ → ℕ → User → User
failed_row now n = if leb 5 n then set_locked n (now + 15 * minute) else set_failures n

module _ (x : External) (now : ℕ) (username ip : String) (n : ℕ) (db : Db) where
  pub users-increment_failures :
      (increment_failures x now username n ip db).users
      ≡ update_in username (failed_row now n) db.users
  unfolding increment_failures
  users-increment_failures = elim (Bool-cases (leb 5 n)) [
    | inl many ↦ rw (many, users-log_action)
    | inr few ↦ rw (few, users-log_action)
  ]

  failed_row-username : (u : User) → (failed_row now n u).username ≡ u.username
  failed_row-username u = ground arith

  -- a failure reaches the row that it is for
  pub find_in-increment_failures :
      (u : User)
      → find_in username db.users ≡ some u
      → find_in username (increment_failures x now username n ip db).users
        ≡ some (failed_row now n u)
  find_in-increment_failures u found = rw (
    users-increment_failures,
    find_in-update_in username (failed_row now n) db.users failed_row-username,
    found,
  )

  -- and no other
  pub find_in-increment_failures_other :
      (other : String)
      → username ≢ other
      → find_in other (increment_failures x now username n ip db).users ≡ find_in other db.users
  find_in-increment_failures_other other differs = rw users-increment_failures (
      find_in-update_in_other username other (failed_row now n) db.users failed_row-username
        differs)

few_lem : (n : ℕ) → leb 5 n ≡ false → n < 5
few_lem n h = ground arith

module _ (x : External) (cfg : Config) where
  login-found :
      (r : Request) (b : LoginBody) (u : User) (db : Db)
      → find_in b.username db.users ≡ some u
      → login x cfg r (some b) db ≡ login_user x cfg r b u db
  unfolding login
  login-found r b u db found = rw (found, login)

  -- A locked account refuses every login, the right password included, and nothing changes.
  pub login-locked :
      (r : Request) (b : LoginBody) (u : User) (db : Db)
      → find_in b.username db.users ≡ some u
      → is_locked r.now u ≡ true
      → login x cfg r (some b) db
        ≡ (db, respond_error 429 "ACCOUNT_LOCKED" (locked_message x r.now u))
  unfolding login_user
  login-locked r b u db found locked = rw (login-found r b u db found, locked)

  login-wrong :
      (r : Request) (b : LoginBody) (u : User) (db : Db)
      → find_in b.username db.users ≡ some u
      → is_locked r.now u ≡ false
      → verify_password x b.password u.password_hash ≡ false
      → login x cfg r (some b) db ≡ (
        increment_failures x r.now b.username (u.failed_login_attempts + 1) r.client_ip db,
        respond_error 401 "AUTH_FAILED" "Invalid credentials.",
      )
  unfolding login_user
  login-wrong r b u db found open' wrong = rw (login-found r b u db found, open', wrong)

  -- requests that guess at one account, none of them right
  abbrev pub Guess : String → String → ℕ → Request × LoginBody → Type 0
  Guess name hash start (r, b) =
      (b.username ≡ name)
      × (verify_password x b.password hash ≡ false)
      × (start ≤ r.now)
      × (r.now < start + 15 * minute)

  -- how many of the requests, one after another, have their password looked at
  pub answered : List (Request × LoginBody) → Db → ℕ
  answered [] db = 0
  answered ((r, b) ∷ rest) db =
      let (db', response) = login x cfg r (some b) db in
      (if response.status == 401 then 1 else 0) + answered rest db'

  answered-locked :
      (name : String) (start : ℕ) (u : User) (guesses : List (Request × LoginBody)) (db : Db)
      (until : ℕ)
      → find_in name db.users ≡ some u
      → u.locked_until ≡ some until
      → start + 15 * minute ≤ until
      → All (Guess name u.password_hash start) guesses
      → answered guesses db ≡ 0
  unfolding answered respond_error
  answered-locked name start u [] db until found locked late _ = refl
  answered-locked name start u ((r, b) ∷ rest) db until found locked late (g, gs) =
      let found' : find_in b.username db.users ≡ some u = rw g.0 found in
      let shut : is_locked r.now u ≡ true = rw locked (lt→ltb _ _ (omega arith)) in
      rw (login-locked r b u db found' shut)
        (omega (arith, answered-locked name start u rest db until found locked late gs))

  -- Of the wrong passwords tried for one account within fifteen minutes, one after another, at most
  -- five are compared with the stored one, fewer by the failures already counted, but at least one.
  pub answered_bounded :
      (name : String) (start : ℕ) (u : User) (guesses : List (Request × LoginBody)) (db : Db)
      → find_in name db.users ≡ some u
      → All (Guess name u.password_hash start) guesses
      → answered guesses db ≤ max 1 (5 - u.failed_login_attempts)
  unfolding answered respond_error
  answered_bounded name start u [] db found _ = omega arith
  answered_bounded name start u ((r, b) ∷ rest) db found (g, gs) =
      let found' : find_in b.username db.users ≡ some u = rw g.0 found in
      elim (Bool-cases (is_locked r.now u)) [
        | inl locked ↦
            rw (login-locked r b u db found' locked)
              (omega (arith, answered_bounded name start u rest db found gs))
        | inr open' ↦
            let n : ℕ = u.failed_login_attempts + 1 in
            let db' : Db = increment_failures x r.now b.username n r.client_ip db in
            let counted : find_in name db'.users ≡ some (failed_row r.now n u) =
              subst (λ (s : String). find_in s db'.users ≡ some (failed_row r.now n u)) g.0
                (find_in-increment_failures x r.now b.username r.client_ip n db u found') in
            rw (login-wrong r b u db found' open' g.1) (elim (Bool-cases (leb 5 n)) [
              | inl many ↦
                  let v : User = set_locked n (r.now + 15 * minute) u in
                  omega (
                    arith,
                    answered-locked name start v rest db' (r.now + 15 * minute) (rw many at counted)
                        refl (omega arith) gs,
                  )
              | inr few ↦ omega (
                arith,
                answered_bounded name start (set_failures n u) rest db' (rw few at counted) gs,
                few_lem n few,
              )
            ])
      ]
