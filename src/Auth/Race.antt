-- ===== src/Auth/Race.antt =====
-- Requests that read a row before the others write it: `Login` of internal/handlers/auth.go reads
-- the failure count by one statement and writes it back by another.
use syncent.Base.{ℕ, ◌+◌, ◌<◌, String, false, some, List, [], ◌∷◌, leb, ◌≡◌, arith, All, subst}
use syncent.External.{External}
use syncent.Config.{Config}
use syncent.Http.{Request}
use syncent.Database.{Db, User}
use syncent.Database.Users.{find_in}
use syncent.Tokens.{verify_password}
use syncent.Auth.{LoginBody, login_user, is_locked, set_failures, increment_failures}
use syncent.Auth.Lockout.{failed_row, find_in-increment_failures}

module _ (x : External) (cfg : Config) (u : User) where
  -- requests that have all read the row `u`, and go on one after another
  pub late_logins : List (Request × LoginBody) → Db → Db
  late_logins [] db = db
  late_logins ((r, b) ∷ rest) db = late_logins rest (login_user x cfg r b u db).0

  abbrev pub LateGuess : String → Request × LoginBody → Type 0
  LateGuess name (r, b) =
      (b.username ≡ name)
      × (verify_password x b.password u.password_hash ≡ false)
      × (is_locked r.now u ≡ false)

  below_five : (n : ℕ) → n < 5 → leb 5 n ≡ false
  below_five n h = ground arith

  late_login_step :
      (name : String) (r : Request) (b : LoginBody) (v : User) (db : Db)
      → LateGuess name (r, b)
      → u.failed_login_attempts + 1 < 5
      → find_in name db.users ≡ some v
      → find_in name (login_user x cfg r b u db).0.users
        ≡ some (set_failures (u.failed_login_attempts + 1) v)
  unfolding login_user
  late_login_step name r b v db g few found =
      let n : ℕ = u.failed_login_attempts + 1 in
      let db' : Db = increment_failures x r.now b.username n r.client_ip db in
      let own : find_in b.username db.users ≡ some v = rw g.0 found in
      let counted : find_in b.username db'.users ≡ some (failed_row r.now n v) =
        find_in-increment_failures x r.now b.username r.client_ip n db v own in
      let plain : find_in b.username db'.users ≡ some (set_failures n v) =
        rw (below_five n few) at counted in
      rw (g.2, g.1)
        (subst (λ (s : String). find_in s db'.users ≡ some (set_failures n v)) g.0 plain)

  -- However many wrong passwords are tried by requests that all read the row before any of them
  -- writes it, they count as one failure, and below five failures the account stays unlocked.
  pub late_guesses_count_once :
      (name : String) (g : Request × LoginBody) (rest : List (Request × LoginBody)) (db : Db)
      → All (LateGuess name) (g ∷ rest)
      → u.failed_login_attempts + 1 < 5
      → find_in name db.users ≡ some u
      → find_in name (late_logins (g ∷ rest) db).users
        ≡ some (set_failures (u.failed_login_attempts + 1) u)
  unfolding late_logins
  late_guesses_count_once name (r, b) rest db (first, later) few found =
      go rest _ later (late_login_step name r b u db first few found)
    where
      go :
          (more : List (Request × LoginBody)) (d : Db)
          → All (LateGuess name) more
          → find_in name d.users ≡ some (set_failures (u.failed_login_attempts + 1) u)
          → find_in name (late_logins more d).users
            ≡ some (set_failures (u.failed_login_attempts + 1) u)
      go [] d _ h = h
      go ((s, c) ∷ more) d (g, gs) h =
          go more (login_user x cfg s c u d).0 gs
            (late_login_step name s c (set_failures (u.failed_login_attempts + 1) u) d g few h)
