-- ===== src/Tokens.antt =====
-- internal/services/auth.go: passwords, access and refresh tokens, one-time codes.
pub mod Replay
pub mod Claims
mod Tests
use syncent.Base.{
  ℕ, ◌+◌, ◌-◌, ◌*◌, ◌/◌, ◌%◌, String, Bool, true, false, not, ◌&&◌, Option, none, some, List, [],
  ◌∷◌, ◌++◌, str_eq, if◌then◌else◌, ltb, length,
}
use syncent.External.{External, TokenClaims, second, minute}
use syncent.Database.{Db, UsedCode, varchar}

-- `filter` with a Boolean test
unfoldable pub keep {ℓ} : {A : Type ℓ} → (A → Bool) → List A → List A
keep p [] = []
keep p (a ∷ l) = if p a then a ∷ keep p l else keep p l

-- `jwt.NewNumericDate`: whole seconds
abbrev pub numeric_date : ℕ → ℕ
numeric_date t = t / second * second

-- `t.Add(time.Duration(n) * unit)`: the product is an int64 and wraps around; a time before the epoch
-- is 0.
abbrev pub add_duration : ℕ → ℕ → ℕ → ℕ
add_duration t n unit =
    let d = n * unit % 18446744073709551616 in
    if ltb d 9223372036854775808 then t + d else t - (18446744073709551616 - d)

module _ (x : External) where
  unfoldable pub hash_password : String → ℕ → Option String
  hash_password password salt = x.bcrypt_generate (x.sha256_hex password) salt

  unfoldable pub verify_password : String → String → Bool
  verify_password password hash = x.bcrypt_compare hash (x.sha256_hex password)

  abbrev pub access_claims : ℕ → ℕ → String → ℕ → TokenClaims
  access_claims now draw username expire_minutes = record {
    username = username;
    token_type = "access";
    issued_at = numeric_date now;
    expires_at = numeric_date (add_duration now expire_minutes minute);
    id = x.uuid draw;
  }

  abbrev pub refresh_claims : ℕ → ℕ → String → ℕ → TokenClaims
  refresh_claims now draw username expire_days = record {
    username = username;
    token_type = "refresh";
    issued_at = numeric_date now;
    expires_at = numeric_date (add_duration now expire_days (24 * (60 * minute)));
    id = x.uuid draw;
  }

  -- The signed token and its life in seconds, which is taken to fit an int.
  unfoldable pub create_access_token : ℕ → ℕ → String → String → ℕ → Option (String × ℕ)
  create_access_token now draw username secret expire_minutes =
      elim (x.jwt_sign (access_claims now draw username expire_minutes) secret) [
        | none ↦ none
        | some signed ↦ some (signed, expire_minutes * 60)
      ]

  -- the signed token and its hash
  unfoldable pub create_refresh_token : ℕ → ℕ → String → String → ℕ → Option (String × String)
  create_refresh_token now draw username secret expire_days =
      elim (x.jwt_sign (refresh_claims now draw username expire_days) secret) [
        | none ↦ none
        | some signed ↦ some (signed, x.sha256_hex signed)
      ]

  unfoldable pub verify_access_token : ℕ → String → String → Option String
  verify_access_token now token secret = elim (x.jwt_parse token secret now) [
    | none ↦ none
    | some (claims, is_hmac) ↦
        if is_hmac && str_eq claims.token_type "access" then some claims.username else none
  ]

  -- the user and the hash of the token
  unfoldable pub verify_refresh_token : ℕ → String → String → Option (String × String)
  verify_refresh_token now token secret = elim (x.jwt_parse token secret now) [
    | none ↦ none
    | some (claims, _) ↦
        if str_eq claims.token_type "refresh"
        then some (claims.username, x.sha256_hex token)
        else none
  ]

  unfoldable pub verify_totp : ℕ → String → String → Bool
  verify_totp now secret code = x.totp_validate code secret now

-- WHERE username=$1 AND code=$2 AND used_at > NOW() - INTERVAL '90 seconds'
unfoldable pub recently_used : ℕ → String → String → UsedCode → Bool
recently_used now username code u =
    str_eq u.username username && str_eq u.code code && ltb now (u.used_at + 90 * second)

-- WHERE used_at < NOW() - INTERVAL '5 minutes', negated
unfoldable pub still_kept : ℕ → UsedCode → Bool
still_kept now u = not (ltb (u.used_at + 5 * minute) now)

-- INSERT INTO used_totp_codes: it fails where a value does not fit its column
unfoldable pub insert_used : ℕ → String → String → List UsedCode → List UsedCode
insert_used now username code used =
    if varchar 50 username && varchar 10 code
    then used ++ record { username = username; code = code; used_at = now } ∷ []
    else used

unfoldable pub verify_totp_with_replay : External → ℕ → String → String → String → Db → Db × Bool
unfolding recently_used still_kept insert_used keep verify_totp
verify_totp_with_replay x now username secret code db =
    if not (verify_totp x now secret code)
    then (db, false)
    else if ltb 0 (length (keep (recently_used now username code) db.used_totp_codes))
    then (db, false)
    else (
      record db {
        used_totp_codes = keep (still_kept now) (insert_used now username code db.used_totp_codes);
      },
      true,
    )
