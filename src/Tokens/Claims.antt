-- ===== src/Tokens/Claims.antt =====
-- Which tokens of internal/services/auth.go are good for what.
use syncent.Base.{
  ℕ, ◌+◌, ◌*◌, ◌%◌, ◌<◌, lt→ltb, String, true, none, some, ◌≡◌, refl, sym, subst, arith, inl, inr,
  Option-cases,
}
use syncent.External.{External, TokenClaims, minute}
use syncent.Tokens.{
  numeric_date, add_duration, access_claims, refresh_claims, create_access_token,
  create_refresh_token, verify_access_token, verify_refresh_token,
}

-- Documented behaviour of golang-jwt: a token that was signed with a secret parses under it, with
-- its claims, before it expires. Times of claims are whole seconds.
abbrev pub JwtLaw : External → Type 0
JwtLaw x =
    (claims : TokenClaims) (secret token : String) (now : ℕ)
    → claims.issued_at ≡ numeric_date claims.issued_at
    → claims.expires_at ≡ numeric_date claims.expires_at
    → x.jwt_sign claims secret ≡ some token
    → now < claims.expires_at
    → x.jwt_parse token secret now ≡ some (claims, true)

numeric_date-whole : (t : ℕ) → numeric_date t ≡ numeric_date (numeric_date t)
numeric_date-whole t = omega arith

-- a duration that fits an int64 does not wrap
add_duration-fits :
    (t n unit : ℕ) → n * unit < 9223372036854775808 → add_duration t n unit ≡ t + n * unit
add_duration-fits t n unit fits =
    let p : ℕ = n * unit in
    let same : p % 18446744073709551616 ≡ p = omega (arith, fits) in rw (same, lt→ltb _ _ fits) refl

module _ (x : External) (law : JwtLaw x) where
  -- An access token is good as an access token for its user until it expires, its time of expiry
  -- rounded down to a second, and never as a refresh token.
  access_token_use :
      (t draw now : ℕ) (username secret token : String) (minutes life : ℕ)
      → create_access_token x t draw username secret minutes ≡ some (token, life)
      → minutes * minute < 9223372036854775808
      → now < numeric_date (t + minutes * minute)
      → (verify_access_token x now token secret ≡ some username)
        × (verify_refresh_token x now token secret ≡ none)
        × (life ≡ minutes * 60)
  unfolding create_access_token verify_access_token verify_refresh_token
  access_token_use t draw now username secret token minutes life made fits in_time =
      elim (Option-cases (x.jwt_sign (access_claims x t draw username minutes) secret)) [
        | inl failed ↦ cc (rw (failed, create_access_token) at made)
        | inr (signed, e) ↦
            let pair : some (signed, minutes * 60) ≡ some (token, life) =
              rw (e, create_access_token) at made in
            let parsed =
              law (access_claims x t draw username minutes) secret token now (numeric_date-whole t)
                (numeric_date-whole (add_duration t minutes minute)) (cc (e, pair))
                (subst (λ (e : ℕ). now < numeric_date e)
                  (sym (add_duration-fits t minutes minute fits)) in_time) in
            (rw (parsed, verify_access_token), rw (parsed, verify_refresh_token), cc pair)
      ]

  -- A refresh token is good as a refresh token for its user until it expires, its time of expiry
  -- rounded down to a second, with the hash that was made with it, and never as an access token.
  pub refresh_token_use :
      (t draw now : ℕ) (username secret token hash : String) (days : ℕ)
      → create_refresh_token x t draw username secret days ≡ some (token, hash)
      → days * (24 * (60 * minute)) < 9223372036854775808
      → now < numeric_date (t + days * (24 * (60 * minute)))
      → (verify_refresh_token x now token secret ≡ some (username, hash))
        × (verify_access_token x now token secret ≡ none)
  unfolding create_refresh_token verify_access_token verify_refresh_token
  refresh_token_use t draw now username secret token hash days made fits in_time =
      elim (Option-cases (x.jwt_sign (refresh_claims x t draw username days) secret)) [
        | inl failed ↦ cc (rw (failed, create_refresh_token) at made)
        | inr (signed, e) ↦
            let pair : some (signed, x.sha256_hex signed) ≡ some (token, hash) =
              rw (e, create_refresh_token) at made in
            let parsed =
              law (refresh_claims x t draw username days) secret token now (numeric_date-whole t)
                (numeric_date-whole (add_duration t days (24 * (60 * minute)))) (cc (e, pair))
                (subst (λ (e : ℕ). now < numeric_date e)
                  (sym (add_duration-fits t days (24 * (60 * minute)) fits)) in_time) in
            (rw (parsed, verify_refresh_token) (cc pair), rw (parsed, verify_access_token))
      ]

  -- The tokens of a login whose durations fit an int64 of nanoseconds, before either expires, its time of expiry rounded down to a second: the
  -- access token is good as an access token for its user and never as a refresh token, the refresh
  -- token as a refresh token, with the hash that was made with it, and never as an access token.
  pub token_uses :
      (t draw draw' now : ℕ) (username secret token refresh hash : String) (minutes life days : ℕ)
      → create_access_token x t draw username secret minutes ≡ some (token, life)
      → create_refresh_token x t draw' username secret days ≡ some (refresh, hash)
      → minutes * minute < 9223372036854775808
      → now < numeric_date (t + minutes * minute)
      → days * (24 * (60 * minute)) < 9223372036854775808
      → now < numeric_date (t + days * (24 * (60 * minute)))
      → (verify_access_token x now token secret ≡ some username)
        × (verify_refresh_token x now token secret ≡ none)
        × (life ≡ minutes * 60)
        × (verify_refresh_token x now refresh secret ≡ some (username, hash))
        × (verify_access_token x now refresh secret ≡ none)
  token_uses t draw draw' now username secret token refresh hash minutes life days access renew
        short soon long later =
      let a = access_token_use t draw now username secret token minutes life access short soon in
      let r = refresh_token_use t draw' now username secret refresh hash days renew long later in
      (a.0, a.1, a.2, r.0, r.1)
