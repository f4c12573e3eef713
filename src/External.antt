-- ===== src/External.antt =====
-- What the program calls and does not implement: hashes, ciphers, bcrypt, TOTP, JSON Web Tokens,
-- the text forms of numbers and times, and the process environment. Random bytes are an argument
-- of the calls that draw them. Times are nanoseconds since the epoch.
use syncent.Base.{ℕ, ◌*◌, String, Bool, Option, List}

abbrev pub second : ℕ
second = 1000000000

abbrev pub minute : ℕ
minute = 60 * second

-- `TokenClaims` of internal/services/auth.go
pub record TokenClaims : Type 0 where
  pub username : String
  pub token_type : String
  pub issued_at : ℕ
  pub expires_at : ℕ
  pub id : String

pub record External : Type 0 where
  pub master_key_env : String
  pub sha256_hex : String → String
  pub hmac_sha256_hex : String → String → String
  pub decimal : ℕ → String
  pub rfc3339_nano : ℕ → String
  pub bytes : String → List ℕ
  pub text : List ℕ → String
  -- unicode/utf8: whether bytes are the UTF-8 of a text
  pub valid_utf8 : List ℕ → Bool
  pub base64_encode : List ℕ → String
  pub base64_decode : String → Option (List ℕ)
  -- AES-GCM: key, nonce, text
  pub gcm_seal : List ℕ → List ℕ → List ℕ → List ℕ
  pub gcm_open : List ℕ → List ℕ → List ℕ → Option (List ℕ)
  -- text, salt
  pub bcrypt_generate : String → ℕ → Option String
  -- hash, text
  pub bcrypt_compare : String → String → Bool
  -- code, secret, time
  pub totp_validate : String → String → ℕ → Bool
  -- account, random bytes; the result is the secret and its URL
  pub totp_generate : String → ℕ → Option (String × String)
  pub uuid : ℕ → String
  -- claims, secret
  pub jwt_sign : TokenClaims → String → Option String
  -- token, secret, time: the claims of a token whose signature holds and that has not expired, and
  -- whether its method is HMAC
  pub jwt_parse : String → String → ℕ → Option (TokenClaims × Bool)
