-- ===== src/Sample.antt =====
-- Concrete functions in place of the external ones, for the tests: a tagged text for a hash, a prefix
-- for a seal, two fixed tokens.
pub mod Codec
pub mod Jwt
use Prim.Native.String.{◌++◌ as str_append}
use syncent.Base.{
  ℕ, ◌+◌, ◌*◌, ◌<◌, String, Bool, true, false, Option, none, some, List, [], ◌∷◌, ◌++◌, ◌&&◌,
  str_eq, eq_iff, ◌==◌, if◌then◌else◌, ◌≡◌, refl, sym, ap, subst, subst₂, lt→ltb, arith, Bool-cases,
  inl, inr, not, ltb,
}
use syncent.External.{External, TokenClaims, minute}
use syncent.Config.{Config}
use syncent.Http.{Request}
use syncent.Database.{Db, User, Server, empty_db}
use syncent.Crypto.RoundTrip.{CipherLaws}
use Codec.{encode, decode, to_bytes, of_bytes, decode-encode, of_bytes-to_bytes}

abbrev same_claims : TokenClaims → TokenClaims → Bool
same_claims c d =
    str_eq c.username d.username
    && str_eq c.token_type d.token_type
    && c.issued_at == d.issued_at
    && c.expires_at == d.expires_at
    && str_eq c.id d.id

abbrev pub refresh_claims : TokenClaims
refresh_claims = record {
  username = "alice";
  token_type = "refresh";
  issued_at = 1000 * minute;
  expires_at = 1000 * minute + 7 * (24 * (60 * minute));
  id = "id";
}

abbrev pub access_claims : TokenClaims
access_claims = record {
  username = "alice";
  token_type = "access";
  issued_at = 1000 * minute;
  expires_at = 1000 * minute + 15 * minute;
  id = "id";
}

abbrev sign : TokenClaims → String → Option String
sign c secret =
    if same_claims c refresh_claims
    then some "refresh token"
    else if same_claims c access_claims
    then some "access token"
    else none

abbrev parse : String → String → ℕ → Option (TokenClaims × Bool)
parse token secret now =
    if str_eq token "refresh token"
    then (if ltb now refresh_claims.expires_at then some (refresh_claims, true) else none)
    else if str_eq token "access token"
    then (if ltb now access_claims.expires_at then some (access_claims, true) else none)
    else none

abbrev pub sample : External
sample = record {
  master_key_env = "";
  sha256_hex = λ s. str_append "#" s;
  hmac_sha256_hex = λ k s. str_append k (str_append "#" s);
  decimal = λ n. if n == 1 then "1" else if n == 2 then "2" else "n";
  rfc3339_nano = λ t. "t";
  bytes = to_bytes;
  text = of_bytes;
  valid_utf8 = λ b. true;
  base64_encode = encode;
  base64_decode = decode;
  gcm_seal = λ k n p. p;
  gcm_open = λ k n c. some c;
  bcrypt_generate = λ s salt. some s;
  bcrypt_compare = str_eq;
  totp_validate = λ code secret now. str_eq code secret;
  totp_generate = λ account draw. some ("secret", "otpauth://secret");
  uuid = λ draw. "id";
  jwt_sign = sign;
  jwt_parse = parse;
}

pub sample-CipherLaws : CipherLaws sample
sample-CipherLaws = record {
  base64_decode-encode = decode-encode;
  open-seal = λ k n p. refl;
  text-bytes = of_bytes-to_bytes;
}

abbrev pub key : List ℕ
key = 1 ∷ 2 ∷ 3 ∷ 4 ∷ 5 ∷ 6 ∷ 7 ∷ 8 ∷ 9 ∷ 10 ∷ 11 ∷ 12 ∷ 13 ∷ 14 ∷ 15 ∷ 16 ∷ []

abbrev pub nonce : List ℕ
nonce = 0 ∷ 0 ∷ 0 ∷ 0 ∷ 0 ∷ 0 ∷ 0 ∷ 0 ∷ 0 ∷ 0 ∷ 0 ∷ 0 ∷ []

abbrev pub config : Config
config = record {
  database_url = "postgres://db";
  master_key = key;
  jwt_secret = "0123456789abcdef0123456789abcdef";
  app_env = "production";
  app_host = "0.0.0.0";
  app_port = "8000";
  jwt_access_expire_min = 15;
  jwt_refresh_expire_days = 7;
  enforce_https = true;
  ssh_connect_timeout = 10;
  ssh_command_timeout = 30;
  ssh_max_concurrent_global = 30;
  ssh_max_concurrent_per_svr = 2;
  health_check_failures = 3;
  stale_server_days = 7;
}

abbrev pub request : ℕ → String → Request
request now username = record {
  now = now;
  client_ip = "10.0.0.1";
  username = username;
  random = λ i. i;
  nonce = nonce;
}

abbrev pub alice : User
alice = record {
  id = "1";
  username = "alice";
  password_hash = "#correct horse battery";
  totp_secret_encrypted = encode (nonce ++ to_bytes "123456");
  is_totp_enabled = true;
  role = "admin";
  failed_login_attempts = 2;
  locked_until = none;
  refresh_token_hash = none;
  updated_at = 0;
}

abbrev pub bob : User
bob = record alice { id = "2"; username = "bob"; role = "user"; failed_login_attempts = 0 }

abbrev pub db : Db
db = record empty_db { users = alice ∷ bob ∷ [] }

abbrev pub server : Server
server = record {
  id = "s1";
  user_id = "1";
  name = "web";
  ip_address = "192.0.2.1";
  ssh_port = 22;
  ssh_username = "root";
  connection_mode = "direct";
  encrypted_private_key = some "sealed key";
  public_key = none;
  os_info = none;
  kernel_info = none;
  status = "online";
  last_ping_ms = none;
  consecutive_failures = 0;
  gsocket_secret = none;
  last_checked_at = none;
  location = none;
  notes = none;
  tags = "[]";
  expected_services = "[]";
  log_paths = "[]";
  health_check_interval = some 30;
  created_at = 0;
  updated_at = 0;
}

abbrev pub db_with_server : Db
db_with_server = record db { servers = server ∷ [] }
