-- ===== src/Config.antt =====
-- internal/config/config.go. The numbers of the configuration are taken not to be negative. The
-- environment is a function, "" for a variable that is not set.
pub mod Checklist
mod Tests
use Prim.Native.String.{len}
use syncent.Base.{
  ℕ, String, Bool, true, false, not, ◌&&◌, ◌||◌, Option, none, some, List, [], ◌∷◌, ◌++◌, length,
  any, str_eq, codes, ltb, ◌==◌, has_prefix, folded, if◌then◌else◌,
}
use syncent.Crypto.{new_cipher_ok}

pub record Config : Type 0 where
  pub database_url : String
  pub master_key : List ℕ
  pub jwt_secret : String
  pub app_env : String
  pub app_host : String
  pub app_port : String
  pub jwt_access_expire_min : ℕ
  pub jwt_refresh_expire_days : ℕ
  pub enforce_https : Bool
  pub ssh_connect_timeout : ℕ
  pub ssh_command_timeout : ℕ
  pub ssh_max_concurrent_global : ℕ
  pub ssh_max_concurrent_per_svr : ℕ
  pub health_check_failures : ℕ
  pub stale_server_days : ℕ

unfoldable pub is_dev : Config → Bool
is_dev c = str_eq c.app_env "development"

-- `strings.Contains`, on code points
unfoldable pub contains : List ℕ → List ℕ → Bool
contains [] sub = has_prefix [] sub
contains (c ∷ s) sub = has_prefix (c ∷ s) sub || contains s sub

-- `strings.EqualFold`, with a text of ASCII letters on the right
unfoldable pub equal_fold : List ℕ → List ℕ → Bool
equal_fold [] [] = true
equal_fold [] (d ∷ t) = false
equal_fold (c ∷ s) [] = false
equal_fold (c ∷ s) (d ∷ t) = folded (λ e. e == d) c && equal_fold s t

-- The environment, and the library's readings of numbers, of truth values and of base64.
pub record Environment : Type 0 where
  pub variable : String → String
  pub atoi : String → Option ℕ
  pub parse_bool : String → Option Bool
  pub base64_decode : String → Option (List ℕ)

module _ (e : Environment) where
  unfoldable pub get_env : String → String → String
  get_env key fallback = if str_eq (e.variable key) "" then fallback else e.variable key

  unfoldable pub get_env_int : String → ℕ → ℕ
  get_env_int key fallback =
      if str_eq (e.variable key) ""
      then fallback
      else (elim (e.atoi (e.variable key)) [ none ↦ fallback | some n ↦ n ])

  unfoldable pub get_env_bool : String → Bool → Bool
  get_env_bool key fallback =
      if str_eq (e.variable key) ""
      then fallback
      else (elim (e.parse_bool (e.variable key)) [ none ↦ fallback | some b ↦ b ])

  unfoldable pub load_master_key : List ℕ
  load_master_key =
      if str_eq (get_env "MASTER_KEY" "") ""
      then []
      else (elim (e.base64_decode (get_env "MASTER_KEY" "")) [
        | none ↦ []
        | some decoded ↦ if length decoded == 32 then decoded else []
      ])

  unfoldable pub load : Config
  load = record {
    database_url = get_env "DATABASE_URL" "";
    master_key = load_master_key;
    jwt_secret = get_env "JWT_SECRET" "";
    app_env = get_env "APP_ENV" "production";
    app_host = get_env "APP_HOST" "0.0.0.0";
    app_port = get_env "APP_PORT" "8000";
    jwt_access_expire_min = get_env_int "JWT_ACCESS_EXPIRE_MINUTES" 15;
    jwt_refresh_expire_days = get_env_int "JWT_REFRESH_EXPIRE_DAYS" 7;
    enforce_https = get_env_bool "ENFORCE_HTTPS" true;
    ssh_connect_timeout = get_env_int "SSH_CONNECT_TIMEOUT" 10;
    ssh_command_timeout = get_env_int "SSH_COMMAND_TIMEOUT" 30;
    ssh_max_concurrent_global = get_env_int "SSH_MAX_CONCURRENT_GLOBAL" 30;
    ssh_max_concurrent_per_svr = get_env_int "SSH_MAX_CONCURRENT_PER_SERVER" 2;
    health_check_failures = get_env_int "HEALTH_CHECK_CONSECUTIVE_FAILURES" 3;
    stale_server_days = get_env_int "STALE_SERVER_DAYS" 7;
  }

abbrev pub insecure : List String
insecure = "changeme" ∷ "secret" ∷ "password" ∷ "default" ∷ "test" ∷ "xxx" ∷ []

-- what `RunSecurityChecklist` finds; the texts are those it prints, without the advice
unfoldable pub master_key_errors : Config → List String
master_key_errors c =
    if length c.master_key == 0
    then "MASTER_KEY is not set or invalid." ∷ []
    else if new_cipher_ok c.master_key
    then []
    else "MASTER_KEY is not a valid AES-256 key." ∷ []

unfoldable pub jwt_secret_errors : Config → List String
jwt_secret_errors c =
    if str_eq c.jwt_secret ""
    then "JWT_SECRET is not set." ∷ []
    else (if any (λ v. equal_fold (codes c.jwt_secret) (codes v)) insecure
        then "JWT_SECRET is set to an insecure default." ∷ []
        else [])
      ++ (if ltb (len c.jwt_secret) 32 then "JWT_SECRET too short (min 32 chars)." ∷ [] else [])

unfoldable pub database_errors : Config → List String
database_errors c =
    if str_eq c.database_url ""
    then "DATABASE_URL is not set." ∷ []
    else if contains (codes c.database_url) (codes "changeme") && not (is_dev c)
    then "DATABASE_URL has default password. Change for production." ∷ []
    else []

unfoldable pub https_errors : Config → List String
https_errors c =
    if not (is_dev c) && not c.enforce_https
    then "ENFORCE_HTTPS is false in production. SSH credentials need HTTPS." ∷ []
    else []

-- the errors; the program ends where there is one
unfoldable pub run_security_checklist : Config → List String
run_security_checklist c =
    master_key_errors c ++ (jwt_secret_errors c ++ (database_errors c ++ https_errors c))

unfoldable pub security_warnings : Config → List String
security_warnings c =
    (if not (str_eq c.database_url "")
        && contains (codes c.database_url) (codes "changeme")
        && is_dev c
      then "DATABASE_URL has default password. OK for dev only." ∷ []
      else [])
    ++ (if is_dev c && not c.enforce_https
        then "HTTPS disabled. Only acceptable for local development." ∷ []
        else [])
