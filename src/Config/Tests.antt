-- ===== src/Config/Tests.antt =====
-- A start-up with a key of 32 bytes.
use syncent.Base.{◌++◌, some, none, str_eq, folded, has_prefix, length, ◌≡◌, refl, if◌then◌else◌}
use syncent.Crypto.{encrypt, ok}
use syncent.Config.{
  Environment, load, run_security_checklist, master_key_errors, load_master_key, get_env,
  jwt_secret_errors, equal_fold, database_errors, contains, https_errors, is_dev, get_env_bool,
}
use syncent.Config.Checklist.{start_up_can_encrypt}
use syncent.Sample.{sample, key, nonce}

abbrev environment : Environment
environment = record {
  variable = λ name.
      if str_eq name "MASTER_KEY"
      then "the key"
      else if str_eq name "JWT_SECRET"
      then "0123456789abcdef0123456789abcdef"
      else if str_eq name "DATABASE_URL"
      then "postgres://db"
      else "";
  atoi = λ s. none;
  parse_bool = λ s. none;
  base64_decode = λ s. some (key ++ key);
}

start_up_can_encrypt_example :
    (length (load environment).master_key ≡ 32)
    × (encrypt sample (load environment).master_key nonce "text"
        ≡ ok (
            sample.base64_encode
              (nonce ++ sample.gcm_seal (load environment).master_key nonce (sample.bytes "text"))))
unfolding load run_security_checklist folded has_prefix master_key_errors load_master_key get_env
    jwt_secret_errors equal_fold database_errors contains https_errors is_dev get_env_bool
start_up_can_encrypt_example = start_up_can_encrypt environment sample nonce "text" refl refl
