-- ===== src/Transfer.antt =====
-- ExportConfig, exportEncrypt, exportDecrypt and deriveKey of internal/handlers/settings.go; the child
-- Import has ImportConfig.
pub mod Import
pub mod RoundTrip
pub mod Imported
mod Tests
use syncent.Base.{
  ℕ, suc, ◌+◌, String, Bool, true, false, not, ◌&&◌, ◌||◌, Option, none, some, List, [], ◌∷◌, ◌++◌,
  length, take, drop, ltb, ◌==◌, str_eq, concat, if◌then◌else◌,
}
use syncent.External.{External}
use syncent.Config.{Config}
use syncent.Http.{Response, Request, respond_error}
use syncent.Database.{Db, Server}
use syncent.Crypto.{Result, decrypt, ok, err, new_cipher_ok, nonce_size}
use syncent.Audit.{log_action}
use syncent.TwoFactor.{get_user_id, username_of, verify_user_totp}
use syncent.Servers.Manage.{servers_of}

-- golang.org/x/crypto/pbkdf2 with SHA-256, and encoding/hex
pub record ExportLib : Type 0 where
  -- text, salt, rounds, size
  pub pbkdf2 : List ℕ → List ℕ → ℕ → ℕ → List ℕ
  pub hex_encode : List ℕ → String
  pub hex_decode : String → Option (List ℕ)

module _ (x : External) (lib : ExportLib) where
  unfoldable pub derive_key : String → List ℕ
  derive_key pass = lib.pbkdf2 (x.bytes pass) (x.bytes "syncent-export-v1") 100000 32

  -- `none` is an error, as in `exportDecrypt`; `nonce` is what the random source gives
  unfoldable pub export_encrypt : List ℕ → String → String → Option String
  export_encrypt nonce plaintext pass =
      let key = derive_key pass in
      if new_cipher_ok key && length nonce == nonce_size
      then some (lib.hex_encode (nonce ++ x.gcm_seal key nonce (x.bytes plaintext)))
      else none

  -- `exportDecrypt`, once the text is decoded
  unfoldable pub open_export : List ℕ → List ℕ → Option String
  open_export key data' =
      if new_cipher_ok key
      then (if ltb (length data') nonce_size
          then none
          else (elim (x.gcm_open key (take nonce_size data') (drop nonce_size data')) [
            | none ↦ none
            | some plaintext ↦ some (x.text plaintext)
          ]))
      else none

  unfoldable pub export_decrypt : String → String → Option String
  export_decrypt hex_data pass = elim (lib.hex_decode hex_data) [
    | none ↦ none
    | some data' ↦ open_export (derive_key pass) data'
  ]

-- a server of an export file
pub record Exported : Type 0 where
  pub name : String
  pub ip_address : String
  pub ssh_port : ℕ
  pub ssh_username : String
  pub connection_mode : String
  pub location : Option String
  pub notes : Option String
  pub tags : String
  pub expected_services : String
  pub log_paths : String
  pub health_check_interval : ℕ
  pub encrypted_gsocket_secret : Option String
  pub encrypted_key : Option String
  pub public_key : Option String

pub record ExportBody : Type 0 where
  pub with_keys : Bool
  pub totp_code : String
  pub export_password : String

-- the entry without keys, with the interval that was read
abbrev pub without_keys : Server → ℕ → Exported
without_keys s interval = record {
  name = s.name;
  ip_address = s.ip_address;
  ssh_port = s.ssh_port;
  ssh_username = s.ssh_username;
  connection_mode = s.connection_mode;
  location = s.location;
  notes = s.notes;
  tags = s.tags;
  expected_services = s.expected_services;
  log_paths = s.log_paths;
  health_check_interval = interval;
  encrypted_gsocket_secret = none;
  encrypted_key = none;
  public_key = none;
}

-- *s != "" of a pointer that is not nil
abbrev pub present : Option String → Option String
present none = none
present (some s) = if str_eq s "" then none else some s

-- the secret of a server of gsocket mode
abbrev pub gsocket_text : Server → Option String
gsocket_text s = if str_eq s.connection_mode "gsocket" then present s.gsocket_secret else none

module _ (x : External) (lib : ExportLib) (c : Config) (pass : String) where
  unfoldable pub add_keys : List ℕ → Server → Exported → Exported
  add_keys nonce s e = elim (gsocket_text s) [
    | some g ↦ elim (export_encrypt x lib nonce g pass) [
      | none ↦ e
      | some sealed ↦ record e { encrypted_gsocket_secret = some sealed }
    ]
    | none ↦ elim (present s.encrypted_private_key) [
      | none ↦ e
      | some key ↦ elim (decrypt x c.master_key key) [
        | err q ↦ e
        | ok plain ↦ record e {
          encrypted_key = export_encrypt x lib nonce plain pass;
          public_key = s.public_key;
        }
      ]
    ]
  ]

  unfoldable pub export_row : Bool → List ℕ → Server → ℕ → Exported
  export_row with_keys nonce s interval =
      if with_keys then add_keys nonce s (without_keys s interval) else without_keys s interval

  -- The loop over the rows, with a nonce for each. An interval that is NULL fails the Scan, which
  -- ends the rows; the columns after it stay empty.
  unfoldable pub export_rows : Bool → (ℕ → List ℕ) → ℕ → List Server → List Exported
  export_rows with_keys nonces i [] = []
  export_rows with_keys nonces i (s ∷ rest) =
      let others = export_rows with_keys nonces (suc i) rest in
      elim s.health_check_interval [
        | none ↦ without_keys s 0 ∷ []
        | some interval ↦ export_row with_keys (nonces i) s interval ∷ others
      ]

pub data ExportAnswer : Type 0 where
  export_refused : Response → ExportAnswer
  -- whether with keys, and the servers
  exported : Bool → List Exported → ExportAnswer

abbrev pub bool_text : Bool → String
bool_text true = "true"
bool_text false = "false"

module _ (x : External) (lib : ExportLib) (c : Config) (r : Request) (nonces : ℕ → List ℕ)
    (by_name : List Server → List Server) where
  -- the refusal of an export with keys
  unfoldable pub export_refusal : ExportBody → Db → Option Response
  export_refusal body db =
      if not body.with_keys
      then none
      else if str_eq body.totp_code "" || str_eq body.export_password ""
      then some (
          respond_error 400 "INVALID_INPUT"
            "with_keys requires totp_code and export_password params.")
      else if verify_user_totp x c r.now r.username body.totp_code db
      then none
      else some (respond_error 403 "INVALID_TOTP" "Invalid TOTP code.")

  -- the body is what could be decoded of it; `by_name` is the order of the database's collation
  unfoldable pub export_config : ExportBody → Db → Db × ExportAnswer
  export_config body db = elim (export_refusal body db) [
    | some response ↦ (db, export_refused response)
    | none ↦
        let rows = by_name (servers_of (get_user_id r.username db) db.servers) in
        let servers = export_rows x lib c body.export_password body.with_keys nonces 0 rows in
        (
          log_action x r.now "config_exported"
              (concat (
                x.decimal (length servers)
                ∷ " servers exported (keys: "
                ∷ bool_text body.with_keys
                ∷ ")"
                ∷ []))
              none (username_of r) r.client_ip db,
          exported body.with_keys servers,
        )
  ]
