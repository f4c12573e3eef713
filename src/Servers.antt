-- ===== src/Servers.antt =====
-- internal/handlers/servers.go: CreateServer. The child Manage has the handlers that read, change and
-- delete a server, Connect and Inject those that connect to one.
pub mod Manage
pub mod Connect
pub mod Inject
pub mod Requests
pub mod Owned
pub mod Frame
pub mod Confined
pub mod Secrets
pub mod Injected
mod Tests
use syncent.Base.{
  ℕ, String, Bool, true, false, not, ◌&&◌, ◌||◌, Option, none, some, List, [], ◌∷◌, ◌++◌, map,
  str_eq, concat, ◌==◌, if◌then◌else◌,
}
use syncent.External.{External}
use syncent.Config.{Config}
use syncent.Http.{
  Response, Request, Value, text, num, json, text_or_null, num_or_null, respond_json, respond_error,
}
use syncent.Database.{Db, Server, varchar}
use syncent.Crypto.{Result, encrypt, ok, err}
use syncent.Crypto.Keys.{KeyLib, generate_ed25519_keypair}
use syncent.Audit.{log_action}
use syncent.TwoFactor.{get_user_id, username_of, verify_action}
use syncent.Execute.{owned_server}
use syncent.Health.{server_by_id}

pub record CreateBody : Type 0 where
  pub name : String
  pub ip_address : String
  pub ssh_port : ℕ
  pub ssh_username : String
  pub connection_mode : String
  pub gsocket_secret : String
  pub location : String
  pub notes : String
  -- `none` is an array that is missing or null
  pub tags : Option (List String)
  pub expected_services : Option (List String)
  pub log_paths : Option (List String)
  pub health_check_interval : ℕ

-- What encoding/json and github.com/google/uuid do.
pub record JsonLib : Type 0 where
  pub marshal_strings : List String → String
  pub parse_uuid : String → Option String

abbrev pub or_else : String → String → String
or_else s default = if str_eq s "" then default else s

-- the defaults that a body gets, once it has passed the checks
unfoldable pub with_defaults : CreateBody → CreateBody
with_defaults b =
    let gsocket = str_eq b.connection_mode "gsocket" in
    record b {
      ssh_username = if gsocket then or_else b.ssh_username "gsocket" else b.ssh_username;
      ip_address = if gsocket then or_else b.ip_address "gsocket" else b.ip_address;
      ssh_port = if b.ssh_port == 0 then 22 else b.ssh_port;
      connection_mode = or_else b.connection_mode "direct";
      health_check_interval = if b.health_check_interval == 0 then 30 else b.health_check_interval;
      log_paths =
          let default : Option (List String) = some ("/var/log/syslog" ∷ []) in
          elim b.log_paths [
            | none ↦ default
            | some paths ↦ elim paths [ [] ↦ default | p ∷ rest ↦ some (p ∷ rest) ]
          ];
    }

abbrev pub list_or_empty : Option (List String) → List String
list_or_empty none = []
list_or_empty (some l) = l

-- the values fit their columns, and the user id is a UUID, as the empty one is not
abbrev pub fits_columns : Server → Bool
fits_columns s =
    varchar 100 s.name
    && varchar 45 s.ip_address
    && varchar 50 s.ssh_username
    && varchar 20 s.connection_mode
    && (elim s.location [ none ↦ true | some l ↦ varchar 100 l ])
    && not (str_eq s.user_id "")

-- INSERT INTO servers: it fails where a value does not fit and where the key is taken
unfoldable pub insert_server : Server → Db → Option Db
insert_server s db =
    if fits_columns s
    then (elim (server_by_id s.id db.servers) [
      | some other ↦ none
      | none ↦ some (record db { servers = db.servers ++ s ∷ [] })
    ])
    else none

abbrev pub authorized_keys_command : String → String
authorized_keys_command public_key =
    concat ("echo '" ∷ public_key ∷ "' >> ~/.ssh/authorized_keys" ∷ [])

-- the value of an encryption whose error is dropped
abbrev pub text_of : Result String → String
text_of (ok s) = s
text_of (err e) = ""

-- the row that `CreateServer` inserts
abbrev pub new_server :
    JsonLib → CreateBody → String → String → String → String → Option String → ℕ → Server
new_server lib b id user_id enc_priv pub_ssh secret now = record {
  id = id;
  user_id = user_id;
  name = b.name;
  ip_address = b.ip_address;
  ssh_port = b.ssh_port;
  ssh_username = b.ssh_username;
  connection_mode = b.connection_mode;
  encrypted_private_key = some enc_priv;
  public_key = some pub_ssh;
  os_info = none;
  kernel_info = none;
  status = "pending_setup";
  last_ping_ms = none;
  consecutive_failures = 0;
  gsocket_secret = secret;
  last_checked_at = none;
  location = some b.location;
  notes = some b.notes;
  tags = lib.marshal_strings (list_or_empty b.tags);
  expected_services = lib.marshal_strings (list_or_empty b.expected_services);
  log_paths = lib.marshal_strings (list_or_empty b.log_paths);
  health_check_interval = some b.health_check_interval;
  created_at = now;
  updated_at = now;
}

module _ (x : External) (lib : JsonLib) (c : Config) (r : Request) where
  -- from the INSERT on
  unfoldable pub store_server : CreateBody → String → String → Option String → Db → Db × Response
  store_server b enc_priv pub_ssh secret db =
      let id = x.uuid (r.random 0) in
      let row = new_server lib b id (get_user_id r.username db) enc_priv pub_ssh secret r.now in
      elim (insert_server row db) [
        | none ↦ (db, respond_error 500 "DB_ERROR" "Server creation failed.")
        | some stored ↦ (
          log_action x r.now "server_added"
              (concat ("Added: " ∷ b.name ∷ " (mode=" ∷ b.connection_mode ∷ ")" ∷ [])) (some id)
              (username_of r) r.client_ip stored,
          respond_json 201 (
              ("id", text id)
              ∷ ("name", text b.name)
              ∷ ("connection_mode", text b.connection_mode)
              ∷ (if str_eq b.connection_mode "gsocket"
                  then ("message", text "GSSocket server added. Click Test Connection to verify.")
                    ∷ []
                  else ("public_key", text pub_ssh)
                    ∷ ("message", text (authorized_keys_command pub_ssh))
                    ∷ [])),
        )
      ]

  -- once the body has passed the checks
  unfoldable pub create_checked : KeyLib → CreateBody → Db → Db × Response
  create_checked keys b db =
      if str_eq b.connection_mode "gsocket"
      then (elim (encrypt x c.master_key r.nonce b.gsocket_secret) [
        | err e ↦ (db, respond_error 500 "ENCRYPT_ERROR" "Failed to encrypt secret.")
        | ok secret ↦ store_server b "" "" (some secret) db
      ])
      else (elim (generate_ed25519_keypair keys (r.random 1)) [
        | none ↦ (db, respond_error 500 "KEY_GEN_ERROR" "Key generation failed.")
        | some (pem, public) ↦
            store_server b (text_of (encrypt x c.master_key r.nonce pem)) public none db
      ])

  -- `none` is a body that does not decode
  unfoldable pub create_server : KeyLib → Option CreateBody → Db → Db × Response
  create_server keys none db = (db, respond_error 400 "INVALID_INPUT" "Name required.")
  create_server keys (some b) db =
      if str_eq b.name ""
      then (db, respond_error 400 "INVALID_INPUT" "Name required.")
      else if str_eq b.connection_mode "gsocket"
      then (if str_eq b.gsocket_secret ""
          then (db, respond_error 400 "INVALID_INPUT" "GSSocket secret required.")
          else create_checked keys (with_defaults b) db)
      else if str_eq b.ip_address "" || str_eq b.ssh_username ""
      then (
        db,
        respond_error 400 "INVALID_INPUT"
            "IP address and SSH username required for direct connection.",
      )
      else create_checked keys (with_defaults b) db
