-- ===== src/Transfer/Import.antt =====
-- ImportConfig of internal/handlers/settings.go.
use syncent.Base.{
  ℕ, suc, ◌+◌, ◌*◌, String, Bool, ◌||◌, Option, none, some, List, [], ◌∷◌, codes, has_prefix,
  str_eq, concat, ltb, if◌then◌else◌,
}
use syncent.External.{External}
use syncent.Config.{Config}
use syncent.Http.{Response, Request, text, num, respond_json, respond_error}
use syncent.Database.{Db, Server}
use syncent.Crypto.{encrypt, ok, err}
use syncent.Crypto.Keys.{KeyLib, generate_ed25519_keypair}
use syncent.Audit.{log_action}
use syncent.TwoFactor.{get_user_id, username_of}
use syncent.Servers.{insert_server, or_else}
use syncent.Transfer.{ExportLib, export_decrypt, present}

-- A server of the file, after the assertions of the types: a text or a number that is missing or of
-- another type is "" or `none`; the JSON columns are the texts that encoding/json gives the values.
pub record FileServer : Type 0 where
  pub name : String
  pub ip_address : String
  pub ssh_username : String
  pub ssh_port : Option ℕ
  pub connection_mode : Option String
  pub health_check_interval : Option ℕ
  pub encrypted_gsocket_secret : Option String
  pub gsocket_secret : Option String
  pub encrypted_key : Option String
  pub public_key : Option String
  pub tags : String
  pub expected_services : String
  pub log_paths : String
  pub location : String
  pub notes : String

pub record ImportBody : Type 0 where
  pub servers : List FileServer
  pub with_keys : Bool
  pub export_password : String

abbrev pub or_number : Option ℕ → ℕ → ℕ
or_number none n = n
or_number (some m) n = m

abbrev pub mode_of : FileServer → String
mode_of s = elim (present s.connection_mode) [ none ↦ "direct" | some m ↦ m ]

-- The secrets that a server of the file comes to: the sealed key, the public key and the gsocket secret;
-- or the server is passed over, which is counted where its key does not open.
pub data Secrets : Type 0 where
  passed_over key_failed : Secrets
  secrets : String → String → Option String → Secrets

module _ (x : External) (lib : ExportLib) (c : Config) (keys : KeyLib) (with_keys : Bool)
    (pass : String) where
  -- a text that is encrypted by the password of the export, where both are there
  unfoldable pub sealed_text : Option String → Option String
  sealed_text o = elim (present o) [
    | none ↦ none
    | some s ↦ if str_eq pass "" then none else some s
  ]

  -- the branches of gsocket mode
  unfoldable pub gsocket_secrets : FileServer → Secrets
  gsocket_secrets s =
      let plain : Secrets → Secrets = λ otherwise. elim (present s.gsocket_secret) [
        | none ↦ otherwise
        | some g ↦ secrets "" "" (some g)
      ] in
      if with_keys
      then (elim (sealed_text s.encrypted_gsocket_secret) [
        | none ↦ plain key_failed
        | some sealed ↦ elim (export_decrypt x lib sealed pass) [
          | none ↦ key_failed
          | some opened ↦ if str_eq opened "" then key_failed else secrets "" "" (some opened)
        ]
      ])
      else plain passed_over

  -- the branches of direct mode: a key of the file that opens and is one, or a new pair
  unfoldable pub key_secrets : ℕ → List ℕ → FileServer → Secrets
  key_secrets draw nonce s =
      if with_keys
      then (elim (sealed_text s.encrypted_key) [
        | none ↦ key_failed
        | some sealed ↦ elim (export_decrypt x lib sealed pass) [
          | none ↦ key_failed
          | some plain ↦
              if has_prefix (codes plain) (codes "-----BEGIN")
              then (elim (encrypt x c.master_key nonce plain) [
                | err e ↦ key_failed
                | ok enc ↦
                    if str_eq enc ""
                    then key_failed
                    else secrets enc (elim s.public_key [ none ↦ "" | some pk ↦ pk ]) none
              ])
              else key_failed
        ]
      ])
      else (elim (generate_ed25519_keypair keys draw) [
        | none ↦ passed_over
        | some (pem, public) ↦ elim (encrypt x c.master_key nonce pem) [
          | err e ↦ passed_over
          | ok enc ↦ secrets enc public none
        ]
      ])

  unfoldable pub import_secrets : ℕ → List ℕ → FileServer → Secrets
  import_secrets draw nonce s =
      if str_eq s.name ""
      then passed_over
      else if str_eq (mode_of s) "gsocket"
      then gsocket_secrets s
      else if str_eq s.ip_address "" || str_eq s.ssh_username ""
      then passed_over
      else key_secrets draw nonce s

-- the row of the INSERT
abbrev pub imported_row :
    FileServer → String → String → String → String → Option String → ℕ → Server
imported_row s id user_id enc_priv pub_ssh gs now =
    let gsocket = str_eq (mode_of s) "gsocket" in
    record {
      id = id;
      user_id = user_id;
      name = s.name;
      ip_address = if gsocket then or_else s.ip_address "gsocket" else s.ip_address;
      ssh_port = or_number s.ssh_port 22;
      ssh_username = if gsocket then or_else s.ssh_username "gsocket" else s.ssh_username;
      connection_mode = mode_of s;
      encrypted_private_key = some enc_priv;
      public_key = some pub_ssh;
      os_info = none;
      kernel_info = none;
      status = "pending_setup";
      last_ping_ms = none;
      consecutive_failures = 0;
      gsocket_secret = gs;
      last_checked_at = none;
      location = some s.location;
      notes = some s.notes;
      tags = s.tags;
      expected_services = s.expected_services;
      log_paths = s.log_paths;
      health_check_interval = some (or_number s.health_check_interval 30);
      created_at = now;
      updated_at = now;
    }

-- how many servers were stored, and how many passed over for their keys
pub record Progress : Type 0 where
  pub db : Db
  pub imported : ℕ
  pub skipped : ℕ

module _ (x : External) (lib : ExportLib) (c : Config) (keys : KeyLib) (nonces : ℕ → List ℕ)
    (r : Request) (user_id : String) (with_keys : Bool) (pass : String) where
  -- the body of the loop, for the server at a place of the file
  unfoldable pub import_server : ℕ → FileServer → Progress → Progress
  import_server i s p =
      elim (import_secrets x lib c keys with_keys pass (r.random (2 * i)) (nonces i) s) [
        | passed_over ↦ p
        | key_failed ↦ record p { skipped = suc p.skipped }
        | secrets enc public gs ↦
            elim (insert_server
              (imported_row s (x.uuid (r.random (2 * i + 1))) user_id enc public gs r.now) p.db) [
                | none ↦ p
                | some stored ↦ record p { db = stored; imported = suc p.imported }
              ]
      ]

  unfoldable pub import_all : ℕ → List FileServer → Progress → Progress
  import_all i [] p = p
  import_all i (s ∷ rest) p = import_all (suc i) rest (import_server i s p)

module _ (x : External) (lib : ExportLib) (c : Config) (keys : KeyLib) (nonces : ℕ → List ℕ)
    (r : Request) where
  abbrev import_answer : Bool → Progress → Response
  import_answer with_keys p =
      if ltb 0 p.skipped
      then respond_json 200 (
          (
            "message",
            text (
                concat (
                  x.decimal p.imported
                  ∷ " servers imported, "
                  ∷ x.decimal p.skipped
                  ∷ " skipped (wrong export password)."
                  ∷ [])),
          )
          ∷ ("imported", num p.imported)
          ∷ ("skipped", num p.skipped)
          ∷ (
            "note",
            text
                "Some servers were skipped because the export password was incorrect. Keys could not be decrypted.",
          )
          ∷ [])
      else respond_json 200 (
          ("message", text (concat (x.decimal p.imported ∷ " servers imported." ∷ [])))
          ∷ ("imported", num p.imported)
          ∷ (
            "note",
            text (
                if with_keys
                then "Keys imported. Test connection on each server to verify."
                else "New SSH keys generated. Use 'Re-inject Key' or 'Inject Key' on each server to activate."),
          )
          ∷ [])

  -- once the body has passed the checks
  unfoldable pub import_servers : ImportBody → Db → Db × Response
  import_servers body db =
      let p =
        import_all x lib c keys nonces r (get_user_id r.username db) body.with_keys
          body.export_password 0 body.servers (record { db = db; imported = 0; skipped = 0 }) in
      (
        log_action x r.now "config_imported"
            (concat (
              x.decimal p.imported
              ∷ " servers imported, "
              ∷ x.decimal p.skipped
              ∷ " key decryption failed"
              ∷ []))
            none (username_of r) r.client_ip p.db,
        import_answer body.with_keys p,
      )

  -- `none` is a body that does not decode
  unfoldable pub import_config : Option ImportBody → Db → Db × Response
  import_config none db = (db, respond_error 400 "INVALID_INPUT" "Valid servers array required.")
  import_config (some body) db = elim body.servers [
    | [] ↦ (db, respond_error 400 "INVALID_INPUT" "Valid servers array required.")
    | s ∷ rest ↦ import_servers body db
  ]
