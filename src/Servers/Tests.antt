-- ===== src/Servers/Tests.antt =====
-- Requests of a sample user.
use syncent.Base.{String, none, some, [], ◌∷◌, ◌≡◌, ◌↔◌, refl, true, has_prefix}
use syncent.Http.{respond_json}
use syncent.Database.{Db, Server}
use syncent.Crypto.{encrypt, decrypt}
use syncent.Crypto.Keys.{KeyLib, parse_private_key}
use syncent.TwoFactor.{get_user_id, verify_action}
use syncent.Execute.{owned_server}
use syncent.Health.{server_by_id}
use syncent.Gsocket.{gs_ran}
use syncent.Servers.{
  JsonLib, CreateBody, create_server, create_checked, store_server, insert_server, with_defaults,
}
use syncent.Servers.Manage.{Binding, DeleteBody, delete_server}
use syncent.Servers.Connect.{client, dial_error, Hosts}
use syncent.Servers.Inject.{
  inject_key, key_row, verify_injected, valid_key_format, is_shell_special,
}
use syncent.Servers.Requests.{delete, handle}
use syncent.Servers.Confined.{handle-Confined}
use syncent.Servers.Frame.{Confined}
use syncent.Servers.Secrets.{delete_server_iff, ReachedBy, created_secret_opens}
use syncent.Servers.Injected.{Injected, inject_key_ok}
use syncent.Transfer.{ExportLib}
use syncent.Sample.{sample, config, nonce, request, db, db_with_server, server, sample-CipherLaws}
use syncent.Sample.Codec.{encode, decode}

abbrev json_lib : JsonLib
json_lib = record { marshal_strings = λ l. "[]"; parse_uuid = λ s. some s }

abbrev binding : Binding String
binding = record { bind_text = λ s. some (some s); bind_integer = λ s. none; marshal = λ s. s }

abbrev key_lib : KeyLib
key_lib = record {
  generate_key = λ draw. some (draw ∷ [], draw ∷ []);
  marshal_private_key = λ k. some "-----BEGIN";
  marshal_authorized_key = λ k. some "ssh-ed25519 AAAA";
  parse_private_key = λ pem. some (7 ∷ []);
}

abbrev hosts : Hosts
hosts = record {
  dial_with_password = λ ip port user password. client (λ command. "Linux");
  dial_with_key = λ ip port user signer. elim signer [
    | none ↦ dial_error "no signer"
    | some s ↦ client (λ command. "Linux")
  ];
  gsocket_execute = λ secret command. gs_ran "OS:Linux";
  elapsed = 5;
}

abbrev export_lib : ExportLib
export_lib = record { pbkdf2 = λ p salt rounds n. []; hex_encode = encode; hex_decode = decode }

abbrev typed : DeleteBody
typed = record { totp_code = "123456"; confirmation = "" }

handle-Confined_example :
    Confined "1" db_with_server
      (handle sample json_lib binding config key_lib hosts
        (request 1000 "alice")
        export_lib
        (λ i. nonce)
        (delete "s1" (some typed))
        db_with_server).0
unfolding get_user_id
handle-Confined_example =
    handle-Confined sample json_lib binding config key_lib hosts (request 1000 "alice")
      db_with_server (tt, tt) export_lib (λ i. nonce) (delete "s1" (some typed))

delete_server_iff_example :
    (owned_server "s1" "1"
        (delete_server sample config
          (request 1000 "alice")
          "s1"
          (some typed)
          db_with_server).0.servers
      ≡ none)
    ↔ (verify_action sample config 1000 "alice" "123456" "" "DELETE" db_with_server ≡ true)
unfolding get_user_id owned_server
delete_server_iff_example =
    delete_server_iff sample config (request 1000 "alice") "s1" typed db_with_server {s = server}
      refl

abbrev gsocket_body : CreateBody
gsocket_body = record {
  name = "behind nat";
  ip_address = "";
  ssh_port = 0;
  ssh_username = "";
  connection_mode = "gsocket";
  gsocket_secret = "secret";
  location = "";
  notes = "";
  tags = none;
  expected_services = none;
  log_paths = none;
  health_check_interval = 0;
}

created_secret_opens_example :
    ReachedBy sample json_lib config
      (request 1000 "alice")
      key_lib
      db
      "secret"
      (create_server sample json_lib config (request 1000 "alice") key_lib (some gsocket_body) db).0
unfolding create_server create_checked store_server insert_server with_defaults get_user_id
    server_by_id encrypt decode respond_json
created_secret_opens_example =
    created_secret_opens sample json_lib config (request 1000 "alice") key_lib db gsocket_body
      sample-CipherLaws refl refl refl refl

abbrev keyed : Server
keyed = record server {
  public_key = some "ssh-ed25519 AAAA";
  encrypted_private_key = some (encode nonce);
}

abbrev db_with_keyed : Db
db_with_keyed = record db { servers = keyed ∷ [] }

inject_key_ok_example :
    Injected sample config key_lib hosts
      (request 1000 "alice")
      "s1"
      "pw"
      db_with_keyed
      (inject_key sample config key_lib hosts
        (request 1000 "alice")
        "s1"
        (some "pw")
        db_with_keyed).sent
unfolding inject_key key_row get_user_id owned_server valid_key_format verify_injected
    parse_private_key decrypt has_prefix is_shell_special decode encode respond_json
inject_key_ok_example =
    inject_key_ok sample config key_lib hosts (request 1000 "alice") "s1" "pw" db_with_keyed refl
