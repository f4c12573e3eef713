-- ===== src/Servers/Manage.antt =====
-- internal/handlers/servers.go: ListServers, GetServer, UpdateServer, DeleteServer and GetPublicKey,
-- with ReinjectKey of internal/handlers/settings.go.
use syncent.Base.{
  ℕ, String, ◌&&◌, Option, none, some, List, [], ◌∷◌, map, str_eq, concat, if◌then◌else◌,
}
use syncent.External.{External}
use syncent.Config.{Config}
use syncent.Http.{
  Response, Request, Value, text, num, json, text_or_null, num_or_null, respond_json, respond_error,
}
use syncent.Database.{Db, Server, varchar}
use syncent.Audit.{log_action}
use syncent.TwoFactor.{get_user_id, username_of, verify_action}
use syncent.Execute.{owned_server}
use syncent.Servers.{JsonLib, authorized_keys_command}

-- UPDATE servers SET ... WHERE id=$1 AND user_id=$2
unfoldable pub update_owned : String → String → (Server → Server) → List Server → List Server
update_owned id user_id f [] = []
update_owned id user_id f (s ∷ rest) =
    (if str_eq s.id id && str_eq s.user_id user_id then f s else s) ∷ update_owned id user_id f rest

-- DELETE FROM servers WHERE id=$1 AND user_id=$2
unfoldable pub delete_owned : String → String → List Server → List Server
delete_owned id user_id [] = []
delete_owned id user_id (s ∷ rest) =
    let kept = delete_owned id user_id rest in
    if str_eq s.id id && str_eq s.user_id user_id then kept else s ∷ kept

-- SELECT ... FROM servers WHERE user_id=$1
unfoldable pub servers_of : String → List Server → List Server
servers_of user_id [] = []
servers_of user_id (s ∷ rest) =
    let others = servers_of user_id rest in if str_eq s.user_id user_id then s ∷ others else others

-- A row as `ListServers` gives it; `by_name` is the order of the database's collation.
abbrev listed : Server → List (String × Value)
listed s =
    ("id", text s.id)
    ∷ ("name", text s.name)
    ∷ ("ip_address", text s.ip_address)
    ∷ ("ssh_port", num s.ssh_port)
    ∷ ("status", text s.status)
    ∷ ("location", text_or_null s.location)
    ∷ ("os_info", text_or_null s.os_info)
    ∷ ("connection_mode", text s.connection_mode)
    ∷ ("tags", json s.tags)
    ∷ ("last_ping_ms", num_or_null s.last_ping_ms)
    ∷ ("last_checked_at", num_or_null s.last_checked_at)
    ∷ []

unfoldable pub list_servers :
    (List Server → List Server) → Request → Db → List (List (String × Value))
list_servers by_name r db = map listed (by_name (servers_of (get_user_id r.username db) db.servers))

abbrev pub server_not_found : Response
server_not_found = respond_error 404 "NOT_FOUND" "Server not found."

unfoldable pub shown : Server → ℕ → Response
shown s interval = respond_json 200 (
    ("id", text s.id)
    ∷ ("name", text s.name)
    ∷ ("ip_address", text s.ip_address)
    ∷ ("ssh_port", num s.ssh_port)
    ∷ ("ssh_username", text s.ssh_username)
    ∷ ("connection_mode", text s.connection_mode)
    ∷ ("public_key", text_or_null s.public_key)
    ∷ ("location", text_or_null s.location)
    ∷ ("os_info", text_or_null s.os_info)
    ∷ ("kernel_info", text_or_null s.kernel_info)
    ∷ ("tags", json s.tags)
    ∷ ("notes", text_or_null s.notes)
    ∷ ("expected_services", json s.expected_services)
    ∷ ("status", text s.status)
    ∷ ("last_ping_ms", num_or_null s.last_ping_ms)
    ∷ ("health_check_interval", num interval)
    ∷ ("log_paths", json s.log_paths)
    ∷ ("last_checked_at", num_or_null s.last_checked_at)
    ∷ ("created_at", num s.created_at)
    ∷ ("updated_at", num s.updated_at)
    ∷ [])

-- The SELECT fails on an interval that is NULL.
unfoldable pub get_server : Request → String → Db → Response
get_server r id db = elim (owned_server id (get_user_id r.username db) db.servers) [
  | none ↦ server_not_found
  | some s ↦ elim s.health_check_interval [
    | none ↦ server_not_found
    | some interval ↦ shown s interval
  ]
]

-- What pgx makes of a value of a JSON body: `none` where it cannot bind it to such a column, and
-- `some none` for NULL; and the text that encoding/json makes of it.
pub record Binding (Json : Type 0) : Type 0 where
  pub bind_text : Json → Option (Option String)
  pub bind_integer : Json → Option (Option ℕ)
  pub marshal : Json → String

abbrev pub set_name : Option (Option String) → Option (Server → Server)
set_name none = none
set_name (some none) = none
set_name (some (some t)) = if varchar 100 t then some (λ s. record s { name = t }) else none

abbrev pub set_location : Option (Option String) → Option (Server → Server)
set_location none = none
set_location (some none) = some (λ s. record s { location = none })
set_location (some (some t)) =
    if varchar 100 t then some (λ s. record s { location = some t }) else none

abbrev pub set_notes : Option (Option String) → Option (Server → Server)
set_notes none = none
set_notes (some notes) = some (λ s. record s { notes = notes })

abbrev pub set_interval : Option (Option ℕ) → Option (Server → Server)
set_interval none = none
set_interval (some interval) = some (λ s. record s { health_check_interval = interval })

module _ {Json : Type 0} (bind : Binding Json) where
  -- The columns that `UpdateServer` sets for a key of the body, `none` where it sets none or the
  -- statement fails.
  unfoldable pub assignment : String → Json → Option (Server → Server)
  assignment key value =
      if str_eq key "name"
      then set_name (bind.bind_text value)
      else if str_eq key "location"
      then set_location (bind.bind_text value)
      else if str_eq key "notes"
      then set_notes (bind.bind_text value)
      else if str_eq key "health_check_interval"
      then set_interval (bind.bind_integer value)
      else if str_eq key "tags"
      then some (λ s. record s { tags = bind.marshal value })
      else if str_eq key "expected_services"
      then some (λ s. record s { expected_services = bind.marshal value })
      else if str_eq key "log_paths"
      then some (λ s. record s { log_paths = bind.marshal value })
      else none

  -- the statement for a key
  unfoldable pub assign : ℕ → String → String → String → Json → List Server → List Server
  assign now id user_id key value servers = elim (assignment key value) [
    | none ↦ servers
    | some set ↦ update_owned id user_id (λ s. record (set s) { updated_at = now }) servers
  ]

  -- the loop over the body, in one order of its keys
  unfoldable pub assign_all : ℕ → String → String → List (String × Json) → List Server → List Server
  assign_all now id user_id [] servers = servers
  assign_all now id user_id ((key, value) ∷ rest) servers =
      assign_all now id user_id rest (assign now id user_id key value servers)

  -- `none` is a body that does not decode
  unfoldable pub update_server_fields :
      External → JsonLib → Request → String → Option (List (String × Json)) → Db → Db × Response
  update_server_fields x lib r id none db = (db, respond_error 400 "INVALID_INPUT" "Invalid JSON.")
  update_server_fields x lib r id (some body) db =
      let uuid : String = elim (lib.parse_uuid id) [
        | none ↦ "00000000-0000-0000-0000-000000000000"
        | some u ↦ u
      ] in
      let servers = assign_all r.now id (get_user_id r.username db) body db.servers in
      (
        log_action x r.now "server_updated" "Config updated" (some uuid) (username_of r) r.client_ip
            (record db { servers = servers }),
        respond_json 200 (("message", text "Server updated.") ∷ []),
      )

pub record DeleteBody : Type 0 where
  pub totp_code : String
  pub confirmation : String

-- `none` is a body that does not decode
unfoldable pub delete_server :
    External → Config → Request → String → Option DeleteBody → Db → Db × Response
delete_server x c r id none db = (db, respond_error 400 "INVALID_INPUT" "Verification required.")
delete_server x c r id (some body) db =
    if verify_action x c r.now r.username body.totp_code body.confirmation "DELETE" db
    then (let user_id = get_user_id r.username db in
        let name : String = elim (owned_server id user_id db.servers) [
          | none ↦ ""
          | some s ↦ s.name
        ] in
        let deleted = record db { servers = delete_owned id user_id db.servers } in
        (
          log_action x r.now "server_removed" (concat ("Removed: " ∷ name ∷ [])) none
              (username_of r) r.client_ip deleted,
          respond_json 200
              (("message", text (concat ("Server '" ∷ name ∷ "' removed." ∷ []))) ∷ []),
        ))
    else (db, respond_error 403 "VERIFY_FAILED" "Verification failed.")

-- the SELECT of a server's name and public key, which fails on a key that is NULL
abbrev name_and_key : Request → String → Db → Option (String × String)
name_and_key r id db = elim (owned_server id (get_user_id r.username db) db.servers) [
  | none ↦ none
  | some s ↦ elim s.public_key [ none ↦ none | some key ↦ some (s.name, key) ]
]

unfoldable pub get_public_key : Request → String → Db → Response
get_public_key r id db = elim (name_and_key r id db) [
  | none ↦ server_not_found
  | some (name, key) ↦ respond_json 200 (
      ("server_name", text name)
      ∷ ("public_key", text key)
      ∷ ("install_command", text (authorized_keys_command key))
      ∷ [])
]

unfoldable pub reinject_key : Request → String → Db → Response
reinject_key r id db = elim (name_and_key r id db) [
  | none ↦ server_not_found
  | some (name, key) ↦ respond_json 200 (
      ("server_name", text name)
      ∷ ("public_key", text key)
      ∷ ("message", text "Copy the public key to the server, or use inject-key with SSH password.")
      ∷ ("manual_command", text (authorized_keys_command key))
      ∷ [])
]
