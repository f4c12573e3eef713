-- ===== src/Servers/Connect.antt =====
-- internal/handlers/servers.go: ManualKeySetup and TestConnection. What a server answers is a parameter.
use syncent.Base.{
  ℕ, String, ◌&&◌, Option, none, some, List, [], ◌∷◌, concat, trim_text, if◌then◌else◌, ◌≡◌, ◌⊎◌,
  inl, inr, refl,
}
use syncent.External.{External}
use syncent.Config.{Config}
use syncent.Http.{Response, Request, text, num, respond_json, respond_error}
use syncent.Database.{Db, Server, varchar}
use syncent.Crypto.{decrypt, ok, err}
use syncent.Crypto.Keys.{KeyLib, parse_private_key}
use syncent.Audit.{log_action}
use syncent.TwoFactor.{get_user_id, username_of}
use syncent.Execute.{owned_server}
use syncent.Health.{update_server, gsocket_in_use, set_status}
use syncent.Gsocket.{GsRun, HostInfo, gs_unreachable, gs_reached, gsocket_test_connection}
use syncent.Servers.Manage.{server_not_found}

-- A dial: its error, or what each command gives on the client.
pub data Dial : Type 0 where
  dial_error : String → Dial
  client : (String → String) → Dial

pub Dial-cases :
    (d : Dial) → ((e : String) × (d ≡ dial_error e)) ⊎ ((run : String → String) × (d ≡ client run))
Dial-cases (dial_error e) = inl (e, refl)
Dial-cases (client run) = inr (run, refl)

-- What the servers answer. A nil signer is `none`. The last is the time of a connection in
-- milliseconds.
pub record Hosts : Type 0 where
  pub dial_with_password : String → ℕ → String → String → Dial
  pub dial_with_key : String → ℕ → String → Option (List ℕ) → Dial
  pub gsocket_execute : String → String → GsRun
  pub elapsed : ℕ

abbrev pub os_command : String
os_command = "cat /etc/os-release 2>/dev/null | grep PRETTY_NAME | cut -d'\"' -f2 || uname -s"

abbrev pub kernel_command : String
kernel_command = "uname -r -v"

-- UPDATE servers SET status, os_info, kernel_info, ... WHERE id=$1: it fails where a value does not fit
-- its column
unfoldable pub set_host : String → String → String → String → (Server → Server) → Db → Db
set_host id status os kernel f db =
    if varchar 200 os && varchar 200 kernel
    then update_server id
        (λ s. f (record s { status = status; os_info = some os; kernel_info = some kernel })) db
    else db

abbrev pub checked_at : ℕ → Server → Server
checked_at now s = record s { last_checked_at = some now }

abbrev pub answered_in : ℕ → ℕ → Server → Server
answered_in latency now s = record s {
  last_ping_ms = some latency;
  last_checked_at = some now;
  consecutive_failures = 0;
}

abbrev pub unchanged_row : Server → Server
unchanged_row s = s

-- the UPDATE after a gsocket answered, which sets the user as well
unfoldable pub set_gsocket_host : String → HostInfo → (Server → Server) → Db → Db
set_gsocket_host id h f db =
    if varchar 50 h.username
    then set_host id "online" h.os_info h.kernel (λ s. f (record s { ssh_username = h.username }))
        db
    else db

module _ (x : External) (c : Config) (keys : KeyLib) (hosts : Hosts) (r : Request)
    (id : String) where
  -- the gsocket branch of `ManualKeySetup`
  unfoldable pub setup_gsocket : Server → String → Db → Db × Response
  setup_gsocket s g db = elim (decrypt x c.master_key g) [
    | err e ↦ (db, respond_error 500 "DECRYPT_ERROR" "Failed to decrypt GSSocket secret.")
    | ok secret ↦ elim (gsocket_test_connection hosts.gsocket_execute secret) [
      | gs_unreachable e ↦ (
        update_server id (set_status "unreachable") db,
        respond_error 502 "GSOCKET_FAILED" (concat ("GSSocket connection failed. " ∷ e ∷ [])),
      )
      | gs_reached h ↦ (
        log_action x r.now "gsocket_verified" (concat ("GSSocket verified: " ∷ s.name ∷ []))
            (some id) (username_of r) r.client_ip (set_gsocket_host id h (checked_at r.now) db),
        respond_json 200 (
            (
              "message",
              text (
                  concat
                    ("GSSocket connection successful. '" ∷ s.name ∷ "' is now monitored." ∷ [])),
            )
            ∷ []),
      )
    ]
  ]

  -- the SSH branch of `ManualKeySetup`
  unfoldable pub setup_ssh : Server → String → Db → Db × Response
  setup_ssh s enc db =
      let signer = parse_private_key x c.master_key keys enc in
      elim (hosts.dial_with_key s.ip_address s.ssh_port s.ssh_username signer) [
        | dial_error e ↦ (
          db,
          respond_error 502 "SSH_AUTH_FAILED"
              "Key auth failed. Check authorized_keys permissions (700/600).",
        )
        | client run ↦ (
          log_action x r.now "manual_key_verified" (concat ("Key verified: " ∷ s.name ∷ []))
              (some id) (username_of r) r.client_ip
              (set_host id "online" (trim_text (run os_command)) (trim_text (run kernel_command))
                (checked_at r.now) db),
          respond_json 200 (
              (
                "message",
                text
                    (concat ("SSH connection successful. '" ∷ s.name ∷ "' is now monitored." ∷ [])),
              )
              ∷ []),
        )
      ]

  -- the SELECT of both handlers, which fails on a key that is NULL, and the choice of the branch
  unfoldable pub on_server :
      (Server → String → Db → Db × Response)
      → (Server → String → Db → Db × Response)
      → Db
      → Db × Response
  on_server by_gsocket by_ssh db = elim (owned_server id (get_user_id r.username db) db.servers) [
    | none ↦ (db, server_not_found)
    | some s ↦ elim s.encrypted_private_key [
      | none ↦ (db, server_not_found)
      | some enc ↦ elim (gsocket_in_use s) [ some g ↦ by_gsocket s g db | none ↦ by_ssh s enc db ]
    ]
  ]

  unfoldable pub manual_key_setup : Db → Db × Response
  manual_key_setup db = on_server setup_gsocket setup_ssh db

  abbrev connected : Server → String → Response
  connected s mode = respond_json 200 (
      ("status", text "connected")
      ∷ ("latency_ms", num hosts.elapsed)
      ∷ ("server_name", text s.name)
      ∷ ("mode", text mode)
      ∷ [])

  -- the gsocket branch of `TestConnection`
  unfoldable pub test_gsocket : Server → String → Db → Db × Response
  test_gsocket s g db = elim (decrypt x c.master_key g) [
    | err e ↦ (db, respond_error 500 "DECRYPT_ERROR" "Failed to decrypt GSSocket secret.")
    | ok secret ↦ elim (gsocket_test_connection hosts.gsocket_execute secret) [
      | gs_unreachable e ↦
          (update_server id (set_status "unreachable") db, respond_error 502 "GSOCKET_FAILED" e)
      | gs_reached h ↦
          (set_gsocket_host id h (answered_in hosts.elapsed r.now) db, connected s "gsocket")
    ]
  ]

  -- the SSH branch of `TestConnection`
  unfoldable pub test_ssh : Server → String → Db → Db × Response
  test_ssh s enc db =
      let signer = parse_private_key x c.master_key keys enc in
      elim (hosts.dial_with_key s.ip_address s.ssh_port s.ssh_username signer) [
        | dial_error e ↦
            (update_server id (set_status "unreachable") db, respond_error 502 "SSH_FAILED" e)
        | client run ↦ (
          update_server id (λ s. answered_in hosts.elapsed r.now (record s { status = "online" }))
              db,
          connected s "ssh",
        )
      ]

  unfoldable pub test_connection : Db → Db × Response
  test_connection db = on_server test_gsocket test_ssh db
