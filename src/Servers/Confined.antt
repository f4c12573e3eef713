-- ===== src/Servers/Confined.antt =====
-- The requests of internal/handlers/servers.go, one by one, against the rows of the other users.
mod Changes
mod Imports
use syncent.Base.{
  ℕ, String, Bool, true, false, not, ◌&&◌, ◌||◌, Option, none, some, List, [], ◌∷◌, ◌++◌, str_eq,
  ◌≡◌, ◌≢◌, refl, sym, subst, ◌∙◌, ap, arith, Bool-cases, Option-cases, inl, inr, if◌then◌else◌,
  any, codes, trim_text,
}
use syncent.External.{External}
use syncent.Config.{Config}
use syncent.Http.{Response, Request}
use syncent.Database.{Db, Server, StatusChange, UsedCode, User, varchar}
use syncent.Crypto.{Result, encrypt, decrypt, ok, err}
use syncent.Crypto.Keys.{KeyLib, generate_ed25519_keypair, parse_private_key}
use syncent.Audit.{log_action}
use syncent.Audit.Frame.{log_action_frame}
use syncent.TwoFactor.{get_user_id, username_of, verify_action}
use syncent.Execute.{owned_server}
use syncent.Health.{server_by_id, update_server, update_servers, gsocket_in_use, set_status}
use syncent.Gsocket.{HostInfo, GsTest-cases, gs_unreachable, gs_reached, gsocket_test_connection}
use syncent.Servers.{
  JsonLib, CreateBody, with_defaults, fits_columns, insert_server, new_server, store_server,
  create_checked, create_server,
}
use syncent.Servers.Manage.{
  Binding, DeleteBody, set_name, set_location, set_notes, set_interval, assignment, assign,
  assign_all, update_owned, delete_owned, update_server_fields, delete_server,
}
use syncent.Servers.Connect.{
  Dial, dial_error, client, Dial-cases, Hosts, os_command, kernel_command, unchanged_row,
  checked_at, answered_in, set_host, set_gsocket_host, setup_gsocket, setup_ssh, on_server,
  manual_key_setup, test_gsocket, test_ssh, test_connection,
}
use syncent.Servers.Inject.{KeyRow, key_row, verify_injected, valid_key_format, inject_key}
use syncent.Servers.Requests.{
  ServerRequest, create, update, delete, inject, setup, test, import_file, handle,
}
use syncent.Servers.Owned.{
  foreign, ids, Distinct, KeepsOwner, foreign-update_owned, ids-update_owned, ids-update_servers,
  foreign-update_servers, foreign-delete_owned, Distinct-delete_owned, foreign-append,
  Distinct-append,
}
use syncent.Servers.Frame.{
  Confined, same-Confined, servers-Confined, logged-Confined, update_server-Confined,
  set_host-Confined, set_gsocket_host-Confined, insert_server-Confined, assign_all-kept,
}
use syncent.Crypto.{Result-cases}
use syncent.Transfer.{ExportLib}
use Imports.{import_config-Confined}
use Changes.{create_server-Fine, update-Fine, delete-Fine}

module _ {Json : Type 0} (x : External) (lib : JsonLib) (bind : Binding Json) (c : Config)
    (keys : KeyLib) (hosts : Hosts) (r : Request) (db : Db)
    (distinct : Distinct (ids db.servers)) where
  abbrev user_id : String
  user_id = get_user_id r.username db

  abbrev Fine : Db × Response → Type 0
  Fine done = Confined user_id db (done.0)

  same : Confined user_id db db
  same = same-Confined user_id db distinct

  logged :
      (action detail : String) (server_id : Option String) (e : Db)
      → Confined user_id db e
      → Confined user_id db
          (log_action x r.now action detail server_id (username_of r) r.client_ip e)
  logged action detail server_id e h =
      logged-Confined user_id db distinct x r.now action detail server_id (username_of r)
        r.client_ip e h

  -- the requests that connect to a server, once the user is known to own it
  module _ (id : String) {s : Server} (owned : owned_server id user_id db.servers ≡ some s) where
    verify_injected-Fine :
        (k : KeyRow) (run : String → String) → Fine (verify_injected x c keys hosts r id k run db)
    unfolding verify_injected
    verify_injected-Fine k run =
        let failed =
          set_host-Confined user_id db distinct id "auth_failed" (trim_text (run os_command))
            (trim_text (run kernel_command)) unchanged_row (λ s. (refl, refl)) owned in
        elim (Option-cases (parse_private_key x c.master_key keys k.enc_key)) [
          | inl bad ↦ rw (verify_injected, bad) failed
          | inr (signer, good) ↦
              elim (Dial-cases (hosts.dial_with_key k.ip k.port k.uname (some signer))) [
                | inl (e, refused) ↦ rw (verify_injected, good, refused) (logged _ _ _ _ failed)
                | inr (run', opened) ↦
                    rw (verify_injected, good, opened)
                      (logged _ _ _ _ (
                        set_host-Confined user_id db distinct id "online"
                          (trim_text (run os_command)) (trim_text (run kernel_command))
                          (checked_at r.now) (λ s. (refl, refl)) owned))
              ]
        ]

    setup_gsocket-Fine : (t : Server) (g : String) → Fine (setup_gsocket x c keys hosts r id t g db)
    unfolding setup_gsocket
    setup_gsocket-Fine t g = elim (Result-cases (decrypt x c.master_key g)) [
      | inl (e, fails) ↦ rw (setup_gsocket, fails) same
      | inr (secret, opened) ↦
          elim (GsTest-cases (gsocket_test_connection hosts.gsocket_execute secret)) [
            | inl (e, lost) ↦
                rw (setup_gsocket, opened, lost)
                  (update_server-Confined user_id db distinct id (set_status "unreachable")
                    (λ s. (refl, refl)) owned)
            | inr (h, found) ↦
                rw (setup_gsocket, opened, found)
                  (logged _ _ _ _ (
                    set_gsocket_host-Confined user_id db distinct id h (checked_at r.now)
                      (λ s. (refl, refl)) owned))
          ]
    ]

    setup_ssh-Fine : (t : Server) (enc : String) → Fine (setup_ssh x c keys hosts r id t enc db)
    unfolding setup_ssh
    setup_ssh-Fine t enc =
        elim (Dial-cases (
          hosts.dial_with_key t.ip_address t.ssh_port t.ssh_username
            (parse_private_key x c.master_key keys enc))) [
              | inl (e, refused) ↦ rw (setup_ssh, refused) same
              | inr (run, opened) ↦
                  rw (setup_ssh, opened)
                    (logged _ _ _ _ (
                      set_host-Confined user_id db distinct id "online" (trim_text (run os_command))
                        (trim_text (run kernel_command)) (checked_at r.now) (λ s. (refl, refl))
                        owned))
            ]

    test_gsocket-Fine : (t : Server) (g : String) → Fine (test_gsocket x c keys hosts r id t g db)
    unfolding test_gsocket
    test_gsocket-Fine t g = elim (Result-cases (decrypt x c.master_key g)) [
      | inl (e, fails) ↦ rw (test_gsocket, fails) same
      | inr (secret, opened) ↦
          elim (GsTest-cases (gsocket_test_connection hosts.gsocket_execute secret)) [
            | inl (e, lost) ↦
                rw (test_gsocket, opened, lost)
                  (update_server-Confined user_id db distinct id (set_status "unreachable")
                    (λ s. (refl, refl)) owned)
            | inr (h, found) ↦
                rw (test_gsocket, opened, found)
                  (set_gsocket_host-Confined user_id db distinct id h
                    (answered_in hosts.elapsed r.now) (λ s. (refl, refl)) owned)
          ]
    ]

    test_ssh-Fine : (t : Server) (enc : String) → Fine (test_ssh x c keys hosts r id t enc db)
    unfolding test_ssh
    test_ssh-Fine t enc =
        elim (Dial-cases (
          hosts.dial_with_key t.ip_address t.ssh_port t.ssh_username
            (parse_private_key x c.master_key keys enc))) [
              | inl (e, refused) ↦
                  rw (test_ssh, refused)
                    (update_server-Confined user_id db distinct id (set_status "unreachable")
                      (λ s. (refl, refl)) owned)
              | inr (run, opened) ↦
                  rw (test_ssh, opened)
                    (update_server-Confined user_id db distinct id
                      (λ s. answered_in hosts.elapsed r.now (record s { status = "online" }))
                      (λ s. (refl, refl)) owned)
            ]

  inject-Fine :
      (id : String) (password : Option String)
      → Confined user_id db (inject_key x c keys hosts r id password db).db
  unfolding inject_key key_row
  inject-Fine id none = same
  inject-Fine id (some password) = elim (Bool-cases (str_eq password "")) [
    | inl empty ↦ rw (inject_key, empty) same
    | inr given ↦ elim (Option-cases (owned_server id user_id db.servers)) [
      | inl missing ↦ rw (inject_key, given, key_row, missing) same
      | inr (s, owned) ↦ elim (Option-cases (key_row id user_id db)) [
        | inl unreadable ↦ rw (inject_key, given, unreadable) same
        | inr (k, row) ↦ elim (Dial-cases (hosts.dial_with_password k.ip k.port k.uname password)) [
          | inl (e, refused) ↦ rw (inject_key, given, row, refused) same
          | inr (run, opened) ↦ elim (Bool-cases (valid_key_format k.public_key)) [
            | inr bad ↦ rw (inject_key, given, row, opened, bad) same
            | inl good ↦
                rw (inject_key, given, row, opened, good) (verify_injected-Fine id owned k run)
          ]
        ]
      ]
    ]
  ]

  on_server-Fine :
      (id : String) (by_gsocket by_ssh : Server → String → Db → Db × Response)
      → ((s : Server)
          → owned_server id user_id db.servers ≡ some s
          → (g : String) → Fine (by_gsocket s g db))
      → ((s : Server)
          → owned_server id user_id db.servers ≡ some s
          → (enc : String) → Fine (by_ssh s enc db))
      → Fine (on_server x c keys hosts r id by_gsocket by_ssh db)
  unfolding on_server
  on_server-Fine id by_gsocket by_ssh gs ssh =
      elim (Option-cases (owned_server id user_id db.servers)) [
        | inl missing ↦ rw (on_server, missing) same
        | inr (s, owned) ↦ elim (Option-cases s.encrypted_private_key) [
          | inl no_key ↦ rw (on_server, owned, no_key) same
          | inr (enc, key) ↦ elim (Option-cases (gsocket_in_use s)) [
            | inl direct ↦ rw (on_server, owned, key, direct) (ssh s owned enc)
            | inr (g, used) ↦ rw (on_server, owned, key, used) (gs s owned g)
          ]
        ]
      ]

  -- Where the keys of the servers are distinct, no request of a user to create, change, delete, import
  -- or connect to a server, whatever its body and its outcome, changes, adds, removes or reorders a
  -- server of another user; the keys stay distinct, and the users, the status history and the
  -- settings stay as they were.
  pub handle-Confined :
      (exports : ExportLib) (nonces : ℕ → List ℕ) (request : ServerRequest Json)
      → Confined
          (get_user_id r.username db)
          db
          (handle x lib bind c keys hosts r exports nonces request db).0
  unfolding handle manual_key_setup test_connection
  handle-Confined exports nonces (create body) =
      create_server-Fine x lib bind c keys hosts r db distinct body
  handle-Confined exports nonces (update id body) =
      update-Fine x lib bind c keys hosts r db distinct id body
  handle-Confined exports nonces (delete id body) =
      delete-Fine x lib bind c keys hosts r db distinct id body
  handle-Confined exports nonces (inject id body) = inject-Fine id body
  handle-Confined exports nonces (setup id) =
      on_server-Fine id (setup_gsocket x c keys hosts r id) (setup_ssh x c keys hosts r id)
        (λ s owned g. setup_gsocket-Fine id owned s g)
        (λ s owned enc. setup_ssh-Fine id owned s enc)
  handle-Confined exports nonces (test id) =
      on_server-Fine id (test_gsocket x c keys hosts r id) (test_ssh x c keys hosts r id)
        (λ s owned g. test_gsocket-Fine id owned s g) (λ s owned enc. test_ssh-Fine id owned s enc)
  handle-Confined exports nonces (import_file body) =
      import_config-Confined x exports c keys nonces r db distinct body
