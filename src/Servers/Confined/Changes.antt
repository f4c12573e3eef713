-- ===== src/Servers/Confined/Changes.antt =====
-- CreateServer, UpdateServer and DeleteServer of internal/handlers/servers.go against the rows of the
-- other users.
use syncent.Base.{
  String, ◌||◌, Option, none, some, List, str_eq, refl, sym, subst, Bool-cases, Option-cases, inl,
  inr,
}
use syncent.External.{External}
use syncent.Config.{Config}
use syncent.Http.{Response, Request}
use syncent.Database.{Db}
use syncent.Crypto.{encrypt}
use syncent.Crypto.Keys.{KeyLib, generate_ed25519_keypair}
use syncent.Audit.{log_action}
use syncent.TwoFactor.{get_user_id, username_of, verify_action}
use syncent.Servers.{
  JsonLib, CreateBody, with_defaults, insert_server, new_server, store_server, create_checked,
  create_server,
}
use syncent.Servers.Manage.{
  Binding, DeleteBody, assign_all, delete_owned, update_server_fields, delete_server,
}
use syncent.Servers.Connect.{Hosts}
use syncent.Servers.Owned.{ids, Distinct, foreign-delete_owned, Distinct-delete_owned}
use syncent.Servers.Frame.{
  Confined, same-Confined, servers-Confined, logged-Confined, insert_server-Confined,
  assign_all-kept,
}
use syncent.Crypto.{Result-cases}

module _ {Json : Type 0} (x : External) (lib : JsonLib) (bind : Binding Json) (c : Config)
    (keys : KeyLib) (hosts : Hosts) (r : Request) (db : Db)
    (distinct : Distinct (ids db.servers)) where
  abbrev user_id : String
  user_id = get_user_id r.username db

  abbrev Fine : Db × Response → Type 0
  Fine done = Confined user_id db (done.0)

  same : Confined user_id db db
  same = same-Confined user_id db distinct

  logged :
      (action detail : String) (server_id : Option String) (e : Db)
      → Confined user_id db e
      → Confined user_id db
          (log_action x r.now action detail server_id (username_of r) r.client_ip e)
  logged action detail server_id e h =
      logged-Confined user_id db distinct x r.now action detail server_id (username_of r)
        r.client_ip e h

  store_server-Fine :
      (b : CreateBody) (enc_priv pub_ssh : String) (secret : Option String)
      → Fine (store_server x lib c r b enc_priv pub_ssh secret db)
  unfolding store_server
  store_server-Fine b enc_priv pub_ssh secret =
      let row = new_server lib b (x.uuid (r.random 0)) user_id enc_priv pub_ssh secret r.now in
      elim (Option-cases (insert_server row db)) [
        | inl fails ↦ rw (store_server, fails) same
        | inr (stored, e) ↦
            rw (store_server, e)
              (logged _ _ _ stored (insert_server-Confined user_id db distinct row refl e))
      ]

  create_checked-Fine : (b : CreateBody) → Fine (create_checked x lib c r keys b db)
  unfolding create_checked
  create_checked-Fine b = elim (Bool-cases (str_eq b.connection_mode "gsocket")) [
    | inl gs ↦ elim (Result-cases (encrypt x c.master_key r.nonce b.gsocket_secret)) [
      | inl (e, fails) ↦ rw (create_checked, gs, fails) same
      | inr (secret, sealed) ↦
          rw (create_checked, gs, sealed) (store_server-Fine b "" "" (some secret))
    ]
    | inr direct ↦ elim (Option-cases (generate_ed25519_keypair keys (r.random 1))) [
      | inl fails ↦ rw (create_checked, direct, fails) same
      | inr ((pem, public), made) ↦
          rw (create_checked, direct, made) (store_server-Fine b _ public none)
    ]
  ]

  pub create_server-Fine : (body : Option CreateBody) → Fine (create_server x lib c r keys body db)
  unfolding create_server
  create_server-Fine none = same
  create_server-Fine (some b) = elim (Bool-cases (str_eq b.name "")) [
    | inl empty ↦ rw (create_server, empty) same
    | inr named ↦ elim (Bool-cases (str_eq b.connection_mode "gsocket")) [
      | inl gs ↦ elim (Bool-cases (str_eq b.gsocket_secret "")) [
        | inl missing ↦ rw (create_server, named, gs, missing) same
        | inr given ↦ rw (create_server, named, gs, given) (create_checked-Fine (with_defaults b))
      ]
      | inr direct ↦ elim (Bool-cases (str_eq b.ip_address "" || str_eq b.ssh_username "")) [
        | inl missing ↦ rw (create_server, named, direct, missing) same
        | inr given ↦
            rw (create_server, named, direct, given) (create_checked-Fine (with_defaults b))
      ]
    ]
  ]

  pub update-Fine :
      (id : String) (body : Option (List (String × Json)))
      → Fine (update_server_fields bind x lib r id body db)
  unfolding update_server_fields
  update-Fine id none = same
  update-Fine id (some body) =
      let kept = assign_all-kept bind r.now id user_id body db.servers in
      logged _ _ _ _ (
        servers-Confined user_id db distinct (assign_all bind r.now id user_id body db.servers)
          (kept.0) (subst Distinct (sym (kept.1)) distinct))

  pub delete-Fine : (id : String) (body : Option DeleteBody) → Fine (delete_server x c r id body db)
  unfolding delete_server
  delete-Fine id none = same
  delete-Fine id (some body) =
      elim (Bool-cases
        (verify_action x c r.now r.username body.totp_code body.confirmation "DELETE" db)) [
          | inr refused ↦ rw (delete_server, refused) same
          | inl verified ↦
              rw (delete_server, verified)
                (logged _ _ _ _ (
                  servers-Confined user_id db distinct (delete_owned id user_id db.servers)
                    (foreign-delete_owned id user_id db.servers)
                    (Distinct-delete_owned id user_id db.servers distinct)))
        ]
