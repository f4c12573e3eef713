-- ===== src/Servers/Secrets.antt =====
-- What the requests of internal/handlers/servers.go need to succeed, and what they then leave behind.
use syncent.Base.{
  String, true, false, ◌&&◌, Option, none, some, List, [], ◌∷◌, ◌++◌, length, str_eq, eq_iff, ◌≡◌,
  ◌↔◌, refl, sym, subst, ◌∙◌, ap, arith, Bool-cases, Option-cases, inl, inr,
}
use syncent.External.{External}
use syncent.Config.{Config}
use syncent.Http.{Request, respond_error}
use syncent.Database.{Db, Server}
use syncent.Crypto.{encrypt, decrypt, ok, Result-cases}
use syncent.Crypto.RoundTrip.{CipherLaws, decrypt-encrypt, sealed-not_empty}
use syncent.Crypto.Keys.{KeyLib}
use syncent.Audit.Frame.{log_action_frame}
use syncent.TwoFactor.{get_user_id, username_of, verify_action}
use syncent.Execute.{owned_server}
use syncent.Health.{server_by_id, gsocket_in_use}
use syncent.Servers.{
  JsonLib, CreateBody, or_else, with_defaults, fits_columns, insert_server, new_server,
  store_server, create_checked, create_server,
}
use syncent.Servers.Manage.{DeleteBody, delete_owned, delete_server}

owned_server-append :
    (id user_id : String) (l : List Server) (s : Server)
    → s.id ≡ id
    → s.user_id ≡ user_id
    → server_by_id id l ≡ none
    → owned_server id user_id (l ++ s ∷ []) ≡ some s
unfolding owned_server server_by_id
owned_server-append id user_id [] s same mine free =
    rw ((eq_iff s.id id).1 same, (eq_iff s.user_id user_id).1 mine) refl
owned_server-append id user_id (t ∷ rest) s same mine free = elim (Bool-cases (str_eq t.id id)) [
  | inl taken ↦ absurd (cc (rw (taken) at free))
  | inr other ↦ rw (other) (owned_server-append id user_id rest s same mine (rw (other) at free))
]

insert_server-found :
    (s : Server) (db : Db) {e : Db}
    → insert_server s db ≡ some e
    → owned_server s.id s.user_id e.servers ≡ some s
unfolding insert_server
insert_server-found s db {e} h = elim (Bool-cases (fits_columns s)) [
  | inr long ↦ absurd (cc (rw (insert_server, long) at h))
  | inl fits ↦ elim (Option-cases (server_by_id s.id db.servers)) [
    | inr (other, taken) ↦ absurd (cc (rw (insert_server, fits, taken) at h))
    | inl free ↦
        let stored : record db { servers = db.servers ++ s ∷ [] } ≡ e =
          cc (rw (insert_server, fits, free) at h) in
        subst (λ (d : Db). owned_server s.id s.user_id d.servers ≡ some s) stored
          (owned_server-append s.id s.user_id db.servers s refl refl free)
  ]
]

owned_server-delete_owned :
    (id user_id : String) (l : List Server)
    → owned_server id user_id (delete_owned id user_id l) ≡ none
unfolding owned_server delete_owned
owned_server-delete_owned id user_id [] = refl
owned_server-delete_owned id user_id (s ∷ rest) =
    let ih = owned_server-delete_owned id user_id rest in
    elim (Bool-cases (str_eq s.id id && str_eq s.user_id user_id)) [
      | inl hit ↦ rw (hit) ih
      | inr miss ↦ rw (miss, miss) ih
    ]

-- A server that its owner asks to delete is gone afterwards exactly if the action was verified: by a
-- one-time code where the second factor is required, by the typed word otherwise.
pub delete_server_iff :
    (x : External) (c : Config) (r : Request) (id : String) (body : DeleteBody) (db : Db)
    {s : Server}
    → owned_server id (get_user_id r.username db) db.servers ≡ some s
    → (owned_server id (get_user_id r.username db) (delete_server x c r id (some body) db).0.servers
        ≡ none)
      ↔ (verify_action x c r.now r.username body.totp_code body.confirmation "DELETE" db ≡ true)
unfolding delete_server
delete_server_iff x c r id body db {s} owned =
    elim (Bool-cases
      (verify_action x c r.now r.username body.totp_code body.confirmation "DELETE" db)) [
        | inr refused ↦ (
          λ gone. absurd (cc (sym owned ∙ (rw (delete_server, refused) at gone))),
          λ v. absurd (cc (sym refused ∙ v)),
        )
        | inl verified ↦ (
          λ gone. verified,
          λ v.
              let user_id = get_user_id r.username db in
              let deleted : Db = record db { servers = delete_owned id user_id db.servers } in
              rw (delete_server, verified)
                (ap (owned_server id user_id) (
                    (log_action_frame x r.now "server_removed" _ none (username_of r) r.client_ip
                      deleted).1)
                  ∙ owned_server-delete_owned id user_id db.servers),
        )
      ]

module _ (x : External) (lib : JsonLib) (c : Config) (r : Request) (keys : KeyLib) (db : Db) where
  abbrev pub new_id : String
  new_id = x.uuid (r.random 0)

  -- a server that is stored is found, with what it was given
  store_server-found :
      (b : CreateBody) (enc_priv pub_ssh : String) (secret : Option String)
      → (store_server x lib c r b enc_priv pub_ssh secret db).1.status ≡ 201
      → owned_server new_id
          (get_user_id r.username db)
          (store_server x lib c r b enc_priv pub_ssh secret db).0.servers
        ≡ some (new_server lib b new_id (get_user_id r.username db) enc_priv pub_ssh secret r.now)
  unfolding store_server respond_error
  store_server-found b enc_priv pub_ssh secret created =
      let user_id = get_user_id r.username db in
      let row = new_server lib b new_id user_id enc_priv pub_ssh secret r.now in
      elim (Option-cases (insert_server row db)) [
        | inl fails ↦ absurd (omega (arith, (rw (store_server, fails) at created)))
        | inr (stored, e) ↦
            rw (store_server, e)
              (ap (owned_server new_id user_id) (
                  (log_action_frame x r.now "server_added" _ (some new_id) (username_of r)
                    r.client_ip stored).1)
                ∙ insert_server-found row db e)
      ]

  -- what a stored server of gsocket mode is reached by
  pub ReachedBy : String → Db → Type 0
  ReachedBy secret e =
      (s : Server) × (owned_server new_id (get_user_id r.username db) e.servers ≡ some s)
      × (s.status ≡ "pending_setup")
      × (g : String) × (gsocket_in_use s ≡ some g)
      × (decrypt x c.master_key g ≡ ok secret)

  with_defaults-gsocket :
      (b : CreateBody)
      → b.connection_mode ≡ "gsocket"
      → (str_eq (with_defaults b).connection_mode "gsocket" ≡ true)
        × ((with_defaults b).gsocket_secret ≡ b.gsocket_secret)
  unfolding with_defaults
  with_defaults-gsocket b mode = (ap (λ m. str_eq (or_else m "direct") "gsocket") mode, refl)

  create_checked-reached :
      (b : CreateBody)
      → CipherLaws x
      → x.base64_decode "" ≡ some []
      → length r.nonce ≡ 12
      → str_eq b.connection_mode "gsocket" ≡ true
      → (create_checked x lib c r keys b db).1.status ≡ 201
      → ReachedBy b.gsocket_secret (create_checked x lib c r keys b db).0
  unfolding create_checked respond_error ReachedBy
  create_checked-reached b laws empty size gs created =
      elim (Result-cases (encrypt x c.master_key r.nonce b.gsocket_secret)) [
        | inl (e, fails) ↦ absurd (omega (arith, (rw (create_checked, gs, fails) at created)))
        | inr (sealed, done) ↦
            let opens : decrypt x c.master_key sealed ≡ ok b.gsocket_secret =
              decrypt-encrypt x laws c.master_key r.nonce b.gsocket_secret sealed size done in
            let not_empty : str_eq sealed "" ≡ false =
              sealed-not_empty x c.master_key sealed b.gsocket_secret empty opens in
            let found =
              store_server-found b "" "" (some sealed) (rw (create_checked, gs, done) at created) in
            rw (create_checked, gs, done)
              (
                new_server lib b new_id (get_user_id r.username db) "" "" (some sealed) r.now,
                found,
                refl,
                sealed,
                rw (gs, not_empty) refl,
                opens,
              )
      ]

  -- A server of gsocket mode whose creation is answered with 201 is the caller's, waits for its
  -- setup, and its stored secret is in use and decrypts to the secret that was given.
  pub created_secret_opens :
      (b : CreateBody)
      → CipherLaws x
      → x.base64_decode "" ≡ some []
      → length r.nonce ≡ 12
      → b.connection_mode ≡ "gsocket"
      → (create_server x lib c r keys (some b) db).1.status ≡ 201
      → ReachedBy b.gsocket_secret (create_server x lib c r keys (some b) db).0
  unfolding create_server respond_error
  created_secret_opens b laws empty size mode created =
      let gs : str_eq b.connection_mode "gsocket" ≡ true =
        (eq_iff b.connection_mode "gsocket").1 mode in
      elim (Bool-cases (str_eq b.name "")) [
        | inl nameless ↦ absurd (omega (arith, (rw (create_server, nameless) at created)))
        | inr named ↦ elim (Bool-cases (str_eq b.gsocket_secret "")) [
          | inl missing ↦
              absurd (omega (arith, (rw (create_server, named, gs, missing) at created)))
          | inr given ↦
              rw (create_server, named, gs, given)
                (let defaults = with_defaults-gsocket b mode in
                  subst
                    (λ secret.
                      ReachedBy secret (create_checked x lib c r keys (with_defaults b) db).0)
                    (defaults.1)
                    (create_checked-reached (with_defaults b) laws empty size (defaults.0)
                      (rw (create_server, named, gs, given) at created)))
        ]
      ]
