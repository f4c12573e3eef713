-- ===== src/Transfer/Imported.antt =====
-- The row of a server that was exported with its secret and is imported with the same password.
use syncent.Base.{
  ℕ, String, true, none, some, List, [], ◌∷◌, ◌++◌, length, codes, has_prefix, Option, ◌≡◌, ◌≢◌,
  refl, subst, sym, ap, ◌∙◌,
}
use syncent.External.{External}
use syncent.Config.{Config}
use syncent.Http.{Request}
use syncent.Database.{Db, Server}
use syncent.Crypto.{decrypt, ok, new_cipher_ok}
use syncent.Crypto.RoundTrip.{CipherLaws}
use syncent.Crypto.Keys.{KeyLib}
use syncent.Audit.Frame.{log_action_frame}
use syncent.TwoFactor.{get_user_id}
use syncent.Health.{server_by_id}
use syncent.Servers.{fits_columns, insert_server}
use syncent.Transfer.{ExportLib, present, without_keys}
use syncent.Transfer.Import.{
  FileServer, ImportBody, secrets, import_secrets, imported_row, import_server, import_all,
  import_servers, import_config,
}
use syncent.Transfer.RoundTrip.{
  ExportLaws, read_again, file_entry, imported_key_secrets, imported_gsocket_secrets,
  mode_of-direct,
}

-- a mode that is in use is not replaced by the default
mode_of_used :
    (m : String) → m ≡ "gsocket" → (elim (present (some m)) [ none ↦ "direct" | some k ↦ k ]) ≡ m
mode_of_used m used =
    ap (λ k. elim (present (some k)) [ none ↦ "direct" | some q ↦ q ]) used ∙ sym used

-- the file of one server, with its secrets
abbrev pub file_of : FileServer → String → ImportBody
file_of f pass = record { servers = f ∷ []; with_keys = true; export_password = pass }

module _ (x : External) (lib : ExportLib) (c : Config) (keys : KeyLib) (nonces : ℕ → List ℕ)
    (r : Request) (db : Db) where
  abbrev pub row_of : FileServer → String → String → Option String → Server
  row_of f enc public gs =
      imported_row f (x.uuid (r.random 1)) (get_user_id r.username db) enc public gs r.now

  -- a server of the file whose secrets are read and whose row can be inserted
  import_config-one :
      (pass : String) (f : FileServer) (enc public : String) (gs : Option String)
      → import_secrets x lib c keys true pass (r.random 0) (nonces 0) f ≡ secrets enc public gs
      → fits_columns (row_of f enc public gs) ≡ true
      → server_by_id (x.uuid (r.random 1)) db.servers ≡ none
      → (import_config x lib c keys nonces r (some (file_of f pass)) db).0.servers
        ≡ db.servers ++ row_of f enc public gs ∷ []
  unfolding import_config import_servers import_all import_server insert_server
  import_config-one pass f enc public gs read fits free =
      rw (import_config, import_servers, import_all, import_server, read, insert_server, fits, free)
        ((log_action_frame x r.now "config_imported" _ none _ r.client_ip _).1)

module _ (x : External) (laws : CipherLaws x) (lib : ExportLib) (export_laws : ExportLaws lib)
    (c₁ c₂ : Config) (keys : KeyLib) (pass : String) (s : Server) (interval : ℕ) (nonce : List ℕ)
    (nonces : ℕ → List ℕ) (r : Request) (db : Db) where
  abbrev entry : FileServer
  entry = file_entry x laws lib export_laws c₁ c₂ keys pass s interval nonce

  -- the servers after an import of the exported server alone
  abbrev pub servers_after : List Server
  servers_after = (import_config x lib c₂ keys nonces r (some (file_of entry pass)) db).0.servers

  -- the values of the exported server fit the columns of the importing database, and the new id is free
  abbrev pub Insertable : Type 0
  Insertable =
      (fits_columns
          (row_of x lib c₂ keys nonces r db (read_again (without_keys s interval)) "" "" none)
        ≡ true)
      × (server_by_id (x.uuid (r.random 1)) db.servers ≡ none)

  -- The row of an imported server: it is reached as the exported one, and its key opens under the
  -- master key of the importing program.
  pub record SameKey (pem : String) (t : Server) : Type 0 where
    pub name : t.name ≡ s.name
    pub address : t.ip_address ≡ s.ip_address
    pub port : t.ssh_port ≡ s.ssh_port
    pub user : t.ssh_username ≡ s.ssh_username
    pub public_key : t.public_key ≡ some (elim s.public_key [ none ↦ "" | some pk ↦ pk ])
    pub owner : t.user_id ≡ get_user_id r.username db
    pub sealed : String
    pub private_key : t.encrypted_private_key ≡ some sealed
    pub opens : decrypt x c₂.master_key sealed ≡ ok pem

  -- A server of direct mode with a key is exported with keys under a password and imported, alone, with
  -- the same password into a program with any other master key of a good size, whose database can take
  -- its row. Then exactly one row is added to the servers there: with the address, the port and the user
  -- of the exported server, its public key, and a private key that decrypts under the master key of the
  -- importing program to the exported one. The key is in the form that the import recognises, and nonces
  -- have twelve bytes.
  pub imported_key_opens :
      {enc pem : String}
      → s.name ≢ ""
      → s.ip_address ≢ ""
      → s.ssh_username ≢ ""
      → s.connection_mode ≢ "gsocket"
      → present s.encrypted_private_key ≡ some enc
      → decrypt x c₁.master_key enc ≡ ok pem
      → has_prefix (codes pem) (codes "-----BEGIN") ≡ true
      → x.base64_decode "" ≡ some []
      → new_cipher_ok c₂.master_key ≡ true
      → length nonce ≡ 12
      → length (nonces 0) ≡ 12
      → pass ≢ ""
      → Insertable
      → (t : Server) × (servers_after ≡ db.servers ++ t ∷ []) × SameKey pem t
  imported_key_opens {enc} {pem} named address user mode has_key opens begins empty fits size size₂
        given (row_fits, free) =
      let (h, sealed, made, read, again) =
        imported_key_secrets x laws lib export_laws c₁ c₂ keys pass s interval nonce (r.random 0)
          (nonces 0) named address user mode has_key opens begins empty fits size size₂ given in
      let Imported : FileServer → Type 0 = λ f.
        (t : Server) × ((import_config x lib c₂ keys nonces r (some (file_of f pass)) db).0.servers
          ≡ db.servers ++ t ∷ [])
        × SameKey pem t in
      let f =
        read_again (record (without_keys s interval) {
          encrypted_key = some h;
          public_key = s.public_key;
        }) in
      let public : String = elim s.public_key [ none ↦ "" | some pk ↦ pk ] in
      subst Imported (sym made) (
        row_of x lib c₂ keys nonces r db f sealed public none,
        import_config-one x lib c₂ keys nonces r db pass f sealed public none
            (subst
              (λ g.
                import_secrets x lib c₂ keys true pass (r.random 0) (nonces 0) g
                ≡ secrets sealed public none)
              made read)
            row_fits free,
        record {
          name = refl;
          address = rw (mode_of-direct s.connection_mode mode) refl;
          port = refl;
          user = rw (mode_of-direct s.connection_mode mode) refl;
          public_key = refl;
          owner = refl;
          sealed = sealed;
          private_key = refl;
          opens = again;
        },
      )

  -- A server of gsocket mode with a secret that was sealed under the master key of the exporting
  -- program, exported with keys under a password and imported, alone, with the same password into a
  -- program whose database can take its row: the row that is added there holds the very text that the
  -- exporting program stored, still sealed under the master key of the exporting program, whatever that
  -- of the importing one is. Nonces have twelve bytes.
  pub imported_gsocket_sealed :
      {g secret : String}
      → s.name ≢ ""
      → s.connection_mode ≡ "gsocket"
      → present s.gsocket_secret ≡ some g
      → g ≢ ""
      → decrypt x c₁.master_key g ≡ ok secret
      → length nonce ≡ 12
      → pass ≢ ""
      → Insertable
      → (t : Server) × (servers_after ≡ db.servers ++ t ∷ [])
        × (t.name ≡ s.name)
        × (t.connection_mode ≡ s.connection_mode)
        × (stored : String) × (t.gsocket_secret ≡ some stored)
        × (stored ≡ g)
        × (decrypt x c₁.master_key stored ≡ ok secret)
  imported_gsocket_sealed {g} {secret} named mode stored some_text opens size given
        (row_fits, free) =
      let (h, made, read) =
        imported_gsocket_secrets x laws lib export_laws c₁ c₂ keys pass s interval nonce
          (r.random 0) (nonces 0) named mode stored some_text size given in
      let f = read_again (record (without_keys s interval) { encrypted_gsocket_secret = some h }) in
      let Imported : FileServer → Type 0 = λ f.
        (t : Server) × ((import_config x lib c₂ keys nonces r (some (file_of f pass)) db).0.servers
          ≡ db.servers ++ t ∷ [])
        × (t.name ≡ s.name)
        × (t.connection_mode ≡ s.connection_mode)
        × (stored : String) × (t.gsocket_secret ≡ some stored)
        × (stored ≡ g)
        × (decrypt x c₁.master_key stored ≡ ok secret) in
      subst Imported (sym made) (
        row_of x lib c₂ keys nonces r db f "" "" (some g),
        import_config-one x lib c₂ keys nonces r db pass f "" "" (some g)
            (subst
              (λ e.
                import_secrets x lib c₂ keys true pass (r.random 0) (nonces 0) e
                ≡ secrets "" "" (some g))
              made read)
            row_fits free,
        refl,
        mode_of_used s.connection_mode mode,
        g,
        refl,
        refl,
        opens,
      )
