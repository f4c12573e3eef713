-- ===== src/Servers/Confined/Imports.antt =====
-- ImportConfig of internal/handlers/settings.go against the rows of the other users.
use syncent.Base.{
  ℕ, suc, String, Bool, ◌+◌, ◌*◌, List-cases, Option, none, some, List, [], ◌∷◌, ◌≡◌, ◌⊎◌, inl, inr,
  refl, Option-cases,
}
use syncent.External.{External}
use syncent.Config.{Config}
use syncent.Http.{Request}
use syncent.Database.{Db}
use syncent.Crypto.Keys.{KeyLib}
use syncent.TwoFactor.{get_user_id, username_of}
use syncent.Servers.{insert_server}
use syncent.Servers.Owned.{ids, Distinct}
use syncent.Servers.Frame.{
  Confined, Confined-trans, same-Confined, logged-Confined, insert_server-Confined,
}
use syncent.Transfer.{ExportLib}
use syncent.Transfer.Import.{
  FileServer, ImportBody, Secrets, passed_over, key_failed, secrets, import_secrets, imported_row,
  Progress, import_server, import_all, import_servers, import_config,
}

abbrev Opened : Secrets → Type 0
Opened o = (enc : String) × (public : String) × (gs : Option String) × (o ≡ secrets enc public gs)

Secrets-cases : (o : Secrets) → (o ≡ passed_over) ⊎ (o ≡ key_failed) ⊎ Opened o
Secrets-cases passed_over = inl refl
Secrets-cases key_failed = inr (inl refl)
Secrets-cases (secrets enc public gs) = inr (inr (enc, public, gs, refl))

module _ (x : External) (lib : ExportLib) (c : Config) (keys : KeyLib) (nonces : ℕ → List ℕ)
    (r : Request) (db : Db) (distinct : Distinct (ids db.servers)) where
  abbrev user_id : String
  user_id = get_user_id r.username db

  import_server-Confined :
      (with_keys : Bool) (pass : String) (i : ℕ) (s : FileServer) (p : Progress)
      → Confined user_id db p.db
      → Confined user_id db (import_server x lib c keys nonces r user_id with_keys pass i s p).db
  unfolding import_server
  import_server-Confined with_keys pass i s p h =
      elim (Secrets-cases
        (import_secrets x lib c keys with_keys pass (r.random (2 * i)) (nonces i) s)) [
          | inl over ↦ rw (import_server, over) h
          | inr (inl failed) ↦ rw (import_server, failed) h
          | inr (inr (enc, public, gs, opened)) ↦
              let row =
                imported_row s (x.uuid (r.random (2 * i + 1))) user_id enc public gs r.now in
              elim (Option-cases (insert_server row p.db)) [
                | inl fails ↦ rw (import_server, opened, fails) h
                | inr (stored, e) ↦
                    rw (import_server, opened, e)
                      (Confined-trans h (insert_server-Confined user_id p.db h.distinct row refl e))
              ]
        ]

  import_all-Confined :
      (with_keys : Bool) (pass : String) (i : ℕ) (l : List FileServer) (p : Progress)
      → Confined user_id db p.db
      → Confined user_id db (import_all x lib c keys nonces r user_id with_keys pass i l p).db
  unfolding import_all
  import_all-Confined with_keys pass i [] p h = h
  import_all-Confined with_keys pass i (s ∷ rest) p h =
      import_all-Confined with_keys pass (suc i) rest _
        (import_server-Confined with_keys pass i s p h)

  pub import_config-Confined :
      (body : Option ImportBody)
      → Confined user_id db (import_config x lib c keys nonces r body db).0
  unfolding import_config import_servers
  import_config-Confined none = same-Confined user_id db distinct
  import_config-Confined (some body) = elim (List-cases body.servers) [
    | inl empty ↦ rw (import_config, empty) (same-Confined user_id db distinct)
    | inr (s, rest, some_servers) ↦
        rw (import_config, some_servers)
          (logged-Confined user_id db distinct x r.now "config_imported" _ none (username_of r)
            r.client_ip _
            (import_all-Confined body.with_keys body.export_password 0 body.servers _
              (same-Confined user_id db distinct)))
  ]
