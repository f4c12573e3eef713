-- ===== src/Accounts/Laws.antt =====
-- What the handlers of the accounts keep: one first administrator, the second factor, the sessions.
use Prim.Native.String.{len}
use syncent.Base.{
  ℕ, String, true, false, not, ◌||◌, Option, none, some, List, [], ◌∷◌, ◌++◌, str_eq, eq_iff, ltb,
  leb, ◌≡◌, ◌≢◌, ◌⊎◌, inl, inr, refl, ap, ◌∙◌, arith, Bool-cases, Option-cases, List-cases,
  if◌then◌else◌,
}
use syncent.External.{External}
use syncent.Config.{Config}
use syncent.Http.{Response, Request, respond_json, respond_error}
use syncent.Database.{Db, User, varchar}
use syncent.Database.Users.{find_in, update_in, find_in-update_in}
use syncent.Crypto.{encrypt, decrypt, Result-cases}
use syncent.Audit.Frame.{users-log_action, log_action_frame}
use syncent.Tokens.{verify_password, verify_totp, verify_refresh_token, hash_password}
use syncent.Auth.{increment_failures, stored_is, refresh}
use syncent.TwoFactor.{config_value, set_config, is_2fa_required}
use syncent.Accounts.{
  Credentials, ResetBody, new_user, add_user, insert_first_user, set_password, allowed_key,
  update_keys, setup_with, setup, count_failure, stored_hash, stored_secret, ok_or_empty,
  reset_with, reset_password, update_app_config,
}

config_value-set_config_other :
    (key other value : String) (l : List (String × String))
    → str_eq key other ≡ false
    → config_value other (set_config key value l) ≡ config_value other l
unfolding config_value set_config
config_value-set_config_other key other value [] h = rw h refl
config_value-set_config_other key other value ((k, v) ∷ rest) h =
    let ih = config_value-set_config_other key other value rest h in
    elim (Bool-cases (str_eq k key)) [
      | inl e ↦
          let differs : str_eq k other ≡ false = rw ((eq_iff k key).0 e) h in rw (e, differs) refl
      | inr e ↦ rw e (ap (λ (z : String). if str_eq k other then v else z) ih)
    ]

-- no allowed key is the one of the second factor
allowed_key-other : (k : String) → allowed_key k ≡ true → str_eq k "require_2fa" ≡ false
unfolding allowed_key
allowed_key-other k h = elim (Bool-cases (str_eq k "require_2fa")) [
  | inr e ↦ e
  | inl e ↦ absurd (cc (rw ((eq_iff k "require_2fa").0 e) at h))
]

config_value-update_keys :
    (body l : List (String × String))
    → config_value "require_2fa" (update_keys body l) ≡ config_value "require_2fa" l
unfolding update_keys
config_value-update_keys [] l = refl
config_value-update_keys ((k, v) ∷ rest) l = elim (Bool-cases (allowed_key k)) [
  | inl e ↦ rw e (
      config_value-update_keys rest (set_config k v l)
      ∙ config_value-set_config_other k "require_2fa" v l (allowed_key-other k e))
  | inr e ↦ rw e (config_value-update_keys rest l)
]

insert_cases :
    (u : User) (db : Db)
    → (insert_first_user u db ≡ none)
      ⊎ ((db.users ≡ []) × (insert_first_user u db ≡ some (add_user u db)))
unfolding insert_first_user
insert_cases u db = elim (List-cases db.users) [
  | inr (v, rest, e) ↦ inl (rw e refl)
  | inl e ↦ elim (Bool-cases (varchar 50 u.username)) [
    | inl f ↦ inr (e, rw (e, f) refl)
    | inr f ↦ inl (rw (e, f) refl)
  ]
]

module _ (x : External) (c : Config) (r : Request) where
  -- No request to `UpdateAppConfig` changes whether the second factor is required.
  pub update_app_config_keeps_2fa :
      (body : Option (List (String × String))) (db : Db)
      → is_2fa_required (update_app_config x c r body db).0 ≡ is_2fa_required db
  unfolding update_app_config is_2fa_required
  update_app_config_keeps_2fa none db = refl
  update_app_config_keeps_2fa (some body) db =
      ap (λ (v : String). not (str_eq v "false"))
        (ap (config_value "require_2fa") ((log_action_frame x r.now _ _ _ _ r.client_ip _).4)
          ∙ config_value-update_keys body db.app_config)

  -- A wrong password at `ValidateCredentials` changes the users table as the same wrong password at
  -- `Login` does: the same counter, the same lock.
  pub counts_as_login :
      (new_fails : ℕ) (username : String) (db : Db)
      → (count_failure x c r new_fails username db).users
        ≡ (increment_failures x r.now username new_fails r.client_ip db).users
  unfolding count_failure increment_failures
  counts_as_login new_fails username db = elim (Bool-cases (leb 5 new_fails)) [
    | inl e ↦ rw (e, users-log_action)
    | inr e ↦ rw (e, users-log_action)
  ]

  -- The user that `Setup` may have made.
  pub record SetUp (body : Credentials) (db after : Db) : Type 0 where
    pub was_empty : db.users ≡ []
    pub admin : User
    pub only_user : after.users ≡ admin ∷ []
    pub named : admin.username ≡ body.username
    pub is_admin : admin.role ≡ "admin"

  abbrev MadeOrNot : Credentials → Db → Db × Response → Type 0
  MadeOrNot body db after =
      ((after.0 ≡ db) × (after.1.status ≢ 201)) ⊎ (SetUp body db after.0 × (after.1.status ≡ 201))

  setup_with_once : (body : Credentials) (db : Db) → MadeOrNot body db (setup_with x c r body db)
  unfolding setup_with respond_error respond_json
  setup_with_once body db = elim (Option-cases (hash_password x body.password (r.random 0))) [
    | inl e ↦ rw (setup_with, e) (inl (refl, λ h. omega (arith, h)))
    | inr (hash, e) ↦ elim (Option-cases (x.totp_generate body.username (r.random 1))) [
      | inl f ↦ rw (setup_with, e, f) (inl (refl, λ h. omega (arith, h)))
      | inr ((secret, uri), f) ↦ elim (Result-cases (encrypt x c.master_key r.nonce secret)) [
        | inl (q, g) ↦ rw (setup_with, e, f, g) (inl (refl, λ h. omega (arith, h)))
        | inr (sealed, g) ↦
            elim (insert_cases
              (new_user (x.uuid (r.random 2)) body.username hash sealed "admin" r.now) db) [
                | inl k ↦ rw (setup_with, e, f, g, k) (inl (refl, λ h. omega (arith, h)))
                | inr (empty, k) ↦
                    rw (setup_with, e, f, g, k)
                      (inr (
                        record {
                          was_empty = empty;
                          admin =
                              new_user (x.uuid (r.random 2)) body.username hash sealed "admin"
                                r.now;
                          only_user =
                              users-log_action x r.now _ _ _ _ r.client_ip _
                              ∙ ap
                                  (λ (l : List User).
                                    l
                                    ++ new_user (x.uuid (r.random 2)) body.username hash sealed
                                        "admin" r.now
                                      ∷ [])
                                  empty;
                          named = refl;
                          is_admin = refl;
                        },
                        refl,
                      ))
              ]
      ]
    ]
  ]

  -- `Setup` makes an administrator only where there is no user at all, and then that administrator is
  -- the only user, with status 201; in every other case the database stays as it was and the answer
  -- is not 201.
  pub setup_once :
      (body : Credentials) (db : Db)
      → (((setup x c r (some body) db).0 ≡ db) × ((setup x c r (some body) db).1.status ≢ 201))
        ⊎ (SetUp body db (setup x c r (some body) db).0
            × ((setup x c r (some body) db).1.status ≡ 201))
  unfolding setup respond_error respond_json
  setup_once body db = elim (Bool-cases (str_eq body.username "" || str_eq body.password "")) [
    | inl e ↦ rw e (inl (refl, λ h. omega (arith, h)))
    | inr e ↦ elim (Bool-cases (ltb (len body.password) 12)) [
      | inl f ↦ rw (e, f) (inl (refl, λ h. omega (arith, h)))
      | inr f ↦ rw (e, f) (setup_with_once body db)
    ]
  ]

  refused_token :
      (s : Request) (token hash : String) (db : Db)
      → verify_refresh_token x s.now token c.jwt_secret ≡ some (r.username, hash)
      → stored_is (find_in r.username db.users) hash ≡ false
      → refresh x c s (some token) db ≡ (db, respond_error 401 "REFRESH_REVOKED" "Token revoked.")
  unfolding refresh
  refused_token s token hash db parsed cleared = rw (parsed, refresh, cleared)

  no_hash :
      (new hash : String) (us : List User)
      → stored_is (find_in r.username (update_in r.username (set_password new r.now) us)) hash
        ≡ false
  unfolding stored_is
  no_hash new hash us =
      rw (find_in-update_in r.username (set_password new r.now) us (λ u. refl))
        (elim (Option-cases (find_in r.username us)) [ inl e ↦ rw e refl | inr (u, e) ↦ rw e refl ])

  Revoked : ResetBody → Db → Request → String → Db × Response → Type 0
  Revoked body db s token after =
      (verify_password x body.current_password (stored_hash x c r (find_in r.username db.users))
        ≡ true)
      × (refresh x c s (some token) after.0
          ≡ (after.0, respond_error 401 "REFRESH_REVOKED" "Token revoked."))

  reset_with_revokes :
      (body : ResetBody) (db : Db) (s : Request) (token hash : String)
      → (reset_with x c r body db).1.status ≡ 200
      → verify_refresh_token x s.now token c.jwt_secret ≡ some (r.username, hash)
      → Revoked body db s token (reset_with x c r body db)
  unfolding reset_with Revoked respond_error respond_json
  reset_with_revokes body db s token hash done parsed =
      elim (Bool-cases (
        verify_password x body.current_password
          (stored_hash x c r (find_in r.username db.users)))) [
            | inr e ↦ absurd (omega (arith, (rw e at done)))
            | inl e ↦
                elim (Bool-cases (
                  verify_totp x r.now
                    (ok_or_empty
                      (decrypt x c.master_key (stored_secret x c r (find_in r.username db.users))))
                    body.totp_code)) [
                      | inr f ↦ absurd (omega (arith, (rw (e, f) at done)))
                      | inl f ↦
                          rw (e, f)
                            (
                              refl,
                              refused_token s token hash _ parsed (
                                  rw (users-log_action x r.now _ _ _ _ r.client_ip _)
                                    (no_hash _ hash db.users)),
                            )
                    ]
          ]

  -- A password reset that succeeds had the current password right and leaves no refresh token of the
  -- user that is accepted: each is answered as a revoked one.
  pub reset_password_revokes :
      (body : ResetBody) (db : Db) (s : Request) (token hash : String)
      → (reset_password x c r (some body) db).1.status ≡ 200
      → verify_refresh_token x s.now token c.jwt_secret ≡ some (r.username, hash)
      → (verify_password x body.current_password (stored_hash x c r (find_in r.username db.users))
          ≡ true)
        × (refresh x c s (some token) (reset_password x c r (some body) db).0 ≡ (
          (reset_password x c r (some body) db).0,
          respond_error 401 "REFRESH_REVOKED" "Token revoked.",
        ))
  unfolding reset_password respond_error respond_json Revoked
  reset_password_revokes body db s token hash done parsed =
      elim (Bool-cases (
        str_eq body.new_password ""
        || str_eq body.totp_code ""
        || str_eq body.current_password "")) [
          | inl e ↦ absurd (omega (arith, (rw e at done)))
          | inr e ↦ elim (Bool-cases (ltb (len body.new_password) 12)) [
            | inl f ↦ absurd (omega (arith, (rw (e, f) at done)))
            | inr f ↦ rw (e, f) (reset_with_revokes body db s token hash (rw (e, f) at done) parsed)
          ]
        ]
