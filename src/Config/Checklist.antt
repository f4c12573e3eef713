-- ===== src/Config/Checklist.antt =====
-- What a start-up that passes the checklist has made sure of.
use Prim.Native.String.{len}
use syncent.Base.{
  ℕ, ◌≤◌, String, Bool, true, false, not, ◌&&◌, List, [], ◌∷◌, ◌++◌, length, any, str_eq, eq_iff,
  ltb, ◌==◌, ==_iff, codes, ◌≡◌, ◌≢◌, ◌↔◌, ◌⊎◌, inl, inr, refl, sym, subst, ◌∙◌, arith, Bool-cases,
  Option-cases, if◌then◌else◌,
}
use syncent.External.{External}
use syncent.Crypto.{new_cipher_ok, encrypt, ok}
use syncent.Config.{
  Config, Environment, is_dev, contains, equal_fold, get_env, load_master_key, load, insecure,
  master_key_errors, jwt_secret_errors, database_errors, https_errors, run_security_checklist,
}

-- What the checklist demands of a configuration.
pub record Secure (c : Config) : Type 0 where
  pub key_valid : new_cipher_ok c.master_key ≡ true
  pub not_default : any (λ v. equal_fold (codes c.jwt_secret) (codes v)) insecure ≡ false
  pub long_secret : 32 ≤ len c.jwt_secret
  pub has_database : c.database_url ≢ ""
  pub own_password :
      (is_dev c ≡ true) ⊎ (contains (codes c.database_url) (codes "changeme") ≡ false)
  pub https : (is_dev c ≡ true) ⊎ (c.enforce_https ≡ true)

append_nil {ℓ} : {A : Type ℓ} (l m : List A) → l ++ m ≡ [] → (l ≡ []) × (m ≡ [])
append_nil [] m h = (refl, h)
append_nil (a ∷ l) m h = absurd (cc h)

-- the two shapes of a test that may report an error
one_test : (m : String) (a : Bool) → ((if a then m ∷ [] else []) ≡ []) ↔ (a ≡ false)
one_test m true = (λ h. absurd (cc h), λ h. absurd (cc h))
one_test m false = (λ h. refl, λ h. refl)

two_tests :
    (m : String) (a : Bool) (l : List String)
    → ((if a then m ∷ [] else l) ≡ []) ↔ ((a ≡ false) × (l ≡ []))
two_tests m true l = (λ h. absurd (cc h), λ h. absurd (cc (h.0)))
two_tests m false l = (λ h. (refl, h), λ h. h.1)

good_test : (m : String) (a : Bool) → ((if a then [] else m ∷ []) ≡ []) ↔ (a ≡ true)
good_test m true = (λ h. refl, λ h. refl)
good_test m false = (λ h. absurd (cc h), λ h. absurd (cc h))

either_fails : (a b : Bool) → ((a && b) ≡ false) ↔ ((b ≡ false) ⊎ (a ≡ false))
either_fails true true = (λ h. absurd (cc h), λ h. absurd (ground (arith, h)))
either_fails true false = (λ h. inl refl, λ h. refl)
either_fails false b = (λ h. inr refl, λ h. refl)

not_iff : (b : Bool) → (not b ≡ false) ↔ (b ≡ true)
not_iff true = (λ h. refl, λ h. refl)
not_iff false = (λ h. absurd (cc h), λ h. absurd (cc h))

is_given : (s : String) → (str_eq s "" ≡ false) ↔ (s ≢ "")
is_given s = (
  λ h e. cc (sym h ∙ (eq_iff s "").1 e),
  λ h. elim (Bool-cases (str_eq s "")) [ inl e ↦ absurd (h ((eq_iff s "").0 e)) | inr e ↦ e ],
)

module _ (c : Config) where
  key_iff : (master_key_errors c ≡ []) ↔ (new_cipher_ok c.master_key ≡ true)
  unfolding master_key_errors
  key_iff = (
    λ h.
        (good_test _ (new_cipher_ok c.master_key)).0
          (((two_tests _ (length c.master_key == 0) _).0 h).1),
    λ h.
        (two_tests _ (length c.master_key == 0) _).1
          (ground (arith, h), (good_test _ (new_cipher_ok c.master_key)).1 h),
  )

  default_secret : Bool
  default_secret = any (λ v. equal_fold (codes c.jwt_secret) (codes v)) insecure

  jwt_iff : (jwt_secret_errors c ≡ []) ↔ ((default_secret ≡ false) × (32 ≤ len c.jwt_secret))
  unfolding jwt_secret_errors default_secret
  jwt_iff = (
    λ h.
        let both = append_nil _ _ (((two_tests _ (str_eq c.jwt_secret "") _).0 h).1) in
        let short = (one_test _ (ltb (len c.jwt_secret) 32)).0 (both.1) in
        ((one_test _ _).0 (both.0), ground (arith, short)),
    λ h. (two_tests _ (str_eq c.jwt_secret "") _).1 (
      elim (Bool-cases (str_eq c.jwt_secret "")) [
        | inl e ↦ absurd (
            omega
              (arith, (subst (λ (z : String). 32 ≤ len z) ((eq_iff c.jwt_secret "").0 e) (h.1))))
        | inr e ↦ e
      ],
      rw ((one_test _ _).1 (h.0))
          ((one_test _ (ltb (len c.jwt_secret) 32)).1 (ground (arith, h.1))),
    ),
  )

  OwnPassword : Type 0
  OwnPassword = (is_dev c ≡ true) ⊎ (contains (codes c.database_url) (codes "changeme") ≡ false)

  database_iff : (database_errors c ≡ []) ↔ ((c.database_url ≢ "") × OwnPassword)
  unfolding database_errors OwnPassword
  database_iff = (
    λ h.
        let both = (two_tests _ (str_eq c.database_url "") _).0 h in
        let one = (either_fails _ (not (is_dev c))).0 ((one_test _ _).0 (both.1)) in
        (
          (is_given c.database_url).0 (both.0),
          elim one [ inl e ↦ inl ((not_iff (is_dev c)).0 e) | inr e ↦ inr e ],
        ),
    λ h. (two_tests _ (str_eq c.database_url "") _).1 (
      (is_given c.database_url).1 (h.0),
      (one_test _ _).1 (
          (either_fails _ (not (is_dev c))).1
            (elim (h.1) [ inl e ↦ inl ((not_iff (is_dev c)).1 e) | inr e ↦ inr e ])),
    ),
  )

  https_iff : (https_errors c ≡ []) ↔ ((is_dev c ≡ true) ⊎ (c.enforce_https ≡ true))
  unfolding https_errors
  https_iff = (
    λ h. elim ((either_fails (not (is_dev c)) (not c.enforce_https)).0 ((one_test _ _).0 h)) [
      | inl e ↦ inr ((not_iff c.enforce_https).0 e)
      | inr e ↦ inl ((not_iff (is_dev c)).0 e)
    ],
    λ h. (one_test _ _).1 (
        (either_fails (not (is_dev c)) (not c.enforce_https)).1 (elim h [
          | inl e ↦ inr ((not_iff (is_dev c)).1 e)
          | inr e ↦ inl ((not_iff c.enforce_https).1 e)
        ])),
  )

  -- `RunSecurityChecklist` finds no error exactly in the configurations that are secure: a master key
  -- that AES takes, a JWT secret of at least 32 bytes that is none of the defaults, a database, and,
  -- outside development, no default password in its URL and HTTPS enforced.
  pub checklist_iff : (run_security_checklist c ≡ []) ↔ Secure c
  unfolding run_security_checklist default_secret OwnPassword
  checklist_iff = (
    λ h.
        let key = append_nil (master_key_errors c) _ h in
        let jwt = append_nil (jwt_secret_errors c) _ (key.1) in
        let database = append_nil (database_errors c) _ (jwt.1) in
        record {
          key_valid = key_iff.0 (key.0);
          not_default = (jwt_iff.0 (jwt.0)).0;
          long_secret = (jwt_iff.0 (jwt.0)).1;
          has_database = (database_iff.0 (database.0)).0;
          own_password = (database_iff.0 (database.0)).1;
          https = https_iff.0 (database.1);
        },
    λ s. rw (
      key_iff.1 s.key_valid,
      jwt_iff.1 (s.not_default, s.long_secret),
      database_iff.1 (s.has_database, s.own_password),
      https_iff.1 s.https,
    ),
  )

module _ (e : Environment) where
  load_master_key_lengths : (load_master_key e ≡ []) ⊎ (length (load_master_key e) ≡ 32)
  unfolding load_master_key
  load_master_key_lengths = elim (Bool-cases (str_eq (get_env e "MASTER_KEY" "") "")) [
    | inl f ↦ inl (rw f refl)
    | inr f ↦ elim (Option-cases (e.base64_decode (get_env e "MASTER_KEY" ""))) [
      | inl g ↦ inl (rw (f, g) refl)
      | inr (decoded, g) ↦ elim (Bool-cases (length decoded == 32)) [
        | inl h ↦ inr (rw (f, g, h) ((==_iff (length decoded) 32).0 h))
        | inr h ↦ inl (rw (f, g, h) refl)
      ]
    ]
  ]

  -- A start-up whose loaded configuration passes the checklist runs with a master key of 32 bytes, and
  -- with it every text is encrypted, as soon as the random source gives the twelve bytes of a nonce.
  pub start_up_can_encrypt :
      (x : External) (nonce : List ℕ) (plaintext : String)
      → run_security_checklist (load e) ≡ []
      → length nonce ≡ 12
      → (length (load e).master_key ≡ 32)
        × (encrypt x (load e).master_key nonce plaintext
            ≡ ok (
                x.base64_encode
                  (nonce ++ x.gcm_seal (load e).master_key nonce (x.bytes plaintext))))
  unfolding load encrypt
  start_up_can_encrypt x nonce plaintext passed size =
      let secure = (checklist_iff (load e)).0 passed in
      elim load_master_key_lengths [
        | inl empty ↦ absurd (cc (rw empty at secure.key_valid))
        | inr full ↦ (full, rw (secure.key_valid, (==_iff (length nonce) 12).1 size))
      ]
