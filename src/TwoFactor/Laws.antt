-- ===== src/TwoFactor/Laws.antt =====
-- When the requirement of a second factor changes.
use syncent.Base.{
  String, Bool, true, false, some, List, [], ◌∷◌, str_eq, eq_iff, ◌≡◌, refl, arith, Bool-cases, inl,
  inr,
}
use syncent.External.{External}
use syncent.Config.{Config}
use syncent.Http.{Request}
use syncent.Database.{Db}
use syncent.TwoFactor.{
  config_value, set_config, is_2fa_required, ToggleBody, verify_user_totp, toggle_2fa,
}

config_value-set_config :
    (key value : String) (l : List (String × String))
    → config_value key (set_config key value l) ≡ value
unfolding config_value set_config
config_value-set_config key value [] = ground (arith, eq_iff key key)
config_value-set_config key value ((k, v) ∷ rest) =
    let ih = config_value-set_config key value rest in
    elim (Bool-cases (str_eq k key)) [ inl e ↦ rw (e, e) refl | inr e ↦ rw (e, e) ih ]

both_ways : {P : Type 0} {b : Bool} → b ≡ true → b ≡ false → P
both_ways h k = absurd (cc)

module _ (x : External) (c : Config) where
  -- What `Toggle2FA` has checked when it turns the requirement off.
  pub record MayDisable (r : Request) (body : ToggleBody) (db : Db) : Type 0 where
    pub asked : body.enable ≡ false
    pub confirmed : body.confirmation ≡ "DISABLE 2FA"
    pub verified : verify_user_totp x c r.now r.username body.totp_code db ≡ true

  -- A call of `Toggle2FA` on a database that requires the second factor and that does not require it
  -- after the call was one that asked to turn it off, with the confirmation text and with a TOTP code
  -- that is valid for the caller.
  pub toggle_disable_verified :
      (r : Request) (body : ToggleBody) (db : Db)
      → is_2fa_required db ≡ true
      → is_2fa_required (toggle_2fa x c r (some body) db).0 ≡ false
      → MayDisable r body db
  unfolding toggle_2fa
  toggle_disable_verified r body db before after = elim (Bool-cases body.enable) [
    | inl e ↦ both_ways before (rw (e, before) at after)
    | inr e ↦ elim (Bool-cases (str_eq body.totp_code "")) [
      | inl f ↦ both_ways before (rw (e, before, f) at after)
      | inr f ↦ elim (Bool-cases (str_eq body.confirmation "DISABLE 2FA")) [
        | inr g ↦ both_ways before (rw (e, before, f, g) at after)
        | inl g ↦ elim (Bool-cases (verify_user_totp x c r.now r.username body.totp_code db)) [
          | inr v ↦ both_ways before (rw (e, before, f, g, v) at after)
          | inl v ↦ record {
            asked = e;
            confirmed = (eq_iff body.confirmation "DISABLE 2FA").0 g;
            verified = v;
          }
        ]
      ]
    ]
  ]
