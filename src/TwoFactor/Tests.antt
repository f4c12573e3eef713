-- ===== src/TwoFactor/Tests.antt =====
-- The second factor on a sample database.
use syncent.Base.{false, refl}
use syncent.TwoFactor.{toggle_2fa, is_2fa_required, ToggleBody}
use syncent.TwoFactor.Laws.{MayDisable, toggle_disable_verified}
use syncent.Audit.{write_audit_log, insert_entry}
use syncent.Sample.Codec.{decode, encode, to_bytes, of_bytes}
use syncent.Sample.{sample, config, request, db}

abbrev turn_off : ToggleBody
turn_off = record { enable = false; totp_code = "123456"; confirmation = "DISABLE 2FA" }

toggle_disable_verified_example : MayDisable sample config (request 1000 "alice") turn_off db
unfolding is_2fa_required toggle_2fa decode encode to_bytes of_bytes write_audit_log insert_entry
toggle_disable_verified_example =
    toggle_disable_verified sample config (request 1000 "alice") turn_off db refl refl
