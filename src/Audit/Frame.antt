-- ===== src/Audit/Frame.antt =====
-- An audit entry touches no other table.
use syncent.Base.{ℕ, String, Option, ◌≡◌, arith}
use syncent.External.{External}
use syncent.Database.{Db}
use syncent.Audit.{log_action, write_audit_log, insert_entry}

abbrev pub SameTables : Db → Db → Type 0
SameTables d e =
    (d.users ≡ e.users)
    × (d.servers ≡ e.servers)
    × (d.status_history ≡ e.status_history)
    × (d.used_totp_codes ≡ e.used_totp_codes)
    × (d.app_config ≡ e.app_config)

module _ (x : External) (now : ℕ) (action detail : String) (server_id user : Option String)
    (source_ip : String) (db : Db) where
  pub log_action_frame : SameTables (log_action x now action detail server_id user source_ip db) db
  unfolding log_action write_audit_log insert_entry
  log_action_frame = ground arith

  pub users-log_action :
      (log_action x now action detail server_id user source_ip db).users ≡ db.users
  users-log_action = log_action_frame.0
