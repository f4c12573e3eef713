-- ===== src/Audit.antt =====
-- internal/services/audit.go: the hash chain over the audit_log table.
pub mod Frame
pub mod Chain
pub mod Tamper
mod Tests
use syncent.Base.{
  ℕ, suc, String, Bool, true, false, Option, none, some, List, [], ◌∷◌, ◌++◌, ◌&&◌, str_eq,
  if◌then◌else◌, length, last?,
}
use Prim.Native.String.{◌++◌ as str_append}
use syncent.External.{External}
use syncent.Database.{Db, AuditEntry, User, varchar}
use syncent.Database.Users.{find_in}

module _ (x : External) where
  unfoldable pub genesis_hash : String
  genesis_hash = x.sha256_hex "genesis"

  -- `raw`, before it is hashed
  raw_entry : ℕ → String → String → ℕ → String
  raw_entry id action detail created_at = str_append (x.decimal id) (
      str_append "|" (
        str_append action
          (str_append "|" (str_append detail (str_append "|" (x.rfc3339_nano created_at))))))

  unfoldable pub compute_hash : ℕ → String → String → ℕ → String
  unfolding raw_entry
  compute_hash id action detail created_at =
      let raw = raw_entry id action detail created_at in
      if str_eq x.master_key_env ""
      then x.sha256_hex raw
      else x.hmac_sha256_hex x.master_key_env raw

  abbrev pub hash_of : AuditEntry → String
  hash_of e = compute_hash e.id e.action e.detail e.created_at

  -- the SELECT of `WriteAuditLog`, and the hash that the next entry carries
  unfoldable pub next_prev_hash : List AuditEntry → String
  next_prev_hash log = elim (last? log) [ none ↦ genesis_hash | some e ↦ hash_of e ]

-- (SELECT id FROM users WHERE username=$1), NULL for a nil username
abbrev pub user_id_of : Option String → List User → Option String
user_id_of none users = none
user_id_of (some name) users = elim (find_in name users) [ none ↦ none | some u ↦ some u.id ]

-- the row that `WriteAuditLog` inserts
abbrev pub new_entry :
    String → ℕ → String → String → Option String → Option String → String → Db → AuditEntry
new_entry prev_hash now action detail server_id user source_ip db = record {
  id = db.next_audit_id;
  user_id = user_id_of user db.users;
  server_id = server_id;
  action = action;
  detail = detail;
  source_ip = source_ip;
  prev_hash = prev_hash;
  created_at = now;
}

abbrev pub append_entry : AuditEntry → Db → Db
append_entry e db = record db {
  audit_log = db.audit_log ++ e ∷ [];
  next_audit_id = suc db.next_audit_id;
}

-- a failed INSERT has used up its id
abbrev pub skip_id : Db → Db
skip_id db = record db { next_audit_id = suc db.next_audit_id }

-- the INSERT of `WriteAuditLog`: it fails where a value does not fit its column
unfoldable pub insert_entry :
    String → ℕ → String → String → Option String → Option String → String → Db → Option Db
insert_entry prev_hash now action detail server_id user source_ip db =
    if varchar 50 action && varchar 45 source_ip
    then some (append_entry (new_entry prev_hash now action detail server_id user source_ip db) db)
    else none

pub record AuditVerifyResult : Type 0 where
  pub valid : Bool
  pub total : ℕ
  pub broken_at : Option ℕ

module _ (x : External) where
  unfoldable pub write_audit_log :
      ℕ → String → String → Option String → Option String → String → Db → Option Db
  write_audit_log now action detail server_id user source_ip db =
      insert_entry (next_prev_hash x db.audit_log) now action detail server_id user source_ip db

  -- Every caller drops the error of `WriteAuditLog`.
  unfoldable pub log_action : ℕ → String → String → Option String → Option String → String → Db → Db
  log_action now action detail server_id user source_ip db =
      elim (write_audit_log now action detail server_id user source_ip db) [
        | none ↦ skip_id db
        | some db' ↦ db'
      ]

  -- the loop of `VerifyAuditChain`, from the entry before
  check_from : ℕ → AuditEntry → List AuditEntry → AuditVerifyResult
  check_from total prev [] = record { valid = true; total = total; broken_at = none }
  check_from total prev (e ∷ rest) =
      if str_eq e.prev_hash (hash_of x prev)
      then check_from total e rest
      else record { valid = false; total = total; broken_at = some e.id }

  check_entries : List AuditEntry → AuditVerifyResult
  unfolding check_from
  check_entries [] = record { valid = true; total = 0; broken_at = none }
  check_entries (e ∷ rest) =
      if str_eq e.prev_hash (genesis_hash x)
      then check_from (length (e ∷ rest)) e rest
      else record { valid = false; total = length (e ∷ rest); broken_at = some e.id }

  unfoldable pub verify_audit_chain : Db → AuditVerifyResult
  unfolding check_entries
  verify_audit_chain db = check_entries db.audit_log
