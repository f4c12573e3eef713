-- ===== src/Database.antt =====
-- The tables of internal/database/database.go, as lists of rows in order of insertion. A column
-- that every INSERT of the program fills, or that has a default, is not null here.
pub mod Users
use Prim.Native.String.{count}
use syncent.Base.{ℕ, String, Bool, Option, List, [], leb}

pub record User : Type 0 where
  pub id : String
  pub username : String
  pub password_hash : String
  pub totp_secret_encrypted : String
  pub is_totp_enabled : Bool
  pub role : String
  pub failed_login_attempts : ℕ
  pub locked_until : Option ℕ
  pub refresh_token_hash : Option String
  pub updated_at : ℕ

pub record Server : Type 0 where
  pub id : String
  pub user_id : String
  pub name : String
  pub ip_address : String
  pub ssh_port : ℕ
  pub ssh_username : String
  pub connection_mode : String
  pub encrypted_private_key : Option String
  pub public_key : Option String
  pub os_info : Option String
  pub kernel_info : Option String
  pub status : String
  pub last_ping_ms : Option ℕ
  pub consecutive_failures : ℕ
  pub gsocket_secret : Option String
  pub last_checked_at : Option ℕ
  pub location : Option String
  pub notes : Option String
  -- JSON, by its text
  pub tags : String
  pub expected_services : String
  pub log_paths : String
  pub health_check_interval : Option ℕ
  pub created_at : ℕ
  pub updated_at : ℕ

pub record AuditEntry : Type 0 where
  pub id : ℕ
  pub user_id : Option String
  pub server_id : Option String
  pub action : String
  pub detail : String
  pub source_ip : String
  pub prev_hash : String
  pub created_at : ℕ

pub record StatusChange : Type 0 where
  pub server_id : String
  pub status : String
  pub changed_at : ℕ

pub record UsedCode : Type 0 where
  pub username : String
  pub code : String
  pub used_at : ℕ

pub record Db : Type 0 where
  pub users : List User
  pub servers : List Server
  pub audit_log : List AuditEntry
  -- the sequence behind the BIGSERIAL key
  pub next_audit_id : ℕ
  pub status_history : List StatusChange
  pub used_totp_codes : List UsedCode
  pub app_config : List (String × String)

-- A value fits a VARCHAR(n) column.
abbrev pub varchar : ℕ → String → Bool
varchar n s = leb (count s) n

abbrev pub empty_db : Db
empty_db = record {
  users = [];
  servers = [];
  audit_log = [];
  next_audit_id = 1;
  status_history = [];
  used_totp_codes = [];
  app_config = [];
}
