-- ===== src/History.antt =====
-- internal/handlers/history.go: the pages of the audit log, the histories of a server and the summary
-- of the dashboard. ORDER BY created_at DESC is a parameter, `latest_first`: the database is free in the
-- order of rows of one time.
pub mod Order
pub mod Pages
pub mod Dashboard
mod Tests
use syncent.Base.{
  ℕ, ◌+◌, ◌-◌, ◌*◌, String, Bool, true, false, ◌&&◌, ◌||◌, Option, none, some, List, [], ◌∷◌,
  length, take, drop, ltb, leb, str_eq, if◌then◌else◌,
}
use syncent.External.{External}
use syncent.Config.{Config}
use syncent.Http.{Request}
use syncent.Database.{Db, Server, AuditEntry, StatusChange}
use syncent.Audit.{AuditVerifyResult, verify_audit_chain}
use syncent.TwoFactor.{get_user_id}
use syncent.Execute.{verify_server_access}
use syncent.Availability.{transitions, hour, day}

-- user_id=$1 OR user_id IS NULL
abbrev pub is_visible : String → AuditEntry → Bool
is_visible user_id e = elim e.user_id [ none ↦ true | some u ↦ str_eq u user_id ]

-- server_id=$1
abbrev pub is_about : String → AuditEntry → Bool
is_about id e = elim e.server_id [ none ↦ false | some s ↦ str_eq s id ]

-- the rows that a WHERE lets through
unfoldable pub entries_where : (AuditEntry → Bool) → List AuditEntry → List AuditEntry
entries_where p [] = []
entries_where p (e ∷ rest) = let others = entries_where p rest in if p e then e ∷ others else others

-- what `strconv.Atoi` gives, 0 for an error or a number below it
abbrev pub page_or_default : ℕ → ℕ
page_or_default page = if ltb page 1 then 1 else page

abbrev pub limit_or_default : ℕ → ℕ
limit_or_default limit = if ltb limit 1 || ltb 100 limit then 50 else limit

-- LIMIT and OFFSET
abbrev pub page_of : ℕ → ℕ → List AuditEntry → List AuditEntry
page_of page limit rows = take limit (drop ((page - 1) * limit) rows)

pub record AuditPage : Type 0 where
  pub entries : List AuditEntry
  pub page : ℕ
  pub limit : ℕ
  pub total : ℕ

-- The query fails, with the answer 500, where the user id is no UUID, as the empty one.
unfoldable pub get_audit_log :
    (List AuditEntry → List AuditEntry) → Request → ℕ → ℕ → Db → Option AuditPage
get_audit_log latest_first r page limit db =
    let user_id = get_user_id r.username db in
    let visible = entries_where (is_visible user_id) db.audit_log in
    let page' = page_or_default page in
    let limit' = limit_or_default limit in
    if str_eq user_id ""
    then none
    else some record {
      entries = page_of page' limit' (latest_first visible);
      page = page';
      limit = limit';
      total = length visible;
    }

-- `none` is the answer 404
unfoldable pub get_server_history :
    (List AuditEntry → List AuditEntry) → Request → String → ℕ → ℕ → Db → Option (List AuditEntry)
get_server_history latest_first r id page limit db = elim (verify_server_access r id db) [
  | none ↦ none
  | some s ↦ some (
      page_of (page_or_default page) (limit_or_default limit)
        (latest_first (entries_where (is_about id) db.audit_log)))
]

-- the time that a label stands for
abbrev range_of : String → ℕ
range_of label =
    if str_eq label "24h" then day else if str_eq label "30d" then 30 * day else 7 * day

-- `none` is the answer 404; the label and the changes since then
unfoldable pub get_status_history :
    (List StatusChange → List StatusChange)
    → Request
    → String
    → String
    → Db
    → Option (String × List StatusChange)
get_status_history by_time r id label db = elim (verify_server_access r id db) [
  | none ↦ none
  | some s ↦
      let range = if str_eq label "" then "7d" else label in
      some (range, transitions by_time id (r.now - range_of range) db.status_history)
]

-- the handler `VerifyAuditChain`
unfoldable pub verify_chain_handler : External → Db → AuditVerifyResult
verify_chain_handler x db = verify_audit_chain x db

-- SELECT COUNT(*) FROM servers WHERE ...
unfoldable pub count_where : (Server → Bool) → List Server → ℕ
count_where p [] = 0
count_where p (s ∷ rest) = (if p s then 1 else 0) + count_where p rest

abbrev pub has_status : String → String → Server → Bool
has_status user_id status s = str_eq s.user_id user_id && str_eq s.status status

-- status IN ('offline','unreachable','ssh_down')
abbrev pub is_offline : String → Bool
is_offline status =
    str_eq status "offline" || str_eq status "unreachable" || str_eq status "ssh_down"

abbrev pub checked_before : ℕ → Server → Bool
checked_before t s = elim s.last_checked_at [ none ↦ false | some at ↦ ltb at t ]

pub record Summary : Type 0 where
  pub total : ℕ
  pub online : ℕ
  pub offline : ℕ
  pub unreachable : ℕ
  pub pending_setup : ℕ
  pub stale : ℕ
  pub recent_activity : List AuditEntry

unfoldable pub dashboard_summary :
    (List AuditEntry → List AuditEntry) → Config → Request → Db → Summary
dashboard_summary latest_first c r db =
    let user_id = get_user_id r.username db in
    let stale_t = r.now - c.stale_server_days * day in
    record {
      total = count_where (λ s. str_eq s.user_id user_id) db.servers;
      online = count_where (has_status user_id "online") db.servers;
      offline = count_where (λ s. str_eq s.user_id user_id && is_offline s.status) db.servers;
      unreachable = count_where (has_status user_id "unreachable") db.servers;
      pending_setup = count_where (has_status user_id "pending_setup") db.servers;
      stale =
          count_where
            (λ s. str_eq s.user_id user_id && is_offline s.status && checked_before stale_t s)
            db.servers;
      recent_activity = take 10 (latest_first (entries_where (is_visible user_id) db.audit_log));
    }
