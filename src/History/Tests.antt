-- ===== src/History/Tests.antt =====
-- An audit log of three entries, and a server.
use syncent.Base.{ℕ, ◌+◌, ◌≤◌, Bool, none, some, [], ◌∷◌, length, eq_iff, ◌≡◌, arith}
use syncent.Http.{Request}
use syncent.Database.{Db, AuditEntry}
use syncent.TwoFactor.{get_user_id}
use syncent.History.{
  AuditPage, get_audit_log, dashboard_summary, count_where, has_status, entries_where,
}
use syncent.History.Order.{count_entries, Descending, latest_first, latest_first-LatestFirst}
use syncent.History.Pages.{visible, first_pages, pages_complete}
use syncent.History.Dashboard.{online, summary_adds_up}
use syncent.Sample.{config, request, db, db_with_server}

abbrev entry : ℕ → AuditEntry
entry n = record {
  id = n;
  user_id = none;
  server_id = none;
  action = "user_login";
  detail = "";
  source_ip = "";
  prev_hash = "";
  created_at = n;
}

abbrev logged : Db
logged = record db { audit_log = entry 1 ∷ entry 2 ∷ entry 3 ∷ [] }

abbrev alices : Request
alices = request 1000 "alice"

pages_complete_example :
    (first_pages latest_first alices 2 logged 2 ≡ latest_first (visible alices logged))
    × Descending (first_pages latest_first alices 2 logged 2)
    × ((q : AuditEntry → Bool)
        → count_entries q (first_pages latest_first alices 2 logged 2)
          ≡ count_entries q (visible alices logged))
    × ((page : ℕ) (p : AuditPage)
        → 1 ≤ page
        → get_audit_log latest_first alices page 2 logged ≡ some p
        → (p.total ≡ length (visible alices logged)) × (length p.entries ≤ 2))
unfolding get_user_id visible entries_where
pages_complete_example =
    pages_complete latest_first latest_first-LatestFirst alices logged
      (ground (arith, eq_iff "1" "")) 2 2 (omega arith) (omega arith) (omega arith)

summary_adds_up_example :
    let d = dashboard_summary latest_first config alices db_with_server in
    let refused = count_where (has_status "1" "auth_failed") db_with_server.servers in
    (d.total ≡ d.online + (d.offline + (d.pending_setup + refused)))
    × (d.unreachable ≤ d.offline)
    × (d.stale ≤ d.offline)
unfolding get_user_id
summary_adds_up_example = summary_adds_up latest_first config alices db_with_server (online, tt)
