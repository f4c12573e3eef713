-- ===== src/Health.antt =====
-- internal/services/health_checker.go: the status of the servers. Each check of a server is a
-- goroutine that holds the row it read.
pub mod Laws
mod Tests
use syncent.Base.{
  ℕ, ◌+◌, String, Bool, true, false, not, ◌&&◌, ◌||◌, Option, none, some, List, [], ◌∷◌, ◌++◌, leb,
  str_eq, if◌then◌else◌, trim_text,
}
use syncent.External.{External}
use syncent.Config.{Config}
use syncent.Crypto.{Result, decrypt, ok, err}
use syncent.Database.{Db, Server, StatusChange, varchar}

-- UPDATE servers SET ... WHERE id=$1
unfoldable pub update_servers : String → (Server → Server) → List Server → List Server
update_servers id f [] = []
update_servers id f (s ∷ rest) = (if str_eq s.id id then f s else s) ∷ update_servers id f rest

-- SELECT ... FROM servers WHERE id=$1
unfoldable pub server_by_id : String → List Server → Option Server
server_by_id id [] = none
server_by_id id (s ∷ rest) = if str_eq s.id id then some s else server_by_id id rest

abbrev pub update_server : String → (Server → Server) → Db → Db
update_server id f db = record db { servers = update_servers id f db.servers }

abbrev pub set_failure_count : ℕ → ℕ → Server → Server
set_failure_count n now s = record s { consecutive_failures = n; last_checked_at = some now }

abbrev pub set_status : String → Server → Server
set_status status s = record s { status = status }

abbrev pub set_online : ℕ → Server → Server
set_online now s = record s {
  status = "online";
  consecutive_failures = 0;
  last_checked_at = some now;
}

abbrev pub set_ping : ℕ → ℕ → Server → Server
set_ping latency now s = record s { last_ping_ms = some latency; last_checked_at = some now }

-- `os_info IS NULL OR os_info = ''`
abbrev pub set_os_if_unset : String → Server → Server
set_os_if_unset os s = elim s.os_info [
  | none ↦ record s { os_info = some os }
  | some old ↦ if str_eq old "" then record s { os_info = some os } else s
]

abbrev pub set_kernel : String → Server → Server
set_kernel kernel s = record s { kernel_info = some kernel }

unfoldable pub record_status_change : ℕ → String → String → Db → Db
record_status_change now server_id status db = record db {
  status_history =
      db.status_history ++ record { server_id = server_id; status = status; changed_at = now } ∷ [];
}

-- `srv` is the row as it was read before the check
unfoldable pub handle_failure : Config → ℕ → Server → String → Db → Db
handle_failure c now srv new_status db =
    let counted = update_server srv.id (set_failure_count (srv.consecutive_failures + 1) now) db in
    if leb c.health_check_failures (srv.consecutive_failures + 1)
      && not (str_eq srv.status new_status)
    then record_status_change now srv.id new_status
        (update_server srv.id (set_status new_status) counted)
    else counted

-- `raw`, the outputs of the remote commands by their labels, "" for one that is missing
pub record Raw : Type 0 where
  pub cpu : String
  pub memory : String
  pub disk : String
  pub network : String
  pub disk_io : String
  pub processes : String
  pub os : String
  pub kernel : String

-- What `saveMetrics` changes, but for its own table `metrics`.
unfoldable pub save_metrics : ℕ → Server → Raw → Db → Db
unfolding trim_text
save_metrics now srv raw db =
    let os = trim_text raw.os in
    let kernel = trim_text raw.kernel in
    let with_os =
      if str_eq os "" || not (varchar 200 os)
      then db
      else update_server srv.id (set_os_if_unset os) db in
    let with_kernel =
      if str_eq kernel "" || not (varchar 200 kernel)
      then with_os
      else update_server srv.id (set_kernel kernel) with_os in
    let changed =
      if str_eq srv.status "online"
      then with_kernel
      else record_status_change now srv.id "online" with_kernel in
    update_server srv.id (set_online now) changed

-- the goroutine of `runPings`: whether the server answered, and after how long
unfoldable pub ping_check : Config → ℕ → Server → Bool × ℕ → Db → Db
ping_check c now srv (reachable, latency) db =
    if str_eq srv.connection_mode "gsocket"
    then db
    else (let pinged = update_server srv.id (set_ping latency now) db in
        if reachable then pinged else handle_failure c now srv "unreachable" pinged)

-- the goroutine of `runTCPChecks`
unfoldable pub tcp_check : Config → ℕ → Server → Bool × ℕ → Db → Db
tcp_check c now srv (is_open, latency) db =
    if str_eq srv.connection_mode "gsocket"
    then db
    else (let pinged = update_server srv.id (set_ping latency now) db in
        if not is_open && not (str_eq srv.status "unreachable")
        then handle_failure c now srv "ssh_down" pinged
        else pinged)

-- srv.ConnMode == "gsocket" && srv.GSocketSecret != nil && *srv.GSocketSecret != ""
abbrev pub gsocket_in_use : Server → Option String
gsocket_in_use s = elim s.gsocket_secret [
  | none ↦ none
  | some g ↦ if str_eq s.connection_mode "gsocket" && not (str_eq g "") then some g else none
]

abbrev output_or_empty : Option String → String
output_or_empty none = ""
output_or_empty (some out) = out

-- `run` is what a command answers through the gsocket, `none` for an error
unfoldable pub collect_metrics_gsocket :
    External → Config → ℕ → Server → String → (String → Option String) → Db → Db
collect_metrics_gsocket x c now srv g run db = elim (decrypt x c.master_key g) [
  | err e ↦ db
  | ok secret ↦
      let raw : Raw = record {
        cpu = output_or_empty (run "top -bn1 | head -5");
        memory = output_or_empty (run "free -b");
        disk = output_or_empty (run "df -B1 /");
        network = output_or_empty (run "cat /proc/net/dev");
        disk_io = output_or_empty (run "cat /proc/diskstats");
        processes = output_or_empty (run "ps aux --sort=-%cpu | head -6");
        os =
            output_or_empty (
              run
                "cat /etc/os-release 2>/dev/null | grep PRETTY_NAME | cut -d'\"' -f2 || uname -s");
        kernel = output_or_empty (run "uname -r");
      } in
      if str_eq raw.cpu "" && str_eq raw.memory "" && str_eq raw.disk ""
      then handle_failure c now srv "unreachable" db
      else save_metrics now srv raw db
]

-- What a server answers to a metrics run: by SSH the outputs of the batch or an error, by gsocket
-- each command for itself.
pub record Answers : Type 0 where
  pub batch : Option Raw
  pub run : String → Option String

unfoldable pub collect_metrics : External → Config → ℕ → Server → Answers → Db → Db
unfolding collect_metrics_gsocket
collect_metrics x c now srv answers db = elim (gsocket_in_use srv) [
  | some g ↦ collect_metrics_gsocket x c now srv g answers.run db
  | none ↦ elim srv.encrypted_private_key [
    | none ↦ db
    | some key ↦ if str_eq key "" then db else (elim answers.batch [
      | none ↦ handle_failure c now srv "unreachable" db
      | some raw ↦ save_metrics now srv raw db
    ])
  ]
]

-- getActiveServers
unfoldable pub active_servers : List Server → List Server
active_servers [] = []
active_servers (s ∷ rest) =
    if str_eq s.status "pending_setup" then active_servers rest else s ∷ active_servers rest

-- the error of a server that is not there, and the database
unfoldable pub collect_metrics_for_server :
    External → Config → ℕ → String → Answers → Db → Bool × Db
unfolding server_by_id collect_metrics
collect_metrics_for_server x c now id answer db = elim (server_by_id id db.servers) [
  | none ↦ (false, db)
  | some srv ↦ (true, collect_metrics x c now srv answer db)
]

-- A round of checks: the goroutines of the servers that were read, in one order in which they may
-- run; `check` is what one of them does.
unfoldable pub run_round : (Server → Db → Db) → List Server → Db → Db
run_round check [] db = db
run_round check (srv ∷ rest) db = run_round check rest (check srv db)

unfoldable pub run_pings : Config → ℕ → (Server → Bool × ℕ) → Db → Db
unfolding run_round active_servers ping_check
run_pings c now answer db =
    run_round (λ srv. ping_check c now srv (answer srv)) (active_servers db.servers) db

unfoldable pub run_tcp_checks : Config → ℕ → (Server → Bool × ℕ) → Db → Db
unfolding run_round active_servers tcp_check
run_tcp_checks c now answer db =
    run_round (λ srv. tcp_check c now srv (answer srv)) (active_servers db.servers) db

unfoldable pub run_metrics_collection : External → Config → ℕ → (Server → Answers) → Db → Db
unfolding run_round active_servers collect_metrics
run_metrics_collection x c now answer db =
    run_round (λ srv. collect_metrics x c now srv (answer srv)) (active_servers db.servers) db
