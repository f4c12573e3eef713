-- ===== src/Terminal/Sockets.antt =====
-- The checks of the other websockets before the connection is upgraded: HandleGSTerminal and
-- HandleGSLogs of internal/websocket/gs_terminal.go, HandleLogStream of internal/websocket/logs.go; and
-- what a terminal over a gsocket checks next.
use syncent.Base.{
  ℕ, String, Bool, not, ◌&&◌, Option, none, some, List, [], ◌∷◌, any, str_eq, if◌then◌else◌,
}
use syncent.External.{External}
use syncent.Config.{Config}
use syncent.Database.{Db, Server, User}
use syncent.Crypto.{decrypt, ok, err}
use syncent.Tokens.{verify_access_token}
use syncent.Terminal.{
  Counters, Gate, unauthorized, not_found, decryption_error, upgraded, limits, gate,
  terminal_code_ok,
}

-- SELECT ... FROM servers s JOIN users u ON s.user_id = u.id WHERE s.id=$1 AND u.username=$2 AND ...
unfoldable pub server_where :
    (Server → Bool) → String → String → List User → List Server → Option Server
server_where p id username users [] = none
server_where p id username users (s ∷ rest) =
    let other = server_where p id username users rest in
    if str_eq s.id id && any (λ u. str_eq u.id s.user_id && str_eq u.username username) users && p s
    then some s
    else other

abbrev pub is_set_up : Server → Bool
is_set_up s = not (str_eq s.status "pending_setup")

abbrev pub is_gsocket : Server → Bool
is_gsocket s = str_eq s.connection_mode "gsocket" && is_set_up s

-- the secret of the row, "" where there is none
unfoldable pub gs_secret : String → String → Db → String
gs_secret id username db = elim (server_where is_gsocket id username db.users db.servers) [
  | none ↦ ""
  | some s ↦ elim s.gsocket_secret [ none ↦ "" | some g ↦ g ]
]

-- The websockets, as main.go routes them.
pub data Socket : Type 0 where
  ssh_terminal gs_terminal log_stream gs_log_stream : Socket

-- the limits that hold for a kind of websocket: a log stream has none
unfoldable pub limits_of : Socket → String → Counters → Gate
limits_of ssh_terminal id s = limits id s
limits_of gs_terminal id s = limits id s
limits_of log_stream id s = upgraded
limits_of gs_log_stream id s = upgraded

module _ (x : External) (c : Config) where
  -- the user of a token, in all of them
  unfoldable pub for_user : ℕ → String → (String → Gate) → Gate
  for_user now token next = elim (verify_access_token x now token c.jwt_secret) [
    | none ↦ unauthorized
    | some username ↦ if str_eq username "" then unauthorized else next username
  ]

  -- `HandleGSTerminal`
  unfoldable pub gs_terminal_gate : ℕ → String → String → Db → Counters → Gate
  gs_terminal_gate now id token db s =
      for_user now token
        (λ username. if str_eq (gs_secret id username db) "" then not_found else limits id s)

  -- the code that is asked for next, and the secret
  unfoldable pub gs_terminal_opens : ℕ → String → String → String → Db → Option String
  gs_terminal_opens now id username code db =
      if terminal_code_ok x c now username code db
      then (elim (decrypt x c.master_key (gs_secret id username db)) [
        | err e ↦ none
        | ok secret ↦ some secret
      ])
      else none

  -- `HandleGSLogs`
  unfoldable pub gs_logs_gate : ℕ → String → String → Db → Gate
  gs_logs_gate now id token db = for_user now token (λ username.
      if str_eq (gs_secret id username db) ""
      then not_found
      else (elim (decrypt x c.master_key (gs_secret id username db)) [
        | err e ↦ decryption_error
        | ok secret ↦ upgraded
      ]))

  -- `HandleLogStream`; the key that is read must not be NULL
  unfoldable pub logs_gate : ℕ → String → String → Db → Gate
  logs_gate now id token db = for_user now token (λ username.
      elim (server_where is_set_up id username db.users db.servers) [
        | none ↦ not_found
        | some s ↦ elim s.encrypted_private_key [ none ↦ not_found | some key ↦ upgraded ]
      ])

  -- what answers the request for a websocket
  unfoldable pub socket_gate : Socket → ℕ → String → String → Db → Counters → Gate
  socket_gate ssh_terminal now id token db s = gate x c now id token db s
  socket_gate gs_terminal now id token db s = gs_terminal_gate now id token db s
  socket_gate log_stream now id token db s = logs_gate now id token db
  socket_gate gs_log_stream now id token db s = gs_logs_gate now id token db
