-- ===== src/Terminal/Tests.antt =====
-- Terminals on a sample server.
use syncent.Base.{[], ◌∷◌, ◌≡◌, refl}
use syncent.Terminal.{no_sessions, limits, opened, upgraded}
use syncent.Terminal.Sockets.{logs_gate, limits_of, log_stream, socket_gate, for_user, server_where}
use syncent.Terminal.Owners.{Owner, sockets_need-Owner}
use syncent.Tokens.{verify_access_token}
use syncent.Sample.{sample, config, db_with_server}
use syncent.Terminal.Sessions.{
  Terminals, Reachable, initial, next, check, start, CountsLive, counters_count_live,
  limits_passed_together,
}

abbrev one_open : Terminals
one_open = record { counters = opened "s1" no_sessions; checked = []; live = "s1" ∷ [] }

one_reached : Reachable one_open
unfolding limits
one_reached = next (next initial (check "s1" refl)) (start [] "s1" [])

counters_count_live_example : CountsLive one_open
counters_count_live_example = counters_count_live one_reached

limits_passed_together_example :
    (t : Terminals) × Reachable t × (t.counters.active ≡ 5) × (t.counters.per_server "s1" ≡ 5)
limits_passed_together_example = limits_passed_together "s1" 5

-- the log of the server is shown to its owner
logs_open : logs_gate sample config 1000 "s1" "access token" db_with_server ≡ upgraded
unfolding logs_gate for_user verify_access_token server_where
logs_open = refl

sockets_need-Owner_example :
    Owner sample config 1000 "s1" "access token" db_with_server
    × (limits_of log_stream "s1" no_sessions ≡ upgraded)
unfolding socket_gate
sockets_need-Owner_example =
    sockets_need-Owner sample config log_stream 1000 "s1" "access token" db_with_server no_sessions
      logs_open
