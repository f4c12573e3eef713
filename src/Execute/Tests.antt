-- ===== src/Execute/Tests.antt =====
-- Commands on a sample server.
use syncent.Base.{some, ◌⊎◌}
use syncent.Execute.{ExecuteBody, Run, RunResult, ran, exited, execute_command}
use syncent.Execute.Outcomes.{Refused, Executed}
use syncent.Execute.Laws.{execute_command_cases}
use syncent.Sample.{sample, config, request, db_with_server}

abbrev answers : Run → RunResult
answers run = ran record { stdout = "up"; stderr = ""; exit_code = exited 0; duration_ms = 5 }

abbrev uptime : ExecuteBody
uptime = record { command = "uptime"; timeout = 0; totp_code = ""; confirmation = "" }

execute_command_cases_example :
    Refused sample config answers db_with_server (
      execute_command sample config answers
        (request 1000 "alice")
        "s1"
        (some uptime)
        db_with_server)
    ⊎ Executed sample config answers (request 1000 "alice") "s1" uptime db_with_server (
        execute_command sample config answers
          (request 1000 "alice")
          "s1"
          (some uptime)
          db_with_server)
execute_command_cases_example =
    execute_command_cases sample config answers (request 1000 "alice") "s1" uptime db_with_server

abbrev ExecutedUptime : Type 0
ExecutedUptime =
    Executed sample config answers (request 1000 "alice") "s1" uptime db_with_server (
      execute_command sample config answers (request 1000 "alice") "s1" (some uptime)
        db_with_server)
