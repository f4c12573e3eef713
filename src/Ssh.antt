-- ===== src/Ssh.antt =====
-- internal/services/ssh_manager.go: the limits on concurrent commands, and what a command gives. A
-- channel with a buffer is the number of its slots that are taken; those of the servers stand in the
-- map in which they are made on demand.
pub mod Slots
pub mod Bounds
pub mod Refines
pub mod Served
mod Tests
use syncent.Base.{
  ℕ, suc, ◌+◌, ◌-◌, ◌*◌, String, Option, none, some, List, [], ◌∷◌, str_eq, concat, ◌==◌,
  if◌then◌else◌,
}
use syncent.External.{second}
use syncent.Execute.{ExitCode, exited, timed_out, RunResult, ran, run_failed}

pub record SshManager : Type 0 where
  pub connect_timeout : ℕ
  pub command_timeout : ℕ
  pub max_global : ℕ
  pub max_per_server : ℕ

-- `NewSSHManager`; the times are given in seconds
abbrev pub new_ssh_manager : ℕ → ℕ → ℕ → ℕ → SshManager
new_ssh_manager max_global max_per_server connect_timeout command_timeout = record {
  connect_timeout = connect_timeout * second;
  command_timeout = command_timeout * second;
  max_global = max_global;
  max_per_server = max_per_server;
}

-- how many slots of a server are taken; none of one that has no channel yet
unfoldable pub taken : String → List (String × ℕ) → ℕ
taken id [] = 0
taken id ((k, n) ∷ rest) = if str_eq k id then n else taken id rest

-- `getServerSem`: the map with a channel for the server
unfoldable pub get_server_sem : String → List (String × ℕ) → List (String × ℕ)
get_server_sem id [] = (id, 0) ∷ []
get_server_sem id ((k, n) ∷ rest) =
    if str_eq k id then (k, n) ∷ rest else (k, n) ∷ get_server_sem id rest

-- `srvSem <- struct{}{}`, once the channel has room
unfoldable pub send : String → List (String × ℕ) → List (String × ℕ)
send id [] = []
send id ((k, n) ∷ rest) = if str_eq k id then (k, suc n) ∷ rest else (k, n) ∷ send id rest

-- `<-srvSem`
unfoldable pub receive : String → List (String × ℕ) → List (String × ℕ)
receive id [] = []
receive id ((k, n) ∷ rest) = if str_eq k id then (k, n - 1) ∷ rest else (k, n) ∷ receive id rest

-- how `session.Run` ends
pub data RunEnd : Type 0 where
  run_ok : RunEnd
  exit_error : ℕ → RunEnd
  run_error : String → RunEnd

-- What the key, the dial and the session of a command come to, with the error where one fails; a
-- session that runs has written its output when it ends or when the time is over.
pub data SessionAnswer : Type 0 where
  key_error connect_error session_error : String → SessionAnswer
  done : String → String → RunEnd → ℕ → SessionAnswer
  not_done : String → ℕ → SessionAnswer

-- `ExecuteCommand`, between the two semaphores; `duration_text` is the text that Sprintf gives a
-- time, and the answer is that of the server within the given time
unfoldable pub run_session : (ℕ → String) → SshManager → ℕ → (ℕ → SessionAnswer) → RunResult
run_session duration_text m given answer =
    let timeout = if given == 0 then m.command_timeout else given in
    elim (answer timeout) [
      | key_error e ↦ run_failed (concat ("key error: " ∷ e ∷ []))
      | connect_error e ↦ run_failed (concat ("SSH connect: " ∷ e ∷ []))
      | session_error e ↦ run_failed (concat ("SSH session: " ∷ e ∷ []))
      | done out errors end duration ↦ elim end [
        | run_error e ↦ run_failed e
        | run_ok ↦
            ran
              record { stdout = out; stderr = errors; exit_code = exited 0; duration_ms = duration }
        | exit_error n ↦
            ran
              record { stdout = out; stderr = errors; exit_code = exited n; duration_ms = duration }
      ]
      | not_done out duration ↦ ran record {
        stdout = out;
        stderr = concat ("Command timed out after " ∷ duration_text timeout ∷ []);
        exit_code = timed_out;
        duration_ms = duration;
      }
    ]

-- The loop of `ExecuteBatch`: `answer` is the output of a command that ended in time, `none` for a
-- session that failed or was too slow.
unfoldable pub batch_results :
    (String → Option String) → List (String × String) → List (String × String)
batch_results answer [] = []
batch_results answer ((label, command) ∷ rest) =
    (label, elim (answer command) [ none ↦ "" | some out ↦ out ]) ∷ batch_results answer rest
