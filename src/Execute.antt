-- ===== src/Execute.antt =====
-- ExecuteCommand of internal/handlers/api.go. A run of a command on a server is recorded with the
-- outcome; what the server answers is a parameter.
pub mod Laws
pub mod Outcomes
pub mod Log
mod Tests
use syncent.Base.{
  ℕ, ◌*◌, ◌≤◌, String, Bool, true, false, not, ◌&&◌, Option, none, some, List, [], ◌∷◌, ◌++◌,
  length, take, leb, ◌==◌, any, str_eq, concat, codes, if◌then◌else◌,
}
use syncent.External.{External, second}
use syncent.Config.{Config}
use syncent.Http.{
  Response, Request, Value, text, num, number, respond_json, respond_error, respond_error_with,
}
use syncent.Database.{Db, Server}
use syncent.Crypto.{Result, decrypt, ok, err}
use syncent.Audit.{log_action}
use syncent.Classifier.{CommandTier, tier_safe, tier_dangerous, tier_blocked, classify_command}
use syncent.TwoFactor.{is_2fa_required, verify_action, get_user_id, username_of}

pub record ExecuteBody : Type 0 where
  pub command : String
  -- in seconds
  pub timeout : ℕ
  pub totp_code : String
  pub confirmation : String

-- an exit code; -1 is that of a run that timed out
pub data ExitCode : Type 0 where
  exited : ℕ → ExitCode
  timed_out : ExitCode

pub record CommandResult : Type 0 where
  pub stdout : String
  pub stderr : String
  pub exit_code : ExitCode
  pub duration_ms : ℕ

-- What is sent to a server: by SSH with its encrypted key, or by a gsocket with the plain secret.
pub data Run : Type 0 where
  by_ssh : String → ℕ → String → String → String → String → ℕ → Run
  by_gsocket : String → String → ℕ → Run

pub data RunResult : Type 0 where
  ran : CommandResult → RunResult
  run_failed : String → RunResult

pub record Outcome : Type 0 where
  pub db : Db
  pub response : Response
  pub runs : List Run

abbrev pub refused : Db → Response → Outcome
refused db response = record { db = db; response = response; runs = [] }

-- SELECT ... FROM servers WHERE id=$1 AND user_id=$2
unfoldable pub owned_server : String → String → List Server → Option Server
owned_server id user_id [] = none
owned_server id user_id (s ∷ rest) =
    if str_eq s.id id && str_eq s.user_id user_id then some s else owned_server id user_id rest

-- `verifyServerAccess`
unfoldable pub verify_server_access : Request → String → Db → Option Server
verify_server_access r id db = owned_server id (get_user_id r.username db) db.servers

abbrev pub tier_text : CommandTier → String
tier_text tier_safe = "safe"
tier_text tier_dangerous = "dangerous"
tier_text tier_blocked = "blocked"

-- `if body.Timeout == 0 { body.Timeout = 30 }`
abbrev pub timeout_or_default : ℕ → ℕ
timeout_or_default t = if t == 0 then 30 else t

module _ (x : External) where
  -- A cut inside a character leaves bytes that are no text: encoding/json puts U+FFFD in their place,
  -- which is left to `x.text`, and the database refuses them, as `storable` has it.
  abbrev pub truncate : String → ℕ → String
  truncate s n =
      if leb (length (x.bytes s)) n then s else concat (x.text (take n (x.bytes s)) ∷ "..." ∷ [])

  abbrev pub exit_text : ExitCode → String
  exit_text (exited n) = x.decimal n
  exit_text timed_out = "-1"

  -- PostgreSQL takes no text that is not UTF-8 or has a zero: whether it takes the truncated command.
  unfoldable pub storable : String → ℕ → Bool
  storable s n =
      let kept = if leb (length (x.bytes s)) n then x.bytes s else take n (x.bytes s) in
      x.valid_utf8 kept && not (any (λ b. b == 0) kept)

  -- The audit entry and the answer after a run; the error of the entry is dropped.
  unfoldable pub finish_run :
      Request → String → String → CommandTier → String → CommandResult → Db → Db × Response
  finish_run r id command tier via result db = (
    if storable command 200
        then log_action x r.now "command_executed"
            (concat (
              "["
              ∷ tier_text tier
              ∷ via
              ∷ "] "
              ∷ truncate command 200
              ∷ " → exit "
              ∷ exit_text result.exit_code
              ∷ " ("
              ∷ x.decimal result.duration_ms
              ∷ "ms)"
              ∷ []))
            (some id) (username_of r) r.client_ip db
        else db,
    respond_json 200 (
        ("stdout", text result.stdout)
        ∷ ("stderr", text result.stderr)
        ∷ ("exit_code", number (exit_text result.exit_code))
        ∷ ("duration_ms", num result.duration_ms)
        ∷ ("command_tier", text (tier_text tier))
        ∷ []),
  )

  module _ (c : Config) (answer : Run → RunResult) where
    -- the refusal of a command by its tier
    unfoldable pub refusal : Request → ExecuteBody → CommandTier → Db → Option Response
    refusal r body tier_blocked db = some (
        respond_error_with 403 "COMMAND_BLOCKED"
          (concat ("Blocked: '" ∷ truncate body.command 50 ∷ "'" ∷ []))
          "Too destructive for dashboard. SSH in directly if needed.")
    refusal r body tier_dangerous db =
        if verify_action x c r.now r.username body.totp_code body.confirmation "EXECUTE" db
        then none
        else if is_2fa_required db
        then some (respond_error 403 "TOTP_REQUIRED" "This command requires TOTP verification.")
        else some (
            respond_error 403 "CONFIRM_REQUIRED"
              "Type 'EXECUTE' to confirm this dangerous command.")
    refusal r body tier_safe db = none

    unfoldable pub run_by_gsocket :
        Request → String → ExecuteBody → CommandTier → String → Db → Outcome
    run_by_gsocket r id body tier secret db =
        let run = by_gsocket secret body.command (timeout_or_default body.timeout * second) in
        elim (answer run) [
          | run_failed e ↦ record {
            db = db;
            response = respond_error 502 "GSOCKET_ERROR" (concat ("Execution failed: " ∷ e ∷ []));
            runs = run ∷ [];
          }
          | ran result ↦
              let done = finish_run r id body.command tier "/gsocket" result db in
              record { db = done.0; response = done.1; runs = run ∷ [] }
        ]

    unfoldable pub run_by_ssh :
        Request → String → ExecuteBody → CommandTier → Server → String → Db → Outcome
    run_by_ssh r id body tier s enc_key db =
        let run =
          by_ssh s.ip_address s.ssh_port s.ssh_username enc_key body.command id
            (timeout_or_default body.timeout * second) in
        elim (answer run) [
          | run_failed e ↦ record {
            db = db;
            response =
                respond_error 502 "SSH_ERROR"
                  "Command execution failed. Check server connectivity.";
            runs = run ∷ [];
          }
          | ran result ↦
              let done = finish_run r id body.command tier "" result db in
              record { db = done.0; response = done.1; runs = run ∷ [] }
        ]

    -- connMode == "gsocket" && gsSecret != nil && *gsSecret != ""
    abbrev pub gsocket_secret_of : Server → Option String
    gsocket_secret_of s = elim s.gsocket_secret [
      | none ↦ none
      | some g ↦ if str_eq s.connection_mode "gsocket" && not (str_eq g "") then some g else none
    ]

    -- the second SELECT, which fails on a key that is NULL, and what follows
    unfoldable pub run_on_server : Request → String → ExecuteBody → CommandTier → Db → Outcome
    run_on_server r id body tier db =
        let missing = refused db (respond_error 404 "NOT_FOUND" "Server not found.") in
        elim (verify_server_access r id db) [
          | none ↦ missing
          | some s ↦ elim s.encrypted_private_key [
            | none ↦ missing
            | some enc_key ↦ elim (gsocket_secret_of s) [
              | none ↦ run_by_ssh r id body tier s enc_key db
              | some g ↦ elim (decrypt x c.master_key g) [
                | err e ↦
                    refused db
                      (respond_error 500 "DECRYPT_ERROR" "Failed to decrypt GSSocket secret.")
                | ok secret ↦ run_by_gsocket r id body tier secret db
              ]
            ]
          ]
        ]

    -- once the body is read
    unfoldable pub execute_body : Request → String → ExecuteBody → Db → Outcome
    execute_body r id body db =
        if str_eq body.command ""
        then refused db (respond_error 400 "INVALID_INPUT" "Command required.")
        else (elim (refusal r body (classify_command (codes body.command)) db) [
          | some response ↦ refused db response
          | none ↦ run_on_server r id body (classify_command (codes body.command)) db
        ])

    -- `none` is a body that does not decode
    unfoldable pub execute_command : Request → String → Option ExecuteBody → Db → Outcome
    execute_command r id body db = elim (verify_server_access r id db) [
      | none ↦ refused db (respond_error 404 "NOT_FOUND" "Server not found.")
      | some s ↦ elim body [
        | none ↦ refused db (respond_error 400 "INVALID_INPUT" "Command required.")
        | some b ↦ execute_body r id b db
      ]
    ]
