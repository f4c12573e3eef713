-- ===== src/Execute/Outcomes.antt =====
-- What may come of a call of `ExecuteCommand`.
use syncent.Base.{ℕ, ◌*◌, String, true, some, [], ◌∷◌, codes, ◌≡◌, ◌≢◌}
use syncent.External.{External, second}
use syncent.Config.{Config}
use syncent.Http.{Request}
use syncent.Database.{Db, Server}
use syncent.Crypto.{decrypt, ok}
use syncent.Classifier.{CommandTier, tier_dangerous, tier_blocked, classify_command}
use syncent.TwoFactor.{verify_action}
use syncent.Execute.{
  ExecuteBody, Run, by_ssh, by_gsocket, RunResult, ran, run_failed, CommandResult, Outcome,
  verify_server_access, timeout_or_default, gsocket_secret_of,
}
use syncent.Execute.Log.{via, result_response, Logged}

module _ (x : External) (c : Config) (answer : Run → RunResult) where
  -- The call was refused: nothing was sent, and the database is as it was.
  pub record Refused (db : Db) (o : Outcome) : Type 0 where
    pub sent_nothing : o.runs ≡ []
    pub unchanged : o.db ≡ db
    pub not_ok : o.response.status ≢ 200

  -- The command and its time limit go to the server with the server's own address and key, or with
  -- the server's own gsocket secret.
  pub data SentTo (s : Server) (id command : String) (timeout : ℕ) : Run → Type 0 where
    with_key :
        {key : String}
        → s.encrypted_private_key ≡ some key
        → SentTo s id command timeout
            (by_ssh s.ip_address s.ssh_port s.ssh_username key command id timeout)
    with_secret :
        {g secret : String}
        → gsocket_secret_of x c answer s ≡ some g
        → decrypt x c.master_key g ≡ ok secret
        → SentTo s id command timeout (by_gsocket secret command timeout)

  -- What follows the server's answer.
  pub data Answered (r : Request) (id command : String) (tier : CommandTier) (db : Db) (run : Run)
      (o : Outcome) : Type 0 where
    failed :
        {e : String}
        → answer run ≡ run_failed e
        → o.db ≡ db
        → o.response.status ≡ 502
        → Answered r id command tier db run o
    finished :
        {result : CommandResult}
        → answer run ≡ ran result
        → o.response ≡ result_response x tier result
        → Logged x r id command tier (via run) result db o.db
        → Answered r id command tier db run o

  -- The command was sent, once, to a server of the caller's, and its tier allowed it.
  pub record Executed (r : Request) (id : String) (body : ExecuteBody) (db : Db) (o : Outcome)
      : Type 0 where
    pub server : Server
    pub run : Run
    pub owned : verify_server_access r id db ≡ some server
    pub not_blocked : classify_command (codes body.command) ≢ tier_blocked
    pub verified :
        classify_command (codes body.command) ≡ tier_dangerous
        → verify_action x c r.now r.username body.totp_code body.confirmation "EXECUTE" db ≡ true
    pub sent : SentTo server id body.command (timeout_or_default body.timeout * second) run
    pub only_run : o.runs ≡ run ∷ []
    pub answered : Answered r id body.command (classify_command (codes body.command)) db run o
