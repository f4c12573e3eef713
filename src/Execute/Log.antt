-- ===== src/Execute/Log.antt =====
-- The audit entry and the answer after a run of a command.
use syncent.Base.{String, true, false, some, [], ◌∷◌, concat, ◌≡◌, refl, Bool-cases, inl, inr}
use syncent.External.{External}
use syncent.Http.{Response, Request, text, num, number, respond_json}
use syncent.Database.{Db, varchar}
use syncent.Audit.{
  append_entry, skip_id, user_id_of, next_prev_hash, log_action, write_audit_log, insert_entry,
}
use syncent.Classifier.{CommandTier}
use syncent.TwoFactor.{username_of}
use syncent.Execute.{
  Run, by_ssh, by_gsocket, CommandResult, tier_text, truncate, exit_text, storable, finish_run,
}

-- the mark of a run by gsocket in the log
abbrev pub via : Run → String
via (by_ssh ip port user key command id timeout) = ""
via (by_gsocket secret command timeout) = "/gsocket"

module _ (x : External) where
  -- the answer with the result of a run
  abbrev pub result_response : CommandTier → CommandResult → Response
  result_response tier result = respond_json 200 (
      ("stdout", text result.stdout)
      ∷ ("stderr", text result.stderr)
      ∷ ("exit_code", number (exit_text x result.exit_code))
      ∷ ("duration_ms", num result.duration_ms)
      ∷ ("command_tier", text (tier_text tier))
      ∷ [])

  -- One entry is appended to the audit log: with the tier, the command, shortened to 200 bytes, its
  -- exit code and its duration, for the caller and the server, linked to the last entry. Where the
  -- address of the caller is too long for its column, or the shortened command is no text that the
  -- database takes, no entry is written.
  pub data Logged (r : Request) (id command : String) (tier : CommandTier) (mark : String)
      (result : CommandResult) (before after : Db) : Type 0 where
    entered :
        storable x command 200 ≡ true
        → varchar 45 r.client_ip ≡ true
        → after
          ≡ append_entry
              (record {
                id = before.next_audit_id;
                user_id = user_id_of (username_of r) before.users;
                server_id = some id;
                action = "command_executed";
                detail = concat (
                    "["
                    ∷ tier_text tier
                    ∷ mark
                    ∷ "] "
                    ∷ truncate x command 200
                    ∷ " → exit "
                    ∷ exit_text x result.exit_code
                    ∷ " ("
                    ∷ x.decimal result.duration_ms
                    ∷ "ms)"
                    ∷ []);
                source_ip = r.client_ip;
                prev_hash = next_prev_hash x before.audit_log;
                created_at = r.now;
              })
              before
        → Logged r id command tier mark result before after
    not_storable :
        storable x command 200 ≡ false
        → after ≡ before
        → Logged r id command tier mark result before after
    address_too_long :
        varchar 45 r.client_ip ≡ false
        → after ≡ skip_id before
        → Logged r id command tier mark result before after

  pub finish_run-Logged :
      (r : Request) (id command : String) (tier : CommandTier) (mark : String)
      (result : CommandResult) (db : Db)
      → Logged r id command tier mark result db (finish_run x r id command tier mark result db).0
  unfolding finish_run log_action write_audit_log insert_entry
  finish_run-Logged r id command tier mark result db = elim (Bool-cases (storable x command 200)) [
    | inr bad ↦ not_storable bad (rw (finish_run, bad) refl)
    | inl good ↦ elim (Bool-cases (varchar 45 r.client_ip)) [
      | inr long ↦
          address_too_long long
            (rw (finish_run, good, log_action, write_audit_log, insert_entry, long) refl)
      | inl short ↦
          entered good short
            (rw (finish_run, good, log_action, write_audit_log, insert_entry, short) refl)
    ]
  ]
