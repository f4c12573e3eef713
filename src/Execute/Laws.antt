-- ===== src/Execute/Laws.antt =====
-- When `ExecuteCommand` sends a command to a server.
use syncent.Base.{
  ℕ, ◌*◌, String, true, Option, none, some, [], ◌∷◌, str_eq, codes, ◌≡◌, ◌≢◌, ◌⊎◌, inl, inr, refl,
  sym, ◌∙◌, ap, arith, Bool-cases, Option-cases,
}
use syncent.External.{External, second}
use syncent.Config.{Config}
use syncent.Http.{Response, Request, respond_error, respond_error_with}
use syncent.Database.{Db, Server}
use syncent.Crypto.{decrypt, ok, Result-cases}
use syncent.Classifier.{CommandTier, tier_safe, tier_dangerous, tier_blocked, classify_command}
use syncent.TwoFactor.{verify_action, is_2fa_required}
use syncent.Execute.{
  ExecuteBody, Run, by_ssh, by_gsocket, RunResult, ran, run_failed, CommandResult, Outcome, refused,
  verify_server_access, timeout_or_default, finish_run, refusal, run_by_gsocket, run_by_ssh,
  gsocket_secret_of, run_on_server, execute_body, execute_command,
}
use syncent.Execute.Log.{finish_run-Logged}
use syncent.Execute.Outcomes.{
  Refused, SentTo, with_key, with_secret, Answered, failed, finished, Executed,
}

module _ (x : External) (c : Config) (answer : Run → RunResult) where
  RunResult-cases :
      (a : RunResult)
      → ((e : String) × (a ≡ run_failed e)) ⊎ ((result : CommandResult) × (a ≡ ran result))
  RunResult-cases (run_failed e) = inl (e, refl)
  RunResult-cases (ran result) = inr (result, refl)

  refused_with :
      (db : Db) (response : Response)
      → response.status ≢ 200
      → Refused x c answer db (refused db response)
  refused_with db response h = record { sent_nothing = refl; unchanged = refl; not_ok = h }

  refused_error :
      (db : Db) (code message : String) (n : ℕ)
      → (n ≡ 200 → ⊥)
      → Refused x c answer db (refused db (respond_error n code message))
  unfolding respond_error
  refused_error db code message n h = refused_with db (respond_error n code message) h

  status_of : Option Response → ℕ
  status_of none = 0
  status_of (some response) = response.status

  not_200 :
      {n : ℕ} {response : Response} {o : Option Response}
      → o ≡ some response
      → status_of o ≡ n
      → (n ≡ 200 → ⊥)
      → response.status ≢ 200
  unfolding status_of
  not_200 h e k ok200 = k (sym e ∙ ap status_of h ∙ ok200)

  refusal-status :
      (r : Request) (body : ExecuteBody) (tier : CommandTier) (db : Db) {response : Response}
      → refusal x c answer r body tier db ≡ some response
      → response.status ≢ 200
  unfolding refusal status_of respond_error respond_error_with
  refusal-status r body tier_safe db h k = absurd (cc h)
  refusal-status r body tier_blocked db h k = not_200 {n = 403} h refl (λ e. omega (arith, e)) k
  refusal-status r body tier_dangerous db h k =
      elim (Bool-cases
        (verify_action x c r.now r.username body.totp_code body.confirmation "EXECUTE" db)) [
          | inl v ↦ absurd (cc (rw v at h))
          | inr v ↦ elim (Bool-cases (is_2fa_required db)) [
            | inl q ↦ not_200 {n = 403} (rw (v, q) at h) refl (λ e. omega (arith, e)) k
            | inr q ↦ not_200 {n = 403} (rw (v, q) at h) refl (λ e. omega (arith, e)) k
          ]
        ]

  refusal-allows :
      (r : Request) (body : ExecuteBody) (tier : CommandTier) (db : Db)
      → refusal x c answer r body tier db ≡ none
      → (tier ≢ tier_blocked)
        × (tier ≡ tier_dangerous
            → verify_action x c r.now r.username body.totp_code body.confirmation "EXECUTE" db
              ≡ true)
  unfolding refusal
  refusal-allows r body tier_safe db h = (λ e. cc e, λ e. absurd (cc e))
  refusal-allows r body tier_blocked db h = absurd (cc h)
  refusal-allows r body tier_dangerous db h = (
    λ e. cc e,
    λ e.
        elim (Bool-cases
          (verify_action x c r.now r.username body.totp_code body.confirmation "EXECUTE" db)) [
            | inl v ↦ v
            | inr v ↦ elim (Bool-cases (is_2fa_required db)) [
              | inl q ↦ absurd (cc (rw (v, q) at h))
              | inr q ↦ absurd (cc (rw (v, q) at h))
            ]
          ],
  )

  -- a run that was allowed, and what followed
  module _ (r : Request) (id : String) (body : ExecuteBody) (db : Db) where
    tier : CommandTier
    tier = classify_command (codes body.command)

    timeout : ℕ
    timeout = timeout_or_default body.timeout * second

    RanOnce : Server → Run → Outcome → Type 0
    RanOnce s run o =
        SentTo x c answer s id body.command timeout run
        × (o.runs ≡ run ∷ [])
        × Answered x c answer r id body.command tier db run o

    by_gsocket_ran :
        (s : Server) {g secret : String}
        → gsocket_secret_of x c answer s ≡ some g
        → decrypt x c.master_key g ≡ ok secret
        → RanOnce s
            (by_gsocket secret body.command timeout)
            (run_by_gsocket x c answer r id body tier secret db)
    unfolding run_by_gsocket tier timeout RanOnce respond_error finish_run
    by_gsocket_ran s {g} {secret} e d =
        elim (RunResult-cases (answer (by_gsocket secret body.command timeout))) [
          | inl (m, h) ↦ rw (run_by_gsocket, h) (with_secret e d, refl, failed h refl refl)
          | inr (result, h) ↦
              rw (run_by_gsocket, h)
                (
                  with_secret e d,
                  refl,
                  finished h refl (finish_run-Logged x r id body.command tier "/gsocket" result db),
                )
        ]

    by_ssh_ran :
        (s : Server) {key : String}
        → s.encrypted_private_key ≡ some key
        → RanOnce s
            (by_ssh s.ip_address s.ssh_port s.ssh_username key body.command id timeout)
            (run_by_ssh x c answer r id body tier s key db)
    unfolding run_by_ssh tier timeout RanOnce respond_error finish_run
    by_ssh_ran s {key} e =
        let run = by_ssh s.ip_address s.ssh_port s.ssh_username key body.command id timeout in
        elim (RunResult-cases (answer run)) [
          | inl (m, h) ↦ rw (run_by_ssh, h) (with_key e, refl, failed h refl refl)
          | inr (result, h) ↦
              rw (run_by_ssh, h)
                (
                  with_key e,
                  refl,
                  finished h refl (finish_run-Logged x r id body.command tier "" result db),
                )
        ]

    executed :
        (s : Server) (run : Run) (o : Outcome)
        → verify_server_access r id db ≡ some s
        → refusal x c answer r body tier db ≡ none
        → RanOnce s run o
        → Executed x c answer r id body db o
    unfolding RanOnce tier timeout
    executed s run o owned allowed (sent, only, answered) =
        let allows = refusal-allows r body tier db allowed in
        record {
          server = s;
          run = run;
          owned = owned;
          not_blocked = allows.0;
          verified = allows.1;
          sent = sent;
          only_run = only;
          answered = answered;
        }

    run_on_server_cases :
        refusal x c answer r body tier db ≡ none
        → Refused x c answer db (run_on_server x c answer r id body tier db)
          ⊎ Executed x c answer r id body db (run_on_server x c answer r id body tier db)
    unfolding run_on_server
    run_on_server_cases allowed = elim (Option-cases (verify_server_access r id db)) [
      | inl m ↦ inl (rw (run_on_server, m) (refused_error db _ _ 404 (λ e. omega (arith, e))))
      | inr (s, m) ↦ elim (Option-cases s.encrypted_private_key) [
        | inl k ↦ inl (rw (run_on_server, m, k) (refused_error db _ _ 404 (λ e. omega (arith, e))))
        | inr (key, k) ↦ elim (Option-cases (gsocket_secret_of x c answer s)) [
          | inl g ↦ inr (rw (run_on_server, m, k, g) (executed s _ _ m allowed (by_ssh_ran s k)))
          | inr (secret, g) ↦ elim (Result-cases (decrypt x c.master_key secret)) [
            | inl (e, d) ↦
                inl (
                  rw (run_on_server, m, k, g, d) (refused_error db _ _ 500 (λ e. omega (arith, e))))
            | inr (plain, d) ↦
                inr
                  (rw (run_on_server, m, k, g, d) (executed s _ _ m allowed (by_gsocket_ran s g d)))
          ]
        ]
      ]
    ]

  -- Every call of `ExecuteCommand` either is refused, and then nothing is sent to any server, the
  -- database is unchanged and the status is not 200; or has sent the given command once, to a server
  -- that the caller owns, the command's tier was not blocked and, if it was dangerous, the action was
  -- verified. In the second case a failed run leaves the database as it was, with status 502. A run
  -- that the server answered is answered 200 with its result, and exactly one entry is appended to the
  -- audit log, with the tier, the shortened command, the exit code and the duration; unless the address
  -- of the caller has more than 45 characters, where the entry is refused and only its id is used up, or
  -- the shortened command is no text for the database, which then stays as it was.
  pub execute_command_cases :
      (r : Request) (id : String) (body : ExecuteBody) (db : Db)
      → Refused x c answer db (execute_command x c answer r id (some body) db)
        ⊎ Executed x c answer r id body db (execute_command x c answer r id (some body) db)
  unfolding execute_command execute_body tier
  execute_command_cases r id body db = elim (Option-cases (verify_server_access r id db)) [
    | inl m ↦ inl (rw (execute_command, m) (refused_error db _ _ 404 (λ e. omega (arith, e))))
    | inr (s, m) ↦ elim (Bool-cases (str_eq body.command "")) [
      | inl e ↦ inl (
          rw (execute_command, m, execute_body, e)
            (refused_error db _ _ 400 (λ e. omega (arith, e))))
      | inr e ↦
          elim (Option-cases
            (refusal x c answer r body (classify_command (codes body.command)) db)) [
              | inr (response, f) ↦ inl (
                  rw (execute_command, m, execute_body, e, f)
                    (refused_with db response (refusal-status r body _ db f)))
              | inl f ↦
                  rw (execute_command, m, execute_body, e, f) (run_on_server_cases r id body db f)
            ]
    ]
  ]

  -- What the program needs to reach a server: its key, and for one with a gsocket secret in use a secret
  -- that decrypts.
  pub data Reachable (s : Server) : Type 0 where
    by_key :
        {key : String}
        → s.encrypted_private_key ≡ some key
        → gsocket_secret_of x c answer s ≡ none
        → Reachable s
    by_secret :
        {key g secret : String}
        → s.encrypted_private_key ≡ some key
        → gsocket_secret_of x c answer s ≡ some g
        → decrypt x c.master_key g ≡ ok secret
        → Reachable s
