-- ===== src/Terminal.antt =====
-- internal/websocket/terminal.go: the checks before a terminal is opened, and the counters of the
-- open terminals. An int32 counter is a number here: at most 2^31 shells are open.
pub mod Sessions
pub mod Owners
pub mod Sockets
mod Tests
use syncent.Base.{
  ℕ, suc, ◌-◌, String, Bool, true, false, ◌&&◌, Option, none, some, List, [], ◌∷◌, leb, ltb, any,
  str_eq, if◌then◌else◌,
}
use syncent.External.{External}
use syncent.Config.{Config}
use syncent.Database.{Db, Server, User}
use syncent.Database.Users.{find_in}
use syncent.Crypto.{Result, decrypt, ok, err}
use syncent.Tokens.{verify_access_token, verify_totp}

-- `activeSessions` and `serverSessions`, a map that answers 0 where it has no entry
pub record Counters : Type 0 where
  pub active : ℕ
  pub per_server : String → ℕ

abbrev pub max_sessions : ℕ
max_sessions = 3

abbrev pub no_sessions : Counters
no_sessions = record { active = 0; per_server = λ id. 0 }

-- `serverSessions[id]++`
unfoldable pub add_session : String → (String → ℕ) → String → ℕ
add_session id m k = if str_eq k id then suc (m k) else m k

-- `serverSessions[id]--`, then `delete` where nothing is left: a number below 0 reads as 0
unfoldable pub remove_session : String → (String → ℕ) → String → ℕ
remove_session id m k = if str_eq k id then m k - 1 else m k

pub data Gate : Type 0 where
  unauthorized not_found too_many already_open decryption_error upgraded : Gate

-- the two tests of the counters
unfoldable pub limits : String → Counters → Gate
limits id s =
    if leb max_sessions s.active
    then too_many
    else if leb 1 (s.per_server id)
    then already_open
    else upgraded

-- once the shell runs
unfoldable pub opened : String → Counters → Counters
opened id s = record { active = suc s.active; per_server = add_session id s.per_server }

-- the deferred function
unfoldable pub closed : String → Counters → Counters
closed id s = record { active = s.active - 1; per_server = remove_session id s.per_server }

module _ (x : External) (c : Config) where
  -- SELECT COUNT(*) FROM servers s JOIN users u ... WHERE s.id=$1 AND u.username=$2
  unfoldable pub owns : String → String → Db → Bool
  owns id username db =
      any
        (λ s.
          str_eq s.id id && any (λ u. str_eq u.id s.user_id && str_eq u.username username) db.users)
        db.servers

  -- `HandleTerminal` up to the upgrade of the connection
  unfoldable pub gate : ℕ → String → String → Db → Counters → Gate
  gate now id token db s = elim (verify_access_token x now token c.jwt_secret) [
    | none ↦ unauthorized
    | some username ↦
        if str_eq username ""
        then unauthorized
        else if owns id username db
        then limits id s
        else not_found
  ]

  -- The code that is asked for next. The error of `Decrypt` is dropped, which leaves an empty secret.
  unfoldable pub terminal_code_ok : ℕ → String → String → Db → Bool
  terminal_code_ok now username code db =
      if str_eq code "" then false else (elim (find_in username db.users) [
        | none ↦ false
        | some u ↦ elim (decrypt x c.master_key u.totp_secret_encrypted) [
          | err e ↦ verify_totp x now "" code
          | ok secret ↦ verify_totp x now secret code
        ]
      ])
