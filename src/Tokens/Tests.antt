-- ===== src/Tokens/Tests.antt =====
-- The theorems about internal/services/auth.go at concrete codes and tokens.
use syncent.Base.{ℕ, ◌+◌, ◌*◌, String, false, none, some, [], ◌∷◌, ◌≡◌, refl, arith}
use syncent.External.{minute, second}
use syncent.Database.{Db}
use syncent.Sample.{sample, db}
use syncent.Sample.Jwt.{signed, signing, signing-JwtLaw}
use syncent.Tokens.{
  access_claims, refresh_claims, verify_totp_with_replay, create_access_token, create_refresh_token,
  verify_access_token, verify_refresh_token, recently_used, keep,
}
use syncent.Tokens.Replay.{Attempt, run_attempts, accepted_once}
use syncent.Tokens.Claims.{token_uses}

abbrev noon : ℕ
noon = 1000 * minute

abbrev bob_tries : Attempt
bob_tries = record { at = noon + 20 * second; username = "bob"; secret = "654321"; code = "654321" }

abbrev retried : Db
retried =
    run_attempts sample (bob_tries ∷ [])
      (verify_totp_with_replay sample noon "alice" "123456" "123456" db).0

accepted_once_example :
    verify_totp_with_replay sample (noon + 60 * second) "alice" "123456" "123456" retried
    ≡ (retried, false)
unfolding verify_totp_with_replay keep recently_used
accepted_once_example =
    accepted_once sample noon (noon + 60 * second) "alice" "123456" "123456" "123456" db
      (bob_tries ∷ []) refl refl (omega arith) (omega arith)

abbrev access_token : String
access_token = signed (access_claims signing noon 0 "alice" 15) "secret"

abbrev refresh_token : String
refresh_token = signed (refresh_claims signing noon 1 "alice" 7) "secret"

token_uses_example :
    (verify_access_token signing noon access_token "secret" ≡ some "alice")
    × (verify_refresh_token signing noon access_token "secret" ≡ none)
    × (◌≡◌ {A = ℕ} 900 (15 * 60))
    × (verify_refresh_token signing noon refresh_token "secret"
        ≡ some ("alice", signing.sha256_hex refresh_token))
    × (verify_access_token signing noon refresh_token "secret" ≡ none)
unfolding create_access_token create_refresh_token
token_uses_example =
    token_uses signing signing-JwtLaw noon 0 1 noon "alice" "secret" access_token refresh_token
      (signing.sha256_hex refresh_token) 15 900 7 refl refl (omega arith) (omega arith)
      (omega arith) (omega arith)
