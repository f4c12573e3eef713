-- ===== src/Tokens/Replay.antt =====
-- A one-time code is good for one login in 90 seconds: `VerifyTOTPWithReplay` of
-- internal/services/auth.go.
use syncent.Base.{
  ℕ, ◌+◌, ◌*◌, ◌≤◌, ◌<◌, String, Bool, true, false, List, [], ◌∷◌, ◌++◌, length, ltb, lt→ltb, ◌&&◌,
  ◌≡◌, ap, ◌⊎◌, inl, inr, refl, arith, eq_iff, str_eq, Bool-cases, All,
}
use syncent.External.{External, second, minute}
use syncent.Database.{Db, UsedCode, varchar}
use syncent.Tokens.{
  keep, recently_used, still_kept, insert_used, verify_totp, verify_totp_with_replay,
}

abbrev pub Has : UsedCode → List UsedCode → Type 0
Has u [] = ⊥
Has u (v ∷ l) = (u ≡ v) ⊎ Has u l

module _ (p : UsedCode → Bool) (u : UsedCode) (passes : p u ≡ true) where
  Has-keep : (l : List UsedCode) → Has u l → Has u (keep p l)
  unfolding keep
  Has-keep [] h = h
  Has-keep (v ∷ l) (inl e) = let fits : p v ≡ true = rw (← e) passes in rw fits (inl e)
  Has-keep (v ∷ l) (inr h) = elim (Bool-cases (p v)) [
    | inl fits ↦ rw fits (inr (Has-keep l h))
    | inr drops ↦ rw drops (Has-keep l h)
  ]

  keep-pos : (l : List UsedCode) → Has u l → 0 < length (keep p l)
  unfolding keep
  keep-pos [] h = absurd h
  keep-pos (v ∷ l) (inl e) = let fits : p v ≡ true = rw (← e) passes in rw fits (omega arith)
  keep-pos (v ∷ l) (inr h) = elim (Bool-cases (p v)) [
    | inl fits ↦ rw fits (omega arith)
    | inr drops ↦ rw drops (keep-pos l h)
  ]

Has-append : (u : UsedCode) (l m : List UsedCode) → Has u l → Has u (l ++ m)
Has-append u [] m h = absurd h
Has-append u (v ∷ l) m (inl e) = inl e
Has-append u (v ∷ l) m (inr h) = inr (Has-append u l m h)

Has-last : (u : UsedCode) (l : List UsedCode) → Has u (l ++ u ∷ [])
Has-last u [] = inl refl
Has-last u (v ∷ l) = inr (Has-last u l)

-- the record that an accepted code leaves
abbrev pub used : String → String → ℕ → UsedCode
used username code t = record { username = username; code = code; used_at = t }

still_kept_of_le :
    (now t : ℕ) (username code : String)
    → now ≤ t + 5 * minute
    → still_kept now (used username code t) ≡ true
unfolding still_kept
still_kept_of_le now t username code h = ground arith

recently_used_of_lt :
    (now t : ℕ) (username code : String)
    → now < t + 90 * second
    → recently_used now username code (used username code t) ≡ true
unfolding recently_used
recently_used_of_lt now t username code h =
    rw ((eq_iff username username).1 refl, (eq_iff code code).1 refl, lt→ltb _ _ h)

Has-insert_used :
    (now : ℕ) (username code : String) (u : UsedCode) (l : List UsedCode)
    → Has u l
    → Has u (insert_used now username code l)
unfolding insert_used
Has-insert_used now username code u l h =
    elim (Bool-cases (varchar 50 username && varchar 10 code)) [
      | inl fits ↦ rw fits (Has-append u l _ h)
      | inr other ↦ rw other h
    ]

-- the code is on record as used in the last 90 seconds
abbrev pub seen : ℕ → String → String → Db → Bool
seen now username code db =
    ltb 0 (length (keep (recently_used now username code) db.used_totp_codes))

-- the table after an accepted code
abbrev pub recorded : ℕ → String → String → Db → Db
recorded now username code db = record db {
  used_totp_codes = keep (still_kept now) (insert_used now username code db.used_totp_codes);
}

-- one call of `VerifyTOTPWithReplay`
pub record Attempt : Type 0 where
  pub at : ℕ
  pub username : String
  pub secret : String
  pub code : String

module _ (x : External) where
  pub verify_totp_with_replay_cases :
      (now : ℕ) (username secret code : String) (db : Db)
      → (verify_totp_with_replay x now username secret code db ≡ (db, false))
        ⊎ ((verify_totp x now secret code ≡ true)
            × (seen now username code db ≡ false)
            × (verify_totp_with_replay x now username secret code db
                ≡ (recorded now username code db, true)))
  unfolding verify_totp_with_replay
  verify_totp_with_replay_cases now username secret code db =
      elim (Bool-cases (verify_totp x now secret code)) [
        | inr bad ↦ inl (rw bad)
        | inl valid ↦ elim (Bool-cases (seen now username code db)) [
          | inl again ↦ inl (rw (valid, again))
          | inr fresh ↦ inr (valid, fresh, rw (valid, fresh))
        ]
      ]

  Has-recorded :
      (now : ℕ) (username code : String) (db : Db) (u : UsedCode)
      → Has u db.used_totp_codes
      → now ≤ u.used_at + 5 * minute
      → Has u (recorded now username code db).used_totp_codes
  Has-recorded now username code db u h soon =
      Has-keep (still_kept now) u (still_kept_of_le now u.used_at u.username u.code soon) _
        (Has-insert_used now username code u db.used_totp_codes h)

  accepted_Has :
      (now : ℕ) (username secret code : String) (db : Db)
      → (varchar 50 username && varchar 10 code) ≡ true
      → (verify_totp_with_replay x now username secret code db).1 ≡ true
      → Has
          (used username code now)
          (verify_totp_with_replay x now username secret code db).0.used_totp_codes
  unfolding insert_used
  accepted_Has now username secret code db fits e =
      elim (verify_totp_with_replay_cases now username secret code db) [
        | inl r ↦ cc (ap (λ (p : Db × Bool). p.1) r)
        | inr (valid, fresh, r) ↦
            rw (r, fits)
              (Has-keep (still_kept now) (used username code now)
                (still_kept_of_le now now username code (omega arith)) _
                (Has-last (used username code now) db.used_totp_codes))
      ]

  attempt_Has :
      (now : ℕ) (username secret code : String) (db : Db) (u : UsedCode)
      → Has u db.used_totp_codes
      → now ≤ u.used_at + 5 * minute
      → Has u (verify_totp_with_replay x now username secret code db).0.used_totp_codes
  attempt_Has now username secret code db u h soon =
      elim (verify_totp_with_replay_cases now username secret code db) [
        | inl r ↦ rw r h
        | inr (valid, fresh, r) ↦ rw r (Has-recorded now username code db u h soon)
      ]

  pub run_attempts : List Attempt → Db → Db
  run_attempts [] db = db
  run_attempts (a ∷ rest) db =
      run_attempts rest (verify_totp_with_replay x a.at a.username a.secret a.code db).0

  run_attempts-Has :
      (tries : List Attempt) (db : Db) (u : UsedCode)
      → Has u db.used_totp_codes
      → All (λ (a : Attempt). a.at ≤ u.used_at + 5 * minute) tries
      → Has u (run_attempts tries db).used_totp_codes
  unfolding run_attempts
  run_attempts-Has [] db u h _ = h
  run_attempts-Has (a ∷ rest) db u h (soon, later) =
      run_attempts-Has rest _ u (attempt_Has a.at a.username a.secret a.code db u h soon) later

  Has-seen :
      (t now : ℕ) (username code : String) (db : Db)
      → Has (used username code t) db.used_totp_codes
      → now < t + 90 * second
      → seen now username code db ≡ true
  Has-seen t now username code db h soon = lt→ltb _ _ (
      keep-pos (recently_used now username code) (used username code t)
        (recently_used_of_lt now t username code soon) db.used_totp_codes h)

  pub seen_refuses :
      (now : ℕ) (username secret code : String) (db : Db)
      → seen now username code db ≡ true
      → verify_totp_with_replay x now username secret code db ≡ (db, false)
  seen_refuses now username secret code db h =
      elim (verify_totp_with_replay_cases now username secret code db) [
        | inl r ↦ r
        | inr (_, fresh, _) ↦ cc (h, fresh)
      ]

  -- A code that was accepted at time `t` for a user is refused for that user until 90 seconds later,
  -- whatever other codes are tried for whatever users in between, each at most five minutes after
  -- `t`, provided that name and code fit their columns. The refusal leaves the tables as they were.
  pub accepted_once :
      (t now : ℕ) (username secret secret' code : String) (db : Db) (between : List Attempt)
      → (varchar 50 username && varchar 10 code) ≡ true
      → (verify_totp_with_replay x t username secret code db).1 ≡ true
      → All (λ (a : Attempt). a.at ≤ t + 5 * minute) between
      → now < t + 90 * second
      → let later = run_attempts between (verify_totp_with_replay x t username secret code db).0 in
        verify_totp_with_replay x now username secret' code later ≡ (later, false)
  accepted_once t now username secret secret' code db between fits e soon in_time =
      let first : Db = (verify_totp_with_replay x t username secret code db).0 in
      let later : Db = run_attempts between first in
      seen_refuses now username secret' code later (
        Has-seen t now username code later
          (run_attempts-Has between first (used username code t)
            (accepted_Has t username secret code db fits e) soon)
          in_time)

  -- No record can hold a code of more than ten characters.
  abbrev pub AllFit : Db → Type 0
  AllFit db = All (λ (u : UsedCode). varchar 10 u.code ≡ true) db.used_totp_codes

  keep-none :
      (now : ℕ) (username code : String) (l : List UsedCode)
      → varchar 10 code ≡ false
      → All (λ (u : UsedCode). varchar 10 u.code ≡ true) l
      → keep (recently_used now username code) l ≡ []
  unfolding keep recently_used
  keep-none now username code [] long fit = refl
  keep-none now username code (u ∷ l) long (fits, fit) = elim (Bool-cases (str_eq u.code code)) [
    | inl same ↦
        let clash : varchar 10 u.code ≡ false = rw ((eq_iff u.code code).0 same) long in
        cc (fits, clash)
    | inr other ↦ ground (arith, other, keep-none now username code l long fit)
  ]

  -- So such a code is never refused as a replay: it is accepted as often as the validator takes it.
  pub long_code_replays :
      (now : ℕ) (username secret code : String) (db : Db)
      → AllFit db
      → varchar 10 code ≡ false
      → (verify_totp_with_replay x now username secret code db).1 ≡ verify_totp x now secret code
  unfolding verify_totp_with_replay
  long_code_replays now username secret code db fit long =
      ground (arith, keep-none now username code db.used_totp_codes long fit)
