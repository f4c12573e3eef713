-- ===== src/Servers/Injected.antt =====
-- What InjectKey of internal/handlers/servers.go needs to answer that it has succeeded.
use syncent.Base.{
  ℕ, String, true, false, some, List, [], ◌∷◌, All, any, codes, concat, has_prefix, escape_quotes,
  ◌≢◌, str_eq, ◌≡◌, refl, arith, Bool-cases, Option-cases, inl, inr,
}
use syncent.External.{External}
use syncent.Config.{Config}
use syncent.Http.{Request, respond_error, respond_error_with}
use syncent.Database.{Db, Server}
use syncent.Crypto.Keys.{KeyLib, parse_private_key}
use syncent.TwoFactor.{get_user_id}
use syncent.Execute.{owned_server}
use syncent.Servers.Connect.{os_command, kernel_command, client, Dial-cases, Hosts}
use syncent.Servers.Inject.{
  KeyRow, key_row, inject_command, is_shell_special, verify_injected, valid_key_format, inject_key,
}

-- The characters that a public key must not have: ` $ ; | & and the two ends of lines.
abbrev pub Harmless : ℕ → Type 0
Harmless c = (c ≢ b'`') × (c ≢ b'$') × (c ≢ b';') × (c ≢ b'|') × (c ≢ b'&') × (c ≢ 10) × (c ≢ 13)

none_special : (l : List ℕ) → any is_shell_special l ≡ false → All Harmless l
unfolding is_shell_special
none_special [] h = tt
none_special (c ∷ l) h = (ground (arith, h), none_special l (ground (arith, h)))

valid_key_format-Harmless :
    (key : String)
    → valid_key_format key ≡ true
    → (has_prefix (codes key) (codes "ssh-ed25519 ") ≡ true) × All Harmless (codes key)
unfolding valid_key_format
valid_key_format-Harmless key h =
    elim (Bool-cases (has_prefix (codes key) (codes "ssh-ed25519 "))) [
      | inl begins ↦ elim (Bool-cases (any is_shell_special (codes key))) [
        | inl special ↦ absurd (cc (rw (valid_key_format, begins, special) at h))
        | inr harmless ↦ (begins, none_special (codes key) harmless)
      ]
      | inr other ↦ absurd (cc (rw (valid_key_format, other) at h))
    ]

-- The session by the password, the checks of the key, the login by the key, and what was sent.
pub record Injected (x : External) (c : Config) (keys : KeyLib) (hosts : Hosts) (r : Request)
    (id password : String) (db : Db) (sent : List String) : Type 0 where
  pub server : Server
  pub key : KeyRow
  pub owned : owned_server id (get_user_id r.username db) db.servers ≡ some server
  pub read : key_row id (get_user_id r.username db) db ≡ some key
  pub begins : has_prefix (codes key.public_key) (codes "ssh-ed25519 ") ≡ true
  pub harmless : All Harmless (codes key.public_key)
  pub signer : List ℕ
  pub parsed : parse_private_key x c.master_key keys key.enc_key ≡ some signer
  pub first :
      (run : String → String) × (hosts.dial_with_password key.ip key.port key.uname password
        ≡ client run)
  pub second :
      (run : String → String) × (hosts.dial_with_key key.ip key.port key.uname (some signer)
        ≡ client run)
  pub commands :
      sent
      ≡ "mkdir -p ~/.ssh && chmod 700 ~/.ssh"
        ∷ "touch ~/.ssh/authorized_keys && chmod 600 ~/.ssh/authorized_keys"
        ∷ concat (
            "grep -qF \""
            ∷ escape_quotes key.public_key
            ∷ "\" ~/.ssh/authorized_keys 2>/dev/null || printf '%s\\n' \""
            ∷ escape_quotes key.public_key
            ∷ "\" >> ~/.ssh/authorized_keys"
            ∷ [])
        ∷ os_command
        ∷ kernel_command
        ∷ []

module _ (x : External) (c : Config) (keys : KeyLib) (hosts : Hosts) (r : Request)
    (id : String) where
  module _ (k : KeyRow) (run : String → String) (db : Db) where
    verify_injected-ok :
        (verify_injected x c keys hosts r id k run db).1.status ≡ 200
        → (signer : List ℕ) × (parse_private_key x c.master_key keys k.enc_key ≡ some signer)
          × (run' : String → String) × (hosts.dial_with_key k.ip k.port k.uname (some signer)
              ≡ client run')
    unfolding verify_injected respond_error respond_error_with
    verify_injected-ok answered =
        elim (Option-cases (parse_private_key x c.master_key keys k.enc_key)) [
          | inl bad ↦ absurd (omega (arith, (rw (verify_injected, bad) at answered)))
          | inr (signer, good) ↦
              elim (Dial-cases (hosts.dial_with_key k.ip k.port k.uname (some signer))) [
                | inl (e, refused) ↦
                    absurd (omega (arith, (rw (verify_injected, good, refused) at answered)))
                | inr (run', opened) ↦ (signer, good, run', opened)
              ]
        ]

  -- InjectKey answers 200 only where the caller owns the server, the password opened a session, the
  -- public key of the server begins with "ssh-ed25519 " and has none of the characters ` $ ; | & and no
  -- end of line, and a login by the server's own key succeeded. The commands that were sent over the
  -- first session are then exactly five: two that make the directory and the file, the one that appends
  -- the public key, its quotes escaped, to the file unless it is there, and two that ask for the system
  -- and the kernel.
  pub inject_key_ok :
      (password : String) (db : Db)
      → (inject_key x c keys hosts r id (some password) db).response.status ≡ 200
      → Injected x c keys hosts r id password db
          (inject_key x c keys hosts r id (some password) db).sent
  unfolding inject_key inject_command key_row respond_error respond_error_with
  inject_key_ok password db answered =
      let user_id = get_user_id r.username db in
      elim (Bool-cases (str_eq password "")) [
        | inl empty ↦ absurd (omega (arith, (rw (inject_key, empty) at answered)))
        | inr given ↦ elim (Option-cases (owned_server id user_id db.servers)) [
          | inl missing ↦
              absurd (omega (arith, (rw (inject_key, given, key_row, missing) at answered)))
          | inr (s, owned) ↦ elim (Option-cases (key_row id user_id db)) [
            | inl unreadable ↦
                absurd (omega (arith, (rw (inject_key, given, unreadable) at answered)))
            | inr (k, row) ↦
                elim (Dial-cases (hosts.dial_with_password k.ip k.port k.uname password)) [
                  | inl (e, refused) ↦
                      absurd (omega (arith, (rw (inject_key, given, row, refused) at answered)))
                  | inr (run, opened) ↦ elim (Bool-cases (valid_key_format k.public_key)) [
                    | inr bad ↦
                        absurd
                          (omega (arith, (rw (inject_key, given, row, opened, bad) at answered)))
                    | inl good ↦
                        let login =
                          verify_injected-ok k run db
                            (rw (inject_key, given, row, opened, good) at answered) in
                        record {
                          server = s;
                          key = k;
                          owned = owned;
                          read = row;
                          begins = (valid_key_format-Harmless k.public_key good).0;
                          harmless = (valid_key_format-Harmless k.public_key good).1;
                          signer = login.0;
                          parsed = login.1;
                          first = (run, opened);
                          second = (login.2, login.3);
                          commands = rw (inject_key, given, row, opened, good) refl;
                        }
                  ]
                ]
          ]
        ]
      ]
