-- ===== src/Servers/Inject.antt =====
-- internal/handlers/servers.go: InjectKey.
use syncent.Base.{
  ℕ, String, Bool, not, ◌&&◌, ◌||◌, Option, none, some, List, [], ◌∷◌, any, codes, ◌==◌, str_eq,
  concat, has_prefix, escape_quotes, trim_text, if◌then◌else◌,
}
use syncent.External.{External}
use syncent.Config.{Config}
use syncent.Http.{Response, Request, text, respond_json, respond_error, respond_error_with}
use syncent.Database.{Db}
use syncent.Crypto.Keys.{KeyLib, parse_private_key}
use syncent.Audit.{log_action}
use syncent.TwoFactor.{get_user_id, username_of}
use syncent.Execute.{owned_server}
use syncent.Servers.Manage.{server_not_found}
use syncent.Servers.Connect.{
  dial_error, client, Hosts, os_command, kernel_command, set_host, checked_at, unchanged_row,
}

-- The commands that were sent over the session with the password, too.
pub record Injection : Type 0 where
  pub db : Db
  pub response : Response
  pub sent : List String

-- the columns that are read, with both keys not NULL
pub record KeyRow : Type 0 where
  pub ip : String
  pub port : ℕ
  pub uname : String
  pub public_key : String
  pub enc_key : String
  pub name : String

-- strings.ContainsAny(pubKey, "`$;|&\n\r")
unfoldable pub is_shell_special : ℕ → Bool
is_shell_special c =
    c == b'`' || c == b'$' || c == b';' || c == b'|' || c == b'&' || c == 10 || c == 13

unfoldable pub valid_key_format : String → Bool
valid_key_format key =
    has_prefix (codes key) (codes "ssh-ed25519 ") && not (any is_shell_special (codes key))

unfoldable pub inject_command : String → String
inject_command key = concat (
    "grep -qF \""
    ∷ escape_quotes key
    ∷ "\" ~/.ssh/authorized_keys 2>/dev/null || printf '%s\\n' \""
    ∷ escape_quotes key
    ∷ "\" >> ~/.ssh/authorized_keys"
    ∷ [])

abbrev pub inject_commands : String → List String
inject_commands key =
    "mkdir -p ~/.ssh && chmod 700 ~/.ssh"
    ∷ "touch ~/.ssh/authorized_keys && chmod 600 ~/.ssh/authorized_keys"
    ∷ inject_command key
    ∷ os_command
    ∷ kernel_command
    ∷ []

unfoldable pub key_row : String → String → Db → Option KeyRow
key_row id user_id db = elim (owned_server id user_id db.servers) [
  | none ↦ none
  | some s ↦ elim s.public_key [
    | none ↦ none
    | some public ↦ elim s.encrypted_private_key [
      | none ↦ none
      | some enc ↦ some record {
        ip = s.ip_address;
        port = s.ssh_port;
        uname = s.ssh_username;
        public_key = public;
        enc_key = enc;
        name = s.name;
      }
    ]
  ]
]

module _ (x : External) (c : Config) (keys : KeyLib) (hosts : Hosts) (r : Request)
    (id : String) where
  abbrev refuse : Db → Response → Injection
  refuse db response = record { db = db; response = response; sent = [] }

  -- the second login, by the key, once the commands are sent
  unfoldable pub verify_injected : KeyRow → (String → String) → Db → Db × Response
  verify_injected k run db =
      let os = trim_text (run os_command) in
      let kernel = trim_text (run kernel_command) in
      let not_verified = set_host id "auth_failed" os kernel unchanged_row db in
      elim (parse_private_key x c.master_key keys k.enc_key) [
        | none ↦ (
          not_verified,
          respond_error 500 "KEY_ERROR"
              "Key was injected but verification failed. Try manual key setup.",
        )
        | some signer ↦ elim (hosts.dial_with_key k.ip k.port k.uname (some signer)) [
          | dial_error e ↦ (
            log_action x r.now "key_inject_failed"
                (concat ("Key injected but verification failed for " ∷ k.name ∷ ": " ∷ e ∷ []))
                (some id) (username_of r) r.client_ip not_verified,
            respond_error_with 502 "KEY_VERIFY_FAILED"
                "Key was written to authorized_keys but SSH key authentication failed. Check file permissions: ~/.ssh (700), authorized_keys (600). Also verify the server allows PubkeyAuthentication."
                (concat ("Try: ssh -i <key> " ∷ k.uname ∷ "@" ∷ k.ip ∷ " to debug manually." ∷ [])),
          )
          | client run' ↦ (
            log_action x r.now "key_injected"
                (concat ("Key injected and verified for " ∷ k.name ∷ [])) (some id) (username_of r)
                r.client_ip (set_host id "online" os kernel (checked_at r.now) db),
            respond_json 200 (
                (
                  "message",
                  text (
                      concat (
                        "SSH key installed and verified on " ∷ k.name ∷ ". Password was not stored."
                        ∷ [])),
                )
                ∷ []),
          )
        ]
      ]

  -- `none` is a body that does not decode
  unfoldable pub inject_key : Option String → Db → Injection
  inject_key none db = refuse db (respond_error 400 "INVALID_INPUT" "SSH password required.")
  inject_key (some password) db =
      if str_eq password ""
      then refuse db (respond_error 400 "INVALID_INPUT" "SSH password required.")
      else (elim (key_row id (get_user_id r.username db) db) [
        | none ↦ refuse db server_not_found
        | some k ↦ elim (hosts.dial_with_password k.ip k.port k.uname password) [
          | dial_error e ↦ refuse db (
              respond_error_with 502 "SSH_FAILED" "SSH authentication failed. Check your password."
                "Ensure password authentication is enabled on the server.")
          | client run ↦
              if valid_key_format k.public_key
              then (let (after, response) = verify_injected k run db in
                  record { db = after; response = response; sent = inject_commands k.public_key })
              else refuse db (respond_error 500 "KEY_FORMAT_ERROR" "Invalid public key format.")
        ]
      ])
