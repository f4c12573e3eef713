-- ===== src/Crypto/Keys.antt =====
-- internal/services/crypto.go: GenerateEd25519Keypair and ParsePrivateKey, over the packages for keys.
use syncent.Base.{ℕ, String, Option, none, some, List, trim_text}
use syncent.External.{External}
use syncent.Crypto.{ok, err, decrypt}

-- What crypto/ed25519, encoding/pem and golang.org/x/crypto/ssh do; a key is given by its bytes, a
-- signer by the key.
pub record KeyLib : Type 0 where
  -- random bytes; the public and the private key
  pub generate_key : ℕ → Option (List ℕ × List ℕ)
  -- the PEM block of a private key
  pub marshal_private_key : List ℕ → Option String
  -- the line of a public key for the file authorized_keys
  pub marshal_authorized_key : List ℕ → Option String
  pub parse_private_key : String → Option (List ℕ)

-- `GenerateEd25519Keypair`: the private key and the public one
unfoldable pub generate_ed25519_keypair : KeyLib → ℕ → Option (String × String)
unfolding trim_text
generate_ed25519_keypair lib draw = elim (lib.generate_key draw) [
  | none ↦ none
  | some (public, private) ↦ elim (lib.marshal_private_key private) [
    | none ↦ none
    | some pem ↦ elim (lib.marshal_authorized_key public) [
      | none ↦ none
      | some line ↦ some (pem, trim_text line)
    ]
  ]
]

-- `ParsePrivateKey`, with `none` for an error
unfoldable pub parse_private_key : External → List ℕ → KeyLib → String → Option (List ℕ)
parse_private_key x key lib encrypted_key = elim (decrypt x key encrypted_key) [
  | err e ↦ none
  | ok pem ↦ lib.parse_private_key pem
]
