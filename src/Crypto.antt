-- ===== src/Crypto.antt =====
-- internal/services/crypto.go: AES-GCM with the master key, over base64.
pub mod RoundTrip
pub mod Keys
use syncent.Base.{
  ℕ, String, Bool, Option, none, some, List, ◌++◌, ◌||◌, length, take, drop, ltb, ◌==◌,
  if◌then◌else◌, ◌≡◌, ◌⊎◌, inl, inr, refl,
}
use syncent.External.{External}

pub data CryptoError : Type 0 where
  base64_error bad_key_size too_short wrong_key no_random_bytes : CryptoError

pub data Result {ℓ} (A : Type ℓ) : Type ℓ where
  ok : A → Result A
  err : CryptoError → Result A

pub Result-cases :
    (a : Result String) → ((e : CryptoError) × (a ≡ err e)) ⊎ ((s : String) × (a ≡ ok s))
Result-cases (err e) = inl (e, refl)
Result-cases (ok s) = inr (s, refl)

-- `aes.NewCipher` takes keys of 16, 24 and 32 bytes.
abbrev pub new_cipher_ok : List ℕ → Bool
new_cipher_ok key = length key == 16 || length key == 24 || length key == 32

-- the size of a GCM nonce
abbrev pub nonce_size : ℕ
nonce_size = 12

module _ (x : External) (key : List ℕ) where
  -- `nonce` is what the random source gives before it stops; io.ReadFull fails where that is less
  -- than the twelve bytes that are asked for.
  unfoldable pub encrypt : List ℕ → String → Result String
  encrypt nonce plaintext =
      if new_cipher_ok key
      then (if length nonce == nonce_size
          then ok (x.base64_encode (nonce ++ x.gcm_seal key nonce (x.bytes plaintext)))
          else err no_random_bytes)
      else err bad_key_size

  -- `Decrypt`, once the base64 is decoded
  decrypt_bytes : List ℕ → Result String
  decrypt_bytes data' =
      if new_cipher_ok key
      then (if ltb (length data') nonce_size
          then err too_short
          else (elim (x.gcm_open key (take nonce_size data') (drop nonce_size data')) [
            | none ↦ err wrong_key
            | some plaintext ↦ ok (x.text plaintext)
          ]))
      else err bad_key_size

  unfoldable pub decrypt : String → Result String
  unfolding decrypt_bytes
  decrypt encrypted = elim (x.base64_decode encrypted) [
    | none ↦ err base64_error
    | some data' ↦ decrypt_bytes data'
  ]
