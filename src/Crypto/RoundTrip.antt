-- ===== src/Crypto/RoundTrip.antt =====
-- What `Encrypt` of internal/services/crypto.go writes, `Decrypt` reads.
use syncent.Base.{
  ℕ, String, true, false, some, List, [], ◌∷◌, ◌++◌, length, length-append, take, drop, ltb, le→ltb,
  ◌≡◌, ◌≢◌, refl, arith, zero, suc, Bool-cases, inl, inr, ap, subst, str_eq, eq_iff, ◌==◌, ==_iff,
}
use syncent.External.{External}
use syncent.Crypto.{ok, encrypt, decrypt, decrypt_bytes, new_cipher_ok}

-- Documented behaviour of encoding/base64, crypto/cipher and of Go's string conversions.
pub record CipherLaws (x : External) : Type 0 where
  pub base64_decode-encode : (b : List ℕ) → x.base64_decode (x.base64_encode b) ≡ some b
  pub open-seal : (k n p : List ℕ) → x.gcm_open k n (x.gcm_seal k n p) ≡ some p
  pub text-bytes : (s : String) → x.text (x.bytes s) ≡ s

pub take-length_append : (xs ys : List ℕ) (n : ℕ) → length xs ≡ n → take n (xs ++ ys) ≡ xs
take-length_append [] ys zero e = refl
take-length_append [] ys (suc n) e = absurd (omega arith)
take-length_append (a ∷ xs) ys zero e = absurd (omega arith)
take-length_append (a ∷ xs) ys (suc n) e = ap (◌∷◌ a) (take-length_append xs ys n (omega arith))

pub drop-length_append : (xs ys : List ℕ) (n : ℕ) → length xs ≡ n → drop n (xs ++ ys) ≡ ys
drop-length_append [] ys zero e = refl
drop-length_append [] ys (suc n) e = absurd (omega arith)
drop-length_append (a ∷ xs) ys zero e = absurd (omega arith)
drop-length_append (a ∷ xs) ys (suc n) e = drop-length_append xs ys n (omega arith)

module _ (x : External) (laws : CipherLaws x) (key : List ℕ) where
  pub not_too_short :
      (nonce sealed : List ℕ) → length nonce ≡ 12 → ltb (length (nonce ++ sealed)) 12 ≡ false
  not_too_short nonce sealed size = le→ltb _ _ (omega (arith, length-append nonce sealed))

  decrypt_bytes-sealed :
      (nonce : List ℕ) (plaintext : String)
      → length nonce ≡ 12
      → new_cipher_ok key ≡ true
      → decrypt_bytes x key (nonce ++ x.gcm_seal key nonce (x.bytes plaintext)) ≡ ok plaintext
  unfolding decrypt_bytes
  decrypt_bytes-sealed nonce plaintext size fits =
      let sealed = x.gcm_seal key nonce (x.bytes plaintext) in
      rw
        (
          fits,
          not_too_short nonce sealed size,
          take-length_append nonce sealed 12 size,
          drop-length_append nonce sealed 12 size,
          laws.open-seal key nonce (x.bytes plaintext),
        )
        (ap ok (laws.text-bytes plaintext))

  -- With a nonce of twelve bytes, decrypting under the same key gives back what was encrypted.
  pub decrypt-encrypt :
      (nonce : List ℕ) (plaintext encrypted : String)
      → length nonce ≡ 12
      → encrypt x key nonce plaintext ≡ ok encrypted
      → decrypt x key encrypted ≡ ok plaintext
  unfolding encrypt decrypt
  decrypt-encrypt nonce plaintext encrypted size e = elim (Bool-cases (new_cipher_ok key)) [
    | inl fits ↦
        let sealed = nonce ++ x.gcm_seal key nonce (x.bytes plaintext) in
        let enough : (length nonce == 12) ≡ true = (==_iff (length nonce) 12).1 size in
        let same : x.base64_encode sealed ≡ encrypted = cc (rw (fits, enough) at e) in
        rw (← same, laws.base64_decode-encode sealed, decrypt)
          (decrypt_bytes-sealed nonce plaintext size fits)
    | inr other ↦ cc (rw other at e)
  ]

-- The empty text holds no nonce.
empty_fails :
    (x : External) (key : List ℕ) (s : String)
    → x.base64_decode "" ≡ some []
    → decrypt x key "" ≢ ok s
unfolding decrypt decrypt_bytes
empty_fails x key s e h = elim (Bool-cases (new_cipher_ok key)) [
  | inl fits ↦ cc (rw (decrypt, e, fits) at h)
  | inr other ↦ cc (rw (decrypt, e, other) at h)
]

pub sealed-not_empty :
    (x : External) (key : List ℕ) (sealed secret : String)
    → x.base64_decode "" ≡ some []
    → decrypt x key sealed ≡ ok secret
    → str_eq sealed "" ≡ false
sealed-not_empty x key sealed secret empty opens = elim (Bool-cases (str_eq sealed "")) [
  | inr e ↦ e
  | inl e ↦ absurd (
      empty_fails x key secret empty
        (subst (λ t. decrypt x key t ≡ ok secret) ((eq_iff sealed "").0 e) opens))
]
