-- ===== src/Sample/Jwt.antt =====
-- A signature for every claims and every secret: the token is a text that holds them.
use syncent.Base.{
  ℕ, ◌<◌, String, Bool, true, ◌&&◌, Option, none, some, List, [], ◌∷◌, ◌++◌, length, take, drop,
  ltb, lt→ltb, str_eq, eq_iff, ◌≡◌, refl, subst, ap, ◌∙◌, if◌then◌else◌,
}
use syncent.External.{External, TokenClaims}
use syncent.Crypto.RoundTrip.{take-length_append, drop-length_append}
use syncent.Tokens.Claims.{JwtLaw}
use syncent.Sample.{sample}
use syncent.Sample.Codec.{encode, decode, to_bytes, of_bytes, decode-encode, of_bytes-to_bytes}

-- the bytes of a text after their number
abbrev pack : String → List ℕ
pack s = length (to_bytes s) ∷ to_bytes s

unfoldable pub unpack : List ℕ → String × List ℕ
unpack [] = ("", [])
unpack (n ∷ l) = (of_bytes (take n l), drop n l)

unpack-pack : (s : String) (l : List ℕ) → unpack (pack s ++ l) ≡ (s, l)
unfolding unpack
unpack-pack s l =
    rw
      (
        take-length_append (to_bytes s) l (length (to_bytes s)) refl,
        drop-length_append (to_bytes s) l (length (to_bytes s)) refl,
        of_bytes-to_bytes s,
      )
      refl

abbrev pub signed : TokenClaims → String → String
signed c secret = encode (
    c.issued_at
    ∷ c.expires_at
    ∷ (pack secret ++ (pack c.username ++ (pack c.token_type ++ to_bytes c.id))))

abbrev read_claims : List ℕ → String → ℕ → Option (TokenClaims × Bool)
read_claims [] secret now = none
read_claims (i ∷ []) secret now = none
read_claims (i ∷ e ∷ l) secret now =
    let key = unpack l in
    let user = unpack (key.1) in
    let type' = unpack (user.1) in
    if str_eq (key.0) secret && ltb now e
    then some (
      record {
        username = user.0;
        token_type = type'.0;
        issued_at = i;
        expires_at = e;
        id = of_bytes (type'.1);
      },
      true,
    )
    else none

abbrev pub signing : External
signing = record sample {
  jwt_sign = λ c secret. some (signed c secret);
  jwt_parse =
      λ token secret now. elim (decode token) [ none ↦ none | some l ↦ read_claims l secret now ];
}

read_claims-signed :
    (c : TokenClaims) (secret : String) (now : ℕ)
    → now < c.expires_at
    → read_claims
        (c.issued_at
          ∷ c.expires_at
          ∷ (pack secret ++ (pack c.username ++ (pack c.token_type ++ to_bytes c.id))))
        secret
        now
      ≡ some (c, true)
read_claims-signed c secret now in_time =
    let types = pack c.token_type ++ to_bytes c.id in
    rw
      (
        unpack-pack secret (pack c.username ++ types),
        unpack-pack c.username types,
        unpack-pack c.token_type (to_bytes c.id),
        of_bytes-to_bytes c.id,
        (eq_iff secret secret).1 refl,
        lt→ltb _ _ in_time,
      )
      refl

pub signing-JwtLaw : JwtLaw signing
signing-JwtLaw c secret token now whole whole' made in_time =
    let same : signed c secret ≡ token = cc made in
    subst (λ (t : String). signing.jwt_parse t secret now ≡ some (c, true)) same
      (ap
          (λ (o : Option (List ℕ)). elim o as (λ x. Option (TokenClaims × Bool)) [
            | none ↦ none
            | some l ↦ read_claims l secret now
          ])
          (decode-encode (
            c.issued_at
            ∷ c.expires_at
            ∷ (pack secret ++ (pack c.username ++ (pack c.token_type ++ to_bytes c.id)))))
        ∙ read_claims-signed c secret now in_time)
