-- ===== src/Captcha.antt =====
-- The captchas of internal/handlers/settings.go: a map from ids to answers, here an association list.
pub mod Laws
use syncent.Base.{
  ℕ, ◌+◌, ◌-◌, ◌*◌, ◌%◌, String, Bool, true, false, not, Option, none, some, List, [], ◌∷◌, str_eq,
  ltb, concat, if◌then◌else◌,
}
use syncent.External.{External, minute}
use syncent.Http.{Response, text, respond_json}
use syncent.Tokens.{keep}

pub record CaptchaEntry : Type 0 where
  pub answer : String
  pub expires_at : ℕ

abbrev pub Captchas : Type 0
Captchas = List (String × CaptchaEntry)

unfoldable pub captcha_of : String → Captchas → Option CaptchaEntry
captcha_of id [] = none
captcha_of id ((k, e) ∷ rest) = if str_eq k id then some e else captcha_of id rest

-- `delete(captchas, id)`
unfoldable pub remove_captcha : String → Captchas → Captchas
remove_captcha id [] = []
remove_captcha id ((k, e) ∷ rest) =
    if str_eq k id then remove_captcha id rest else (k, e) ∷ remove_captcha id rest

-- from one random byte
unfoldable pub rand_int : ℕ → ℕ → ℕ → ℕ
rand_int low high byte = low + byte % ((high - low) + 1)

-- the id and the two bytes are drawn at random
unfoldable pub generate_captcha : External → ℕ → String → ℕ → ℕ → Captchas → Captchas × Response
unfolding remove_captcha keep rand_int respond_json
generate_captcha x now id byte_a byte_b m =
    let a = rand_int 10 50 byte_a in
    let b = rand_int 1 20 byte_b in
    let entry : CaptchaEntry = record {
      answer = x.decimal (a + b);
      expires_at = now + 5 * minute;
    } in
    (
      keep (λ (p : String × CaptchaEntry). not (ltb (p.1).expires_at now))
          ((id, entry) ∷ remove_captcha id m),
      respond_json 200 (
          ("captcha_id", text id)
          ∷ ("question", text (concat (x.decimal a ∷ " + " ∷ x.decimal b ∷ " = ?" ∷ [])))
          ∷ []),
    )

abbrev pub is_right : ℕ → String → Option CaptchaEntry → Bool
is_right now answer none = false
is_right now answer (some e) = if ltb e.expires_at now then false else str_eq e.answer answer

unfoldable pub verify_captcha : ℕ → String → String → Captchas → Captchas × Bool
verify_captcha now id answer m = (remove_captcha id m, is_right now answer (captcha_of id m))
