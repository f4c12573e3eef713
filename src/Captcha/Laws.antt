-- ===== src/Captcha/Laws.antt =====
-- A captcha is good once.
use syncent.Base.{
  ℕ, String, false, Option, none, some, [], ◌∷◌, str_eq, eq_iff, ◌≡◌, refl, ap, inl, inr,
  Bool-cases, if◌then◌else◌,
}
use syncent.Captcha.{CaptchaEntry, Captchas, captcha_of, remove_captcha, is_right, verify_captcha}

captcha_of-remove_captcha :
    (id : String) (m : Captchas) → captcha_of id (remove_captcha id m) ≡ none
unfolding captcha_of remove_captcha
captcha_of-remove_captcha id [] = refl
captcha_of-remove_captcha id ((k, e) ∷ rest) =
    let ih = captcha_of-remove_captcha id rest in
    elim (Bool-cases (str_eq k id)) [ inl f ↦ rw f ih | inr f ↦ rw (f, f) ih ]

captcha_of-remove_captcha_other :
    (id other : String) (m : Captchas)
    → str_eq id other ≡ false
    → captcha_of other (remove_captcha id m) ≡ captcha_of other m
unfolding captcha_of remove_captcha
captcha_of-remove_captcha_other id other [] h = refl
captcha_of-remove_captcha_other id other ((k, e) ∷ rest) h =
    let ih = captcha_of-remove_captcha_other id other rest h in
    elim (Bool-cases (str_eq k id)) [
      | inl f ↦
          let differs : str_eq k other ≡ false = rw ((eq_iff k id).0 f) h in rw (f, differs) ih
      | inr f ↦ rw f (ap (λ (o : Option CaptchaEntry). if str_eq k other then some e else o) ih)
    ]

-- Whatever the first answer to a captcha was, every later answer to it is refused, and every other
-- captcha is answered as it would have been.
pub verify_captcha_once :
    (now later : ℕ) (id first second : String) (m : Captchas)
    → ((verify_captcha later id second (verify_captcha now id first m).0).1 ≡ false)
      × ((other answer : String)
          → str_eq id other ≡ false
          → (verify_captcha later other answer (verify_captcha now id first m).0).1
            ≡ (verify_captcha later other answer m).1)
unfolding verify_captcha
verify_captcha_once now later id first second m = (
  ap (is_right later second) (captcha_of-remove_captcha id m),
  λ other answer h. ap (is_right later answer) (captcha_of-remove_captcha_other id other m h),
)
