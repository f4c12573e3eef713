-- ===== src/Http.antt =====
-- Responses, as internal/handlers/middleware.go writes them.
use syncent.Base.{ℕ, String, Bool, true, Option, none, some, List, [], ◌∷◌}

pub data Value : Type 0 where
  text : String → Value
  num : ℕ → Value
  bool : Bool → Value
  -- a number that may be negative, by its decimal form
  number : String → Value
  -- a column that holds JSON
  json : String → Value
  null : Value

-- a column that may be NULL
abbrev pub text_or_null : Option String → Value
text_or_null none = null
text_or_null (some s) = text s

abbrev pub num_or_null : Option ℕ → Value
num_or_null none = null
num_or_null (some n) = num n

pub record Cookie : Type 0 where
  pub name : String
  pub value : String
  pub path : String
  pub http_only : Bool
  pub secure : Bool
  pub same_site_strict : Bool
  -- in seconds; `none` is the negative age that deletes a cookie
  pub max_age : Option ℕ

pub record Response : Type 0 where
  pub status : ℕ
  pub fields : List (String × Value)
  pub cookie : Option Cookie
  pub no_store : Bool

unfoldable pub respond_json : ℕ → List (String × Value) → Response
respond_json status fields = record {
  status = status;
  fields = fields;
  cookie = none;
  no_store = Bool.false;
}

unfoldable pub respond_error : ℕ → String → String → Response
unfolding respond_json
respond_error status code message =
    respond_json status
      (("error", bool true) ∷ ("code", text code) ∷ ("message", text message) ∷ [])

-- with a suggestion
unfoldable pub respond_error_with : ℕ → String → String → String → Response
unfolding respond_json
respond_error_with status code message suggestion = respond_json status (
    ("error", bool true)
    ∷ ("code", text code)
    ∷ ("message", text message)
    ∷ ("suggestion", text suggestion)
    ∷ [])

-- What a handler knows of its request besides the body: the time, the result of `getClientIP`, the
-- user that the middleware put in the context ("" for none), and what the random source will give.
pub record Request : Type 0 where
  pub now : ℕ
  pub client_ip : String
  pub username : String
  pub random : ℕ → ℕ
  pub nonce : List ℕ
