-- ===== src/Middleware.antt =====
-- The middleware of internal/handlers/middleware.go that guards the routes.
pub mod Laws
use Prim.Native.Char.{code}
use Prim.Native.String
use syncent.Base.{
  ℕ, String, Bool, true, false, not, ◌&&◌, Option, none, some, List, any, str_eq, ◌==◌,
  if◌then◌else◌,
}
use syncent.External.{External}
use syncent.Config.{Config}
use syncent.Http.{Response, Request, respond_error}
use syncent.Database.{Db}
use syncent.Database.Users.{find_in}
use syncent.Tokens.{verify_access_token}

abbrev pub Handler : Type 0
Handler = Request → Db → Db × Response

-- `strings.HasPrefix` and `strings.TrimPrefix`: what follows the prefix, if the text has it
unfoldable pub after_prefix : String → String → Option String
after_prefix String.[] s = some s
after_prefix (String.◌∷◌ c p) String.[] = none
after_prefix (String.◌∷◌ c p) (String.◌∷◌ d s) =
    let rest = after_prefix p s in if code c == code d then rest else none

-- `withUsername`
abbrev pub with_username : String → Request → Request
with_username username r = record r { username = username }

module _ (x : External) (c : Config) where
  -- `auth` is the header Authorization, "" where there is none
  unfoldable pub auth_middleware : String → Handler → Handler
  auth_middleware auth next r db = elim (after_prefix "Bearer " auth) [
    | none ↦ (db, respond_error 401 "NO_TOKEN" "Missing authorization token.")
    | some token ↦ elim (verify_access_token x r.now token c.jwt_secret) [
      | none ↦ (db, respond_error 401 "TOKEN_INVALID" "Invalid or expired token.")
      | some username ↦ next (with_username username r) db
    ]
  ]

unfoldable pub admin_middleware : Handler → Handler
admin_middleware next r db = elim (find_in r.username db.users) [
  | none ↦ (db, respond_error 403 "FORBIDDEN" "Admin access required.")
  | some u ↦
      if str_eq u.role "admin"
      then next r db
      else (db, respond_error 403 "FORBIDDEN" "Admin access required.")
]

-- SELECT COUNT(*) FROM servers s JOIN users u ... WHERE s.id=$1 AND u.username=$2
unfoldable pub verify_server_ownership : String → String → Db → Bool
verify_server_ownership username server_id db =
    any
      (λ s.
        str_eq s.id server_id
        && any (λ u. str_eq u.id s.user_id && str_eq u.username username) db.users)
      db.servers
