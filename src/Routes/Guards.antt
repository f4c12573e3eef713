-- ===== src/Routes/Guards.antt =====
-- Which routes of cmd/server/main.go answer whom.
use syncent.Base.{
  String, Bool, true, false, not, some, List, [], ◌∷◌, All, all, ◌≡◌, ◌⊎◌, inl, inr, refl, sym, ◌∙◌,
  subst, arith, Option-cases,
}
use syncent.External.{External}
use syncent.Config.{Config}
use syncent.Http.{Request, Response, respond_error, respond_json}
use syncent.Database.{Db, User}
use syncent.Database.Users.{find_in}
use syncent.Tokens.{verify_access_token}
use syncent.Middleware.{Handler, after_prefix, with_username, auth_middleware, admin_middleware}
use syncent.Middleware.Laws.{guarded_route_cases}
use syncent.Routes.{
  Guard, auth, admin, Endpoint, Route, routes, route, use_guard, auth_routes, server_routes,
  admin_routes, websocket_routes, serve_guarded, serve, health, check_setup, setup,
  verify_totp_setup, login, refresh, generate_captcha, validate_credentials,
  is_registration_allowed, register, handle_log_stream, handle_terminal, handle_gs_terminal,
  handle_gs_logs, frontend, verify_audit_chain, export_config, import_config, get_app_config,
  update_app_config, toggle_2fa,
}

-- The endpoints for callers without an account or a session, and those of the websockets, which read
-- their token from the address.
unfoldable pub is_public : Endpoint → Bool
is_public health = true
is_public check_setup = true
is_public setup = true
is_public verify_totp_setup = true
is_public login = true
is_public refresh = true
is_public generate_captcha = true
is_public validate_credentials = true
is_public is_registration_allowed = true
is_public register = true
is_public handle_log_stream = true
is_public handle_terminal = true
is_public handle_gs_terminal = true
is_public handle_gs_logs = true
is_public frontend = true
is_public _ = false

-- The endpoints for administrators.
unfoldable pub for_admins : Endpoint → Bool
for_admins verify_audit_chain = true
for_admins export_config = true
for_admins import_config = true
for_admins get_app_config = true
for_admins update_app_config = true
for_admins toggle_2fa = true
for_admins _ = false

good_guards : List Guard → Endpoint → Bool
good_guards [] e = is_public e
good_guards (auth ∷ []) e = not (for_admins e)
good_guards (auth ∷ admin ∷ []) e = true
good_guards (auth ∷ admin ∷ g ∷ rest) e = false
good_guards (auth ∷ auth ∷ rest) e = false
good_guards (admin ∷ rest) e = false

all-All : (p : Route → Bool) (l : List Route) → all p l ≡ true → All (λ r. p r ≡ true) l
all-All p [] h = tt
all-All p (r ∷ rest) h = (ground (arith, h), all-All p rest (ground (arith, h)))

routes-good : (built : Bool) → all (λ r. good_guards r.guards r.endpoint) (routes built) ≡ true
unfolding good_guards is_public for_admins routes route use_guard auth_routes server_routes
    admin_routes websocket_routes
routes-good true = refl
routes-good false = refl

All-map : {P Q : Route → Type 0} → ((r : Route) → P r → Q r) → (l : List Route) → All P l → All Q l
All-map f [] h = tt
All-map f (r ∷ rest) (first, h) = (f r first, All-map f rest h)

module _ (x : External) (c : Config) (handlers : Endpoint → Handler) where
  -- The request has a bearer token that is a valid access token of the user, who is an
  -- administrator where the endpoint is for administrators, and the handler answers for that user.
  pub record Admitted (route : Route) (header : String) (r : Request) (db : Db) : Type 0 where
    pub username : String
    pub token : String
    pub bearer : after_prefix "Bearer " header ≡ some token
    pub verified : verify_access_token x r.now token c.jwt_secret ≡ some username
    pub admin_user :
        for_admins route.endpoint ≡ true
        → (u : User) × (find_in username db.users ≡ some u) × (u.role ≡ "admin")
    pub answered :
        serve x c handlers header route r db ≡ handlers route.endpoint (with_username username r) db

  -- the answer is 401 or 403, and the database as it was
  abbrev pub TurnedAway : Db → Db × Response → Type 0
  TurnedAway db done = ((done.0) ≡ db) × (((done.1).status ≡ 401) ⊎ ((done.1).status ≡ 403))

  abbrev pub Guarded : Route → Type 0
  Guarded route =
      ((route.guards ≡ []) × (is_public route.endpoint ≡ true))
      ⊎ ((header : String) (r : Request) (db : Db)
          → TurnedAway db (serve x c handlers header route r db) ⊎ Admitted route header r db)

  auth_only :
      (route : Route) (header : String) (r : Request) (db : Db)
      → route.guards ≡ auth ∷ []
      → for_admins route.endpoint ≡ false
      → TurnedAway db (serve x c handlers header route r db) ⊎ Admitted route header r db
  unfolding serve serve_guarded auth_middleware respond_error respond_json
  auth_only route header r db guarded plain = elim (Option-cases (after_prefix "Bearer " header)) [
    | inl e ↦ rw (serve, guarded, serve_guarded, auth_middleware, e) (inl (refl, inl refl))
    | inr (token, e) ↦ elim (Option-cases (verify_access_token x r.now token c.jwt_secret)) [
      | inl f ↦ rw (serve, guarded, serve_guarded, auth_middleware, e, f) (inl (refl, inl refl))
      | inr (username, f) ↦ inr record {
        username = username;
        token = token;
        bearer = e;
        verified = f;
        admin_user = λ h. absurd (cc (sym plain ∙ h));
        answered = rw (serve, guarded, serve_guarded, auth_middleware, e, f) refl;
      }
    ]
  ]

  auth_and_admin :
      (route : Route) (header : String) (r : Request) (db : Db)
      → route.guards ≡ auth ∷ admin ∷ []
      → TurnedAway db (serve x c handlers header route r db) ⊎ Admitted route header r db
  unfolding serve serve_guarded
  auth_and_admin route header r db guarded =
      let same : serve x c handlers header route r db
          ≡ auth_middleware x c header (admin_middleware (handlers route.endpoint)) r db =
        rw (serve, guarded) refl in
      elim (guarded_route_cases x c header (handlers route.endpoint) r db) [
        | inl away ↦ inl (subst (TurnedAway db) (sym same) away)
        | inr (username, is_admin, answered) ↦ inr record {
          username = username;
          token = is_admin.token;
          bearer = is_admin.bearer;
          verified = is_admin.verified;
          admin_user = λ h. (is_admin.user, is_admin.stored, is_admin.role);
          answered = same ∙ answered;
        }
      ]

  by_guards :
      (g : List Guard) (route : Route)
      → route.guards ≡ g
      → good_guards g route.endpoint ≡ true
      → Guarded route
  unfolding good_guards
  by_guards [] route e h = inl (e, h)
  by_guards (auth ∷ []) route e h =
      inr (λ header r db. auth_only route header r db e (ground (arith, h)))
  by_guards (auth ∷ admin ∷ []) route e h = inr (λ header r db. auth_and_admin route header r db e)
  by_guards (auth ∷ admin ∷ g ∷ rest) route e h = absurd (cc h)
  by_guards (auth ∷ auth ∷ rest) route e h = absurd (cc h)
  by_guards (admin ∷ rest) route e h = absurd (cc h)

  -- Every route of the program, whichever handlers stand behind them, is one of the public endpoints;
  -- or it answers 401 or 403 and leaves the database alone, or is answered by its handler, for the user
  -- of a bearer token that is a valid access token. The endpoints of the audit verification, the
  -- export and import, the settings and the second factor are answered only for a user whose row
  -- has the role of an administrator.
  pub routes-Guarded : (built : Bool) → All Guarded (routes built)
  routes-Guarded built =
      All-map (λ route good. by_guards route.guards route refl good) (routes built)
        (all-All (λ r. good_guards r.guards r.endpoint) (routes built) (routes-good built))
