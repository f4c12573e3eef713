-- ===== src/Middleware/Laws.antt =====
-- Who passes the middleware.
use syncent.Base.{String, some, str_eq, eq_iff, ◌≡◌, ◌⊎◌, inl, inr, refl, Bool-cases, Option-cases}
use syncent.External.{External}
use syncent.Config.{Config}
use syncent.Http.{Request, respond_json, respond_error}
use syncent.Database.{Db, User}
use syncent.Database.Users.{find_in}
use syncent.Tokens.{verify_access_token}
use syncent.Middleware.{Handler, after_prefix, with_username, auth_middleware, admin_middleware}

module _ (x : External) (c : Config) where
  -- The caller's token is an access token for the user, and the user is an administrator.
  pub record IsAdmin (auth : String) (r : Request) (db : Db) (username : String) : Type 0 where
    pub token : String
    pub user : User
    pub bearer : after_prefix "Bearer " auth ≡ some token
    pub verified : verify_access_token x r.now token c.jwt_secret ≡ some username
    pub stored : find_in username db.users ≡ some user
    pub role : user.role ≡ "admin"

  -- A route behind both guards either answers 401 or 403 and leaves the database alone, or is
  -- answered by its handler, for the user of a bearer token that is a valid access token, where that
  -- user's row has the role of an administrator.
  pub guarded_route_cases :
      (auth : String) (next : Handler) (r : Request) (db : Db)
      → (((auth_middleware x c auth (admin_middleware next) r db).0 ≡ db)
          × (((auth_middleware x c auth (admin_middleware next) r db).1.status ≡ 401)
              ⊎ ((auth_middleware x c auth (admin_middleware next) r db).1.status ≡ 403)))
        ⊎ ((username : String) × IsAdmin auth r db username
            × (auth_middleware x c auth (admin_middleware next) r db
                ≡ next (with_username username r) db))
  unfolding auth_middleware admin_middleware respond_error respond_json
  guarded_route_cases auth next r db = elim (Option-cases (after_prefix "Bearer " auth)) [
    | inl e ↦ rw (auth_middleware, e) (inl (refl, inl refl))
    | inr (token, e) ↦ elim (Option-cases (verify_access_token x r.now token c.jwt_secret)) [
      | inl f ↦ rw (auth_middleware, e, f) (inl (refl, inl refl))
      | inr (username, f) ↦ elim (Option-cases (find_in username db.users)) [
        | inl g ↦ rw (auth_middleware, e, f, admin_middleware, g) (inl (refl, inr refl))
        | inr (user, g) ↦ elim (Bool-cases (str_eq user.role "admin")) [
          | inr h ↦ rw (auth_middleware, e, f, admin_middleware, g, h) (inl (refl, inr refl))
          | inl h ↦
              rw (auth_middleware, e, f, admin_middleware, g, h)
                (inr (
                  username,
                  record {
                    token = token;
                    user = user;
                    bearer = e;
                    verified = f;
                    stored = g;
                    role = (eq_iff user.role "admin").0 h;
                  },
                  refl,
                ))
        ]
      ]
    ]
  ]
