-- ===== src/Terminal/Owners.antt =====
-- Who may open the websockets of Terminal/Sockets.
use syncent.Base.{
  ℕ, String, Bool, true, false, ◌&&◌, some, List, [], ◌∷◌, any, str_eq, eq_iff, ◌≡◌, ◌≢◌, refl, sym,
  ◌∙◌, arith, Bool-cases, Option-cases, inl, inr, if◌then◌else◌,
}
use syncent.External.{External}
use syncent.Config.{Config}
use syncent.Database.{Db, Server, User}
use syncent.Tokens.{verify_access_token}
use syncent.Terminal.{Counters, Gate, not_found, upgraded, limits, owns, gate}
use syncent.Terminal.Sockets.{
  Socket, ssh_terminal, gs_terminal, log_stream, gs_log_stream, limits_of, socket_gate,
  server_where, is_set_up, is_gsocket, gs_secret, for_user, gs_terminal_gate, gs_logs_gate,
  logs_gate,
}

module _ (x : External) (c : Config) where
  -- The token is an access token of a user who owns the server.
  pub record Owner (now : ℕ) (id token : String) (db : Db) : Type 0 where
    pub username : String
    pub verified : verify_access_token x now token c.jwt_secret ≡ some username
    pub named : username ≢ ""
    pub owned : owns x c id username db ≡ true

  for_user-upgraded :
      {Next : Type 0} (now : ℕ) (id token : String) (db : Db) (next : String → Gate)
      → for_user x c now token next ≡ upgraded
      → ((username : String) → next username ≡ upgraded → (owns x c id username db ≡ true) × Next)
      → Owner now id token db × Next
  unfolding for_user
  for_user-upgraded now id token db next h owner =
      elim (Option-cases (verify_access_token x now token c.jwt_secret)) [
        | inl e ↦ absurd (cc (rw (for_user, e) at h))
        | inr (username, e) ↦ elim (Bool-cases (str_eq username "")) [
          | inl empty ↦ absurd (cc (rw (for_user, e, empty) at h))
          | inr named ↦
              let (owned, more) = owner username (rw (for_user, e, named) at h) in
              (
                record {
                  username = username;
                  verified = e;
                  named = λ k. absurd (cc (sym named ∙ (eq_iff username "").1 k));
                  owned = owned;
                },
                more,
              )
        ]
      ]

  some_row-owns :
      (p : Server → Bool) (id username : String) (users : List User) (l : List Server) {s : Server}
      → server_where p id username users l ≡ some s
      → any
          (λ s.
            str_eq s.id id && any (λ u. str_eq u.id s.user_id && str_eq u.username username) users)
          l
        ≡ true
  unfolding server_where
  some_row-owns p id username users [] h = absurd (cc h)
  some_row-owns p id username users (t ∷ rest) {s} h =
      let ih = some_row-owns p id username users rest {s = s} in ground (arith, h, ih)

  gs_secret-owns :
      (id username : String) (db : Db)
      → str_eq (gs_secret id username db) "" ≡ false
      → owns x c id username db ≡ true
  unfolding gs_secret owns
  gs_secret-owns id username db h =
      elim (Option-cases (server_where is_gsocket id username db.users db.servers)) [
        | inl e ↦ absurd (cc (rw (gs_secret, e) at h))
        | inr (s, e) ↦ some_row-owns is_gsocket id username db.users db.servers e
      ]

  gate-Owner :
      (now : ℕ) (id token : String) (db : Db) (s : Counters)
      → gate x c now id token db s ≡ upgraded
      → Owner now id token db × (limits id s ≡ upgraded)
  unfolding gate for_user
  gate-Owner now id token db s h =
      for_user-upgraded now id token db
        (λ username. if owns x c id username db then limits id s else not_found) h
        (λ username e. elim (Bool-cases (owns x c id username db)) [
          | inl o ↦ (o, rw (o) at e)
          | inr o ↦ absurd (cc (rw (o) at e))
        ])

  gs_terminal_gate-Owner :
      (now : ℕ) (id token : String) (db : Db) (s : Counters)
      → gs_terminal_gate x c now id token db s ≡ upgraded
      → Owner now id token db × (limits id s ≡ upgraded)
  unfolding gs_terminal_gate
  gs_terminal_gate-Owner now id token db s h =
      for_user-upgraded now id token db
        (λ username. if str_eq (gs_secret id username db) "" then not_found else limits id s) h
        (λ username e. elim (Bool-cases (str_eq (gs_secret id username db) "")) [
          | inl none_there ↦ absurd (cc (rw (none_there) at e))
          | inr secret ↦ (gs_secret-owns id username db secret, rw (secret) at e)
        ])

  logs_gate-Owner :
      (now : ℕ) (id token : String) (db : Db)
      → logs_gate x c now id token db ≡ upgraded
      → Owner now id token db
  unfolding logs_gate owns
  logs_gate-Owner now id token db h =
      (for_user-upgraded {Next = Unit} now id token db _ h (λ username e.
        elim (Option-cases (server_where is_set_up id username db.users db.servers)) [
          | inl none_there ↦ absurd (cc (rw (none_there) at e))
          | inr (s, found) ↦ (some_row-owns is_set_up id username db.users db.servers found, tt)
        ])).0

  gs_logs_gate-Owner :
      (now : ℕ) (id token : String) (db : Db)
      → gs_logs_gate x c now id token db ≡ upgraded
      → Owner now id token db
  unfolding gs_logs_gate
  gs_logs_gate-Owner now id token db h =
      (for_user-upgraded {Next = Unit} now id token db _ h (λ username e.
        elim (Bool-cases (str_eq (gs_secret id username db) "")) [
          | inl none_there ↦ absurd (cc (rw (none_there) at e))
          | inr secret ↦ (gs_secret-owns id username db secret, tt)
        ])).0

  -- A websocket of any of the four kinds is upgraded only where its token is a valid access token of a
  -- user who owns the server; and a terminal, by SSH or by gsocket, only within the limits of open
  -- terminals.
  pub sockets_need-Owner :
      (k : Socket) (now : ℕ) (id token : String) (db : Db) (s : Counters)
      → socket_gate x c k now id token db s ≡ upgraded
      → Owner now id token db × (limits_of k id s ≡ upgraded)
  unfolding socket_gate limits_of
  sockets_need-Owner ssh_terminal now id token db s h = gate-Owner now id token db s h
  sockets_need-Owner gs_terminal now id token db s h = gs_terminal_gate-Owner now id token db s h
  sockets_need-Owner log_stream now id token db s h = (logs_gate-Owner now id token db h, refl)
  sockets_need-Owner gs_log_stream now id token db s h =
      (gs_logs_gate-Owner now id token db h, refl)
