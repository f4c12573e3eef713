-- ===== src/Health/Laws.antt =====
-- A server that is pinged again and again, each check on the row as it is then.
use mathlib.Core.Option
use syncent.Base.{
  ℕ, zero, suc, ◌+◌, ◌≤◌, String, Bool, true, false, not, ◌&&◌, none, some, List, [], ◌∷◌, str_eq,
  eq_iff, leb, le→leb, ◌≡◌, ◌≢◌, ◌⊎◌, inl, inr, refl, sym, ap, ◌∙◌, subst, arith, Bool-cases,
  if◌then◌else◌,
}
use syncent.Config.{Config}
use syncent.Database.{Db, Server}
use syncent.Health.{
  update_servers, server_by_id, set_failure_count, set_status, set_ping, record_status_change,
  handle_failure, ping_check,
}

abbrev KeepsId : (Server → Server) → Type 0
KeepsId f = (s : Server) → (f s).id ≡ s.id

server_by_id-id :
    (id : String) (l : List Server) {s : Server} → server_by_id id l ≡ some s → s.id ≡ id
unfolding server_by_id
server_by_id-id id [] h = absurd (cc h)
server_by_id-id id (t ∷ rest) {s} h =
    ground (arith, eq_iff t.id id, server_by_id-id id rest {s = s})

server_by_id-update_servers :
    (id : String) (f : Server → Server)
    → KeepsId f
    → (l : List Server) {s : Server} → server_by_id id l ≡ some s
    → server_by_id id (update_servers id f l) ≡ some (f s)
unfolding server_by_id update_servers
server_by_id-update_servers id f keeps [] h = absurd (cc h)
server_by_id-update_servers id f keeps (t ∷ rest) {s} h =
    let ih = server_by_id-update_servers id f keeps rest {s = s} in
    elim (Bool-cases (str_eq t.id id)) [
      | inl e ↦
          let q : str_eq (f t).id id ≡ true = rw (keeps t) e in
          rw (e, q) (ap (Option.map f) (rw e at h))
      | inr e ↦ rw (e, e) (ih (rw e at h))
    ]

-- the row after a ping
abbrev failed_row : Config → ℕ → ℕ → Server → Server
failed_row c now latency s =
    let counted = set_failure_count (s.consecutive_failures + 1) now (set_ping latency now s) in
    if leb c.health_check_failures (s.consecutive_failures + 1)
      && not (str_eq s.status "unreachable")
    then set_status "unreachable" counted
    else counted

abbrev pinged_row : Config → ℕ → Server → Bool × ℕ → Server
pinged_row c now s (reachable, latency) =
    if reachable then set_ping latency now s else failed_row c now latency s

own_ping_check :
    (c : Config) (now : ℕ) (reachable : Bool) (latency : ℕ) (db : Db) {s : Server}
    → server_by_id s.id db.servers ≡ some s
    → str_eq s.connection_mode "gsocket" ≡ false
    → server_by_id s.id (ping_check c now s (reachable, latency) db).servers
      ≡ some (pinged_row c now s (reachable, latency))
unfolding ping_check handle_failure record_status_change
own_ping_check c now true latency db {s} h mode =
    rw mode (server_by_id-update_servers s.id (set_ping latency now) (λ t. refl) db.servers h)
own_ping_check c now false latency db {s} h mode =
    let pinged = server_by_id-update_servers s.id (set_ping latency now) (λ t. refl) db.servers h in
    let counted =
      server_by_id-update_servers s.id (set_failure_count (s.consecutive_failures + 1) now)
        (λ t. refl) (update_servers s.id (set_ping latency now) db.servers) pinged in
    elim (Bool-cases (
      leb c.health_check_failures (s.consecutive_failures + 1)
      && not (str_eq s.status "unreachable"))) [
        | inl e ↦
            rw (mode, e)
              (server_by_id-update_servers s.id (set_status "unreachable") (λ t. refl)
                (update_servers s.id (set_failure_count (s.consecutive_failures + 1) now)
                  (update_servers s.id (set_ping latency now) db.servers))
                counted)
        | inr e ↦ rw (mode, e) counted
      ]

server_by_id-ping_check :
    (c : Config) (now : ℕ) (reachable : Bool) (latency : ℕ) (db : Db) (id : String) {s : Server}
    → server_by_id id db.servers ≡ some s
    → s.connection_mode ≢ "gsocket"
    → server_by_id id (ping_check c now s (reachable, latency) db).servers
      ≡ some (pinged_row c now s (reachable, latency))
server_by_id-ping_check c now reachable latency db id {s} h direct =
    let mode : str_eq s.connection_mode "gsocket" ≡ false =
      ground (arith, eq_iff s.connection_mode "gsocket", direct) in
    let same : s.id ≡ id = server_by_id-id id db.servers h in
    let own =
      own_ping_check c now reachable latency db
        (subst (λ (k : String). server_by_id k db.servers ≡ some s) (sym same) h) mode in
    subst
      (λ (k : String).
        server_by_id k (ping_check c now s (reachable, latency) db).servers
        ≡ some (pinged_row c now s (reachable, latency)))
      same own

-- The server is read, checked and written, again and again.
unfoldable pub pings : Config → String → List (ℕ × Bool × ℕ) → Db → Db
pings c id [] db = db
pings c id ((now, reachable, latency) ∷ later) db = elim (server_by_id id db.servers) [
  | none ↦ pings c id later db
  | some s ↦ pings c id later (ping_check c now s (reachable, latency) db)
]

unfoldable pub failed_pings : List (ℕ × Bool × ℕ) → ℕ
failed_pings [] = 0
failed_pings ((now, reachable, latency) ∷ later) = (if reachable then 0 else 1) + failed_pings later

-- The row of a server after pings of which `n` failed.
pub record AfterPings (c : Config) (s : Server) (n : ℕ) (t : Server) : Type 0 where
  pub counted : t.consecutive_failures ≡ s.consecutive_failures + n
  pub mode : t.connection_mode ≡ s.connection_mode
  pub kept_or_down : (t.status ≡ s.status) ⊎ (t.status ≡ "unreachable")
  pub down : 1 ≤ n → c.health_check_failures ≤ s.consecutive_failures + n → t.status ≡ "unreachable"

after_one :
    (c : Config) (now : ℕ) (reachable : Bool) (latency : ℕ) (s : Server)
    → AfterPings c s (if reachable then 0 else 1) (pinged_row c now s (reachable, latency))
after_one c now true latency s = record {
  counted = omega arith;
  mode = refl;
  kept_or_down = inl refl;
  down = λ h. absurd (omega (arith, h));
}
after_one c now false latency s =
    elim (Bool-cases (leb c.health_check_failures (s.consecutive_failures + 1))) [
      | inr e ↦ rw e record {
        counted = refl;
        mode = refl;
        kept_or_down = inl refl;
        down = λ _ h. absurd (cc (sym e ∙ le→leb _ _ h));
      }
      | inl e ↦ elim (Bool-cases (str_eq s.status "unreachable")) [
        | inl f ↦
            rw (e, f)
              record {
                counted = refl;
                mode = refl;
                kept_or_down = inl refl;
                down = λ _ _. (eq_iff s.status "unreachable").0 f;
              }
        | inr f ↦
            rw (e, f)
              record { counted = refl; mode = refl; kept_or_down = inr refl; down = λ _ _. refl }
      ]
    ]

ℕ-cases : (n : ℕ) → (n ≡ 0) ⊎ (1 ≤ n)
ℕ-cases zero = inl refl
ℕ-cases (suc n) = inr (omega arith)

after_join :
    (c : Config) (m n : ℕ) (s t u : Server)
    → AfterPings c s m t
    → AfterPings c t n u
    → AfterPings c s (m + n) u
after_join c m n s t u a b =
    let e = a.counted in
    let f = b.counted in
    record {
      counted = omega arith;
      mode = b.mode ∙ a.mode;
      kept_or_down = elim b.kept_or_down [
        | inr d ↦ inr d
        | inl k ↦ elim a.kept_or_down [ inl l ↦ inl (k ∙ l) | inr d ↦ inr (k ∙ d) ]
      ];
      down = λ some_failed reached. elim (ℕ-cases n) [
        | inr later ↦ b.down later (omega arith)
        | inl none_later ↦
            let d = a.down (omega arith) (omega arith) in
            elim b.kept_or_down [ inl k ↦ k ∙ d | inr q ↦ q ]
      ];
    }

-- However many pings succeed between them, each failed ping adds one to the server's count of
-- consecutive failures and no ping takes from it; and once the count has reached the threshold by a
-- failed ping, the server is unreachable. The server is one that is not reached by a gsocket.
pub pings_count_failures :
    (c : Config) (id : String) (events : List (ℕ × Bool × ℕ)) (db : Db) {s : Server}
    → server_by_id id db.servers ≡ some s
    → s.connection_mode ≢ "gsocket"
    → (t : Server) × (server_by_id id (pings c id events db).servers ≡ some t)
      × AfterPings c s (failed_pings events) t
unfolding pings failed_pings
pings_count_failures c id [] db {s} h direct = (
  s,
  h,
  record {
    counted = omega arith;
    mode = refl;
    kept_or_down = inl refl;
    down = λ h. absurd (omega (arith, h));
  },
)
pings_count_failures c id ((now, reachable, latency) ∷ later) db {s} h direct =
    let row = pinged_row c now s (reachable, latency) in
    let one = after_one c now reachable latency s in
    let (t, found, rest) =
      pings_count_failures c id later (ping_check c now s (reachable, latency) db) {s = row}
        (server_by_id-ping_check c now reachable latency db id h direct)
        (λ e. direct (sym one.mode ∙ e)) in
    rw (pings, h)
      (t, found, after_join c (if reachable then 0 else 1) (failed_pings later) s row t one rest)
