-- ===== src/History/Dashboard.antt =====
-- What the numbers of the dashboard add up to.
use syncent.Base.{
  ◌+◌, ◌≤◌, ◌-◌, ◌*◌, String, Bool, true, false, ◌&&◌, List, [], ◌∷◌, All, str_eq, ◌≡◌, inl, inr,
  refl, arith, Bool-cases, if◌then◌else◌,
}
use syncent.Config.{Config}
use syncent.Http.{Request}
use syncent.Database.{Db, Server, AuditEntry}
use syncent.TwoFactor.{get_user_id}
use syncent.Availability.{day}
use syncent.History.{count_where, has_status, is_offline, checked_before, dashboard_summary}

-- the statuses that the program gives servers
pub data KnownStatus : String → Type 0 where
  online : KnownStatus "online"
  unreachable : KnownStatus "unreachable"
  ssh_down : KnownStatus "ssh_down"
  pending_setup : KnownStatus "pending_setup"
  auth_failed : KnownStatus "auth_failed"

-- one server, of the user or not, counts in one of the parts
abbrev Adds : Bool → String → Type 0
Adds mine status =
    (if mine then 1 else 0)
    ≡ (if mine && str_eq status "online" then 1 else 0)
      + ((if mine && is_offline status then 1 else 0)
          + ((if mine && str_eq status "pending_setup" then 1 else 0)
              + (if mine && str_eq status "auth_failed" then 1 else 0)))

one-Adds : (mine : Bool) (status : String) → KnownStatus status → Adds mine status
one-Adds true _ online = refl
one-Adds true _ unreachable = refl
one-Adds true _ ssh_down = refl
one-Adds true _ pending_setup = refl
one-Adds true _ auth_failed = refl
one-Adds false status known = refl

module _ (user_id : String) where
  parts :
      (l : List Server)
      → All (λ (s : Server). KnownStatus s.status) l
      → count_where (λ s. str_eq s.user_id user_id) l
        ≡ count_where (has_status user_id "online") l
          + (count_where (λ s. str_eq s.user_id user_id && is_offline s.status) l
              + (count_where (has_status user_id "pending_setup") l
                  + count_where (has_status user_id "auth_failed") l))
  unfolding count_where
  parts [] h = omega arith
  parts (s ∷ rest) (known, h) =
      let ih = parts rest h in
      let one = one-Adds (str_eq s.user_id user_id) s.status known in omega (arith, ih, one)

count-implies :
    (p q : Server → Bool) (l : List Server)
    → ((s : Server) → p s ≡ true → q s ≡ true)
    → count_where p l ≤ count_where q l
unfolding count_where
count-implies p q [] h = omega arith
count-implies p q (s ∷ rest) h =
    let ih = count-implies p q rest h in
    elim (Bool-cases (p s)) [
      | inl e ↦ rw (e, h s e) (omega (arith, ih))
      | inr e ↦ rw (e) (ground (arith, ih))
    ]

-- Where every server has a status that the program gives, the user's servers are those that the
-- dashboard counts as online, offline or pending and those whose key was refused, which it does not
-- show; and the servers that are unreachable, as those that are stale, are among the offline ones.
pub summary_adds_up :
    (order : List AuditEntry → List AuditEntry) (c : Config) (r : Request) (db : Db)
    → All (λ (s : Server). KnownStatus s.status) db.servers
    → let d = dashboard_summary order c r db in
      let refused = count_where (has_status (get_user_id r.username db) "auth_failed") db.servers in
      (d.total ≡ d.online + (d.offline + (d.pending_setup + refused)))
      × (d.unreachable ≤ d.offline)
      × (d.stale ≤ d.offline)
unfolding dashboard_summary
summary_adds_up order c r db known =
    let user_id = get_user_id r.username db in
    let stale_t = r.now - c.stale_server_days * day in
    (
      parts user_id db.servers known,
      count-implies (has_status user_id "unreachable")
          (λ s. str_eq s.user_id user_id && is_offline s.status) db.servers
          (λ s h. ground (arith, h)),
      count-implies
          (λ s. str_eq s.user_id user_id && is_offline s.status && checked_before stale_t s)
          (λ s. str_eq s.user_id user_id && is_offline s.status) db.servers
          (λ s h. ground (arith, h)),
    )
