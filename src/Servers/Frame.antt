-- ===== src/Servers/Frame.antt =====
-- What a request of internal/handlers/servers.go leaves alone.
use syncent.Base.{
  ℕ, String, Bool, true, false, ◌&&◌, Option, none, some, List, [], ◌∷◌, ◌++◌, str_eq, ◌≡◌, refl,
  sym, subst, ◌∙◌, ap, Bool-cases, Option-cases, inl, inr, if◌then◌else◌,
}
use syncent.External.{External}
use syncent.Database.{Db, Server, varchar}
use syncent.Audit.{log_action}
use syncent.Audit.Frame.{log_action_frame}
use syncent.Execute.{owned_server}
use syncent.Health.{server_by_id, update_server, update_servers}
use syncent.Gsocket.{HostInfo}
use syncent.Servers.{fits_columns, insert_server}
use syncent.Servers.Manage.{
  Binding, set_name, set_location, set_notes, set_interval, assignment, assign, assign_all,
  update_owned,
}
use syncent.Servers.Connect.{set_host, set_gsocket_host}
use syncent.Servers.Owned.{
  foreign, ids, Distinct, KeepsOwner, foreign-update_owned, ids-update_owned, ids-update_servers,
  foreign-update_servers, foreign-append, Distinct-append,
}

-- The rows of the other users are as they were, in the same order; the keys of the servers stay
-- distinct; of the other tables only the audit log may have changed.
pub record Confined (user_id : String) (d e : Db) : Type 0 where
  pub others : foreign user_id e.servers ≡ foreign user_id d.servers
  pub distinct : Distinct (ids e.servers)
  pub users : e.users ≡ d.users
  pub status_history : e.status_history ≡ d.status_history
  pub app_config : e.app_config ≡ d.app_config

module _ (user_id : String) (d : Db) (distinct : Distinct (ids d.servers)) where
  pub same-Confined : Confined user_id d d
  same-Confined = record {
    others = refl;
    distinct = distinct;
    users = refl;
    status_history = refl;
    app_config = refl;
  }

  pub servers-Confined :
      (l : List Server)
      → foreign user_id l ≡ foreign user_id d.servers
      → Distinct (ids l)
      → Confined user_id d (record d { servers = l })
  servers-Confined l same distinct' = record {
    others = same;
    distinct = distinct';
    users = refl;
    status_history = refl;
    app_config = refl;
  }

  pub logged-Confined :
      (x : External) (now : ℕ) (action detail : String) (server_id user : Option String)
      (source_ip : String) (e : Db)
      → Confined user_id d e
      → Confined user_id d (log_action x now action detail server_id user source_ip e)
  logged-Confined x now action detail server_id user source_ip e h =
      let frame = log_action_frame x now action detail server_id user source_ip e in
      record {
        others = ap (foreign user_id) (frame.1) ∙ h.others;
        distinct = subst (λ l. Distinct (ids l)) (sym (frame.1)) h.distinct;
        users = frame.0 ∙ h.users;
        status_history = frame.2 ∙ h.status_history;
        app_config = frame.4 ∙ h.app_config;
      }

  -- an UPDATE by the key alone, of a server that the user owns
  pub update_server-Confined :
      (id : String) (f : Server → Server) {s : Server}
      → KeepsOwner f
      → owned_server id user_id d.servers ≡ some s
      → Confined user_id d (update_server id f d)
  update_server-Confined id f keeps owned =
      servers-Confined (update_servers id f d.servers)
        (foreign-update_servers id user_id f keeps d.servers distinct owned)
        (subst Distinct (sym (ids-update_servers id user_id f keeps d.servers)) distinct)

  pub set_host-Confined :
      (id status os kernel : String) (f : Server → Server) {s : Server}
      → KeepsOwner f
      → owned_server id user_id d.servers ≡ some s
      → Confined user_id d (set_host id status os kernel f d)
  unfolding set_host
  set_host-Confined id status os kernel f keeps owned =
      elim (Bool-cases (varchar 200 os && varchar 200 kernel)) [
        | inr long ↦ rw (set_host, long) same-Confined
        | inl fits ↦
            rw (set_host, fits)
              (update_server-Confined id
                (λ s.
                  f (record s { status = status; os_info = some os; kernel_info = some kernel }))
                (λ s.
                  keeps
                    (record s { status = status; os_info = some os; kernel_info = some kernel }))
                owned)
      ]

  pub set_gsocket_host-Confined :
      (id : String) (h : HostInfo) (f : Server → Server) {s : Server}
      → KeepsOwner f
      → owned_server id user_id d.servers ≡ some s
      → Confined user_id d (set_gsocket_host id h f d)
  unfolding set_gsocket_host
  set_gsocket_host-Confined id h f keeps owned = elim (Bool-cases (varchar 50 h.username)) [
    | inr long ↦ rw (set_gsocket_host, long) same-Confined
    | inl fits ↦
        rw (set_gsocket_host, fits)
          (set_host-Confined id "online" h.os_info h.kernel
            (λ s. f (record s { ssh_username = h.username }))
            (λ s. keeps (record s { ssh_username = h.username })) owned)
  ]

  pub insert_server-Confined :
      (s : Server) {e : Db}
      → s.user_id ≡ user_id
      → insert_server s d ≡ some e
      → Confined user_id d e
  unfolding insert_server
  insert_server-Confined s {e} mine h = elim (Bool-cases (fits_columns s)) [
    | inr long ↦ absurd (cc (rw (insert_server, long) at h))
    | inl fits ↦ elim (Option-cases (server_by_id s.id d.servers)) [
      | inr (other, taken) ↦ absurd (cc (rw (insert_server, fits, taken) at h))
      | inl free ↦
          let stored : record d { servers = d.servers ++ s ∷ [] } ≡ e =
            cc (rw (insert_server, fits, free) at h) in
          subst (Confined user_id d) stored (
            servers-Confined (d.servers ++ s ∷ []) (foreign-append user_id d.servers s mine)
              (Distinct-append d.servers s free distinct))
    ]
  ]

pub Confined-trans :
    {user_id : String} {d e f : Db}
    → Confined user_id d e
    → Confined user_id e f
    → Confined user_id d f
Confined-trans a b = record {
  others = b.others ∙ a.others;
  distinct = b.distinct;
  users = b.users ∙ a.users;
  status_history = b.status_history ∙ a.status_history;
  app_config = b.app_config ∙ a.app_config;
}

abbrev AllKeep : Option (Server → Server) → Type 0
AllKeep none = Unit
AllKeep (some f) = KeepsOwner f

AllKeep-if :
    (b : Bool) (f g : Option (Server → Server))
    → AllKeep f
    → AllKeep g
    → AllKeep (if b then f else g)
AllKeep-if true f g kf kg = kf
AllKeep-if false f g kf kg = kg

set_name-AllKeep : (o : Option (Option String)) → AllKeep (set_name o)
set_name-AllKeep none = tt
set_name-AllKeep (some none) = tt
set_name-AllKeep (some (some t)) = AllKeep-if (varchar 100 t) _ _ (λ s. (refl, refl)) tt

set_location-AllKeep : (o : Option (Option String)) → AllKeep (set_location o)
set_location-AllKeep none = tt
set_location-AllKeep (some none) = λ s. (refl, refl)
set_location-AllKeep (some (some t)) = AllKeep-if (varchar 100 t) _ _ (λ s. (refl, refl)) tt

set_notes-AllKeep : (o : Option (Option String)) → AllKeep (set_notes o)
set_notes-AllKeep none = tt
set_notes-AllKeep (some notes) = λ s. (refl, refl)

set_interval-AllKeep : (o : Option (Option ℕ)) → AllKeep (set_interval o)
set_interval-AllKeep none = tt
set_interval-AllKeep (some n) = λ s. (refl, refl)

module _ {Json : Type 0} (bind : Binding Json) where
  assignment-AllKeep : (key : String) (value : Json) → AllKeep (assignment bind key value)
  unfolding assignment
  assignment-AllKeep key value =
      AllKeep-if (str_eq key "name") _ _ (set_name-AllKeep (bind.bind_text value)) (
        AllKeep-if (str_eq key "location") _ _ (set_location-AllKeep (bind.bind_text value)) (
          AllKeep-if (str_eq key "notes") _ _ (set_notes-AllKeep (bind.bind_text value)) (
            AllKeep-if (str_eq key "health_check_interval") _ _
              (set_interval-AllKeep (bind.bind_integer value))
              (AllKeep-if (str_eq key "tags") _ _ (λ s. (refl, refl))
                (AllKeep-if (str_eq key "expected_services") _ _ (λ s. (refl, refl))
                  (AllKeep-if (str_eq key "log_paths") _ _ (λ s. (refl, refl)) tt))))))

  -- the loop over the body
  pub assign_all-kept :
      (now : ℕ) (id user_id : String) (body : List (String × Json)) (l : List Server)
      → (foreign user_id (assign_all bind now id user_id body l) ≡ foreign user_id l)
        × (ids (assign_all bind now id user_id body l) ≡ ids l)
  unfolding assign_all assign
  assign_all-kept now id user_id [] l = (refl, refl)
  assign_all-kept now id user_id ((key, value) ∷ rest) l =
      elim (Option-cases (assignment bind key value)) [
        | inl nothing ↦ rw (assign_all, assign, nothing) (assign_all-kept now id user_id rest l)
        | inr (f, set) ↦
            let keeps : KeepsOwner f = subst AllKeep set (assignment-AllKeep key value) in
            let g : Server → Server = λ s. record (f s) { updated_at = now } in
            let ih = assign_all-kept now id user_id rest (update_owned id user_id g l) in
            rw (assign_all, assign, set)
              (
                ih.0 ∙ foreign-update_owned id user_id g keeps l,
                ih.1 ∙ ids-update_owned id user_id g keeps l,
              )
      ]
