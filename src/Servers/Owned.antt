-- ===== src/Servers/Owned.antt =====
-- The rows of the table servers that belong to other users, and the keys of the rows.
use syncent.Base.{
  String, false, ◌&&◌, none, some, List, [], ◌∷◌, ◌++◌, map, str_eq, eq_iff, ◌≡◌, ◌≢◌, refl, sym,
  subst, ◌∙◌, ap, arith, Bool-cases, inl, inr, if◌then◌else◌,
}
use syncent.Database.{Server}
use syncent.Execute.{owned_server}
use syncent.Health.{server_by_id, update_servers}
use syncent.Servers.Manage.{update_owned, delete_owned}

-- the rows of the other users
unfoldable pub foreign : String → List Server → List Server
foreign user_id [] = []
foreign user_id (s ∷ rest) =
    let others = foreign user_id rest in if str_eq s.user_id user_id then others else s ∷ others

abbrev pub ids : List Server → List String
ids servers = map (λ s. s.id) servers

abbrev pub NotIn : String → List String → Type 0
NotIn id [] = Unit
NotIn id (k ∷ rest) = (k ≢ id) × NotIn id rest

-- the primary key
abbrev pub Distinct : List String → Type 0
Distinct [] = Unit
Distinct (k ∷ rest) = NotIn k rest × Distinct rest

-- A change of a row that leaves its key and its owner alone.
abbrev pub KeepsOwner : (Server → Server) → Type 0
KeepsOwner f = (s : Server) → ((f s).id ≡ s.id) × ((f s).user_id ≡ s.user_id)

module _ (id user_id : String) (f : Server → Server) (keeps : KeepsOwner f) where
  pub foreign-update_owned :
      (l : List Server) → foreign user_id (update_owned id user_id f l) ≡ foreign user_id l
  unfolding foreign update_owned
  foreign-update_owned [] = refl
  foreign-update_owned (s ∷ rest) =
      let ih = foreign-update_owned rest in
      elim (Bool-cases (str_eq s.id id)) [
        | inr other ↦ rw (other) (ground (arith, ih))
        | inl same ↦ elim (Bool-cases (str_eq s.user_id user_id)) [
          | inl mine ↦ rw (same, mine, (keeps s).1, mine) ih
          | inr theirs ↦ rw (same, theirs, theirs) (ap (◌∷◌ s) ih)
        ]
      ]

  pub ids-update_owned : (l : List Server) → ids (update_owned id user_id f l) ≡ ids l
  unfolding update_owned
  ids-update_owned [] = refl
  ids-update_owned (s ∷ rest) =
      let ih = ids-update_owned rest in
      elim (Bool-cases (str_eq s.id id && str_eq s.user_id user_id)) [
        | inl hit ↦ rw (hit, (keeps s).0, ih) refl
        | inr miss ↦ rw (miss, ih) refl
      ]

  pub ids-update_servers : (l : List Server) → ids (update_servers id f l) ≡ ids l
  unfolding update_servers
  ids-update_servers [] = refl
  ids-update_servers (s ∷ rest) =
      let ih = ids-update_servers rest in
      elim (Bool-cases (str_eq s.id id)) [
        | inl hit ↦ rw (hit, (keeps s).0, ih) refl
        | inr miss ↦ rw (miss, ih) refl
      ]

  update_servers-NotIn : (l : List Server) → NotIn id (ids l) → update_servers id f l ≡ l
  unfolding update_servers
  update_servers-NotIn [] fresh = refl
  update_servers-NotIn (s ∷ rest) (differs, fresh) =
      let miss : str_eq s.id id ≡ false = ground (arith, eq_iff s.id id, differs) in
      rw (miss) (ap (◌∷◌ s) (update_servers-NotIn rest fresh))

  -- A row that is found has its key among the keys.
  owned_server-NotIn :
      (l : List Server) {s : Server} → NotIn id (ids l) → owned_server id user_id l ≡ some s → ⊥
  unfolding owned_server
  owned_server-NotIn [] fresh h = absurd (cc h)
  owned_server-NotIn (t ∷ rest) (differs, fresh) h =
      let miss : str_eq t.id id ≡ false = ground (arith, eq_iff t.id id, differs) in
      owned_server-NotIn rest fresh (rw (miss) at h)

  -- An UPDATE by the key alone, after the owner was checked.
  pub foreign-update_servers :
      (l : List Server) {s : Server}
      → Distinct (ids l)
      → owned_server id user_id l ≡ some s
      → foreign user_id (update_servers id f l) ≡ foreign user_id l
  unfolding foreign owned_server update_servers
  foreign-update_servers [] distinct h = refl
  foreign-update_servers (t ∷ rest) {s} (fresh, distinct) h = elim (Bool-cases (str_eq t.id id)) [
    | inr other ↦
        rw (other)
          (let ih = foreign-update_servers rest distinct (rw (other) at h) in ground (arith, ih))
    | inl same ↦
        let at_head : t.id ≡ id = (eq_iff t.id id).0 same in
        let rest_fresh : NotIn id (ids rest) = subst (λ k. NotIn k (ids rest)) at_head fresh in
        elim (Bool-cases (str_eq t.user_id user_id)) [
          | inl mine ↦ rw (same, (keeps t).1, mine, update_servers-NotIn rest rest_fresh) refl
          | inr theirs ↦ absurd (owned_server-NotIn rest rest_fresh (rw (same, theirs) at h))
        ]
  ]

pub foreign-delete_owned :
    (id user_id : String) (l : List Server)
    → foreign user_id (delete_owned id user_id l) ≡ foreign user_id l
unfolding foreign delete_owned
foreign-delete_owned id user_id [] = refl
foreign-delete_owned id user_id (s ∷ rest) =
    let ih = foreign-delete_owned id user_id rest in ground (arith, ih)

NotIn-delete_owned :
    (k id user_id : String) (l : List Server)
    → NotIn k (ids l)
    → NotIn k (ids (delete_owned id user_id l))
unfolding delete_owned
NotIn-delete_owned k id user_id [] h = tt
NotIn-delete_owned k id user_id (s ∷ rest) (differs, fresh) =
    let ih = NotIn-delete_owned k id user_id rest fresh in
    elim (Bool-cases (str_eq s.id id && str_eq s.user_id user_id)) [
      | inl hit ↦ rw (hit) ih
      | inr miss ↦ rw (miss) (differs, ih)
    ]

pub Distinct-delete_owned :
    (id user_id : String) (l : List Server)
    → Distinct (ids l)
    → Distinct (ids (delete_owned id user_id l))
unfolding delete_owned
Distinct-delete_owned id user_id [] h = tt
Distinct-delete_owned id user_id (s ∷ rest) (fresh, distinct) =
    let ih = Distinct-delete_owned id user_id rest distinct in
    elim (Bool-cases (str_eq s.id id && str_eq s.user_id user_id)) [
      | inl hit ↦ rw (hit) ih
      | inr miss ↦ rw (miss) (NotIn-delete_owned s.id id user_id rest fresh, ih)
    ]

pub foreign-append :
    (user_id : String) (l : List Server) (s : Server)
    → s.user_id ≡ user_id
    → foreign user_id (l ++ s ∷ []) ≡ foreign user_id l
unfolding foreign
foreign-append user_id [] s mine = rw ((eq_iff s.user_id user_id).1 mine) refl
foreign-append user_id (t ∷ rest) s mine =
    let ih = foreign-append user_id rest s mine in ground (arith, ih)

NotIn-append :
    (k : String) (l : List Server) (s : Server)
    → NotIn k (ids l)
    → s.id ≢ k
    → NotIn k (ids (l ++ s ∷ []))
NotIn-append k [] s fresh differs = (differs, tt)
NotIn-append k (t ∷ rest) s (other, fresh) differs = (other, NotIn-append k rest s fresh differs)

-- A row whose key is not taken.
pub Distinct-append :
    (l : List Server) (s : Server)
    → server_by_id s.id l ≡ none
    → Distinct (ids l)
    → Distinct (ids (l ++ s ∷ []))
unfolding server_by_id
Distinct-append [] s free distinct = (tt, tt)
Distinct-append (t ∷ rest) s free (fresh, distinct) = elim (Bool-cases (str_eq t.id s.id)) [
  | inl same ↦ absurd (cc (rw (same) at free))
  | inr other ↦ (
    NotIn-append t.id rest s fresh (λ e. cc (sym other ∙ (eq_iff t.id s.id).1 (sym e))),
    Distinct-append rest s (rw (other) at free) distinct,
  )
]
