-- ===== src/Database/Users.antt =====
-- Reads and writes of the users table by its unique username.
use mathlib.Core.Option
use syncent.Base.{
  String, Option, none, some, List, [], ◌∷◌, str_eq, if◌then◌else◌, ◌≡◌, ◌≢◌, refl, arith, eq_iff,
  Bool-cases, inl, inr,
}
use syncent.Database.{User}

-- SELECT ... FROM users WHERE username=$1
unfoldable pub find_in : String → List User → Option User
find_in name [] = none
find_in name (u ∷ us) = if str_eq u.username name then some u else find_in name us

-- UPDATE users SET ... WHERE username=$1
unfoldable pub update_in : String → (User → User) → List User → List User
update_in name f [] = []
update_in name f (u ∷ us) = (if str_eq u.username name then f u else u) ∷ update_in name f us

-- A change of a row that leaves its unique name alone.
abbrev pub KeepsName : (User → User) → Type 0
KeepsName f = (u : User) → (f u).username ≡ u.username

-- A row that is found has the name that was looked for.
pub find_in-username :
    (name : String) (us : List User) {u : User} → find_in name us ≡ some u → u.username ≡ name
unfolding find_in
find_in-username name [] e = cc
find_in-username name (v ∷ us) {u} e =
    ground (arith, eq_iff v.username name, find_in-username name us {u = u})

pub find_in-update_in :
    (name : String) (f : User → User) (us : List User)
    → KeepsName f
    → find_in name (update_in name f us) ≡ Option.map f (find_in name us)
unfolding find_in update_in
find_in-update_in name f [] keeps = refl
find_in-update_in name f (u ∷ us) keeps = elim (Bool-cases (str_eq u.username name)) [
  | inl same ↦ rw (same, keeps u, same)
  | inr other ↦ rw (other, other) (find_in-update_in name f us keeps)
]

pub find_in-update_in_other :
    (name other : String) (f : User → User) (us : List User)
    → KeepsName f
    → name ≢ other
    → find_in other (update_in name f us) ≡ find_in other us
unfolding find_in update_in
find_in-update_in_other name other f [] keeps differs = refl
find_in-update_in_other name other f (u ∷ us) keeps differs =
    elim (Bool-cases (str_eq u.username name)) [
      | inl same ↦ ground (
        arith,
        keeps u,
        same,
        eq_iff u.username name,
        eq_iff u.username other,
        find_in-update_in_other name other f us keeps,
      )
      | inr miss ↦ rw (miss) (ground (arith, find_in-update_in_other name other f us keeps))
    ]
