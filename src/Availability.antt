-- ===== src/Availability.antt =====
-- GetAvailability and calcAvailability of internal/handlers/api.go. A share is in hundredths of a
-- percent, the integer that the program divides by 100. The floating-point numbers of the program and
-- the order in which the database gives rows of one time are parameters.
pub mod Sorted
pub mod Measure
mod Tests
use syncent.Base.{
  ℕ, ◌+◌, ◌-◌, ◌*◌, String, Bool, true, false, not, ◌&&◌, Option, none, some, List, [], ◌∷◌, ltb,
  leb, last?, str_eq, if◌then◌else◌,
}
use syncent.External.{minute}
use syncent.Http.{Request}
use syncent.Database.{Db, Server, StatusChange}
use syncent.Execute.{verify_server_access}
use syncent.Health.{server_by_id}

-- the operations of float64 that are used
pub record Float64 (F : Type 0) : Type 0 where
  pub zero : F
  -- `Seconds` of a duration in nanoseconds
  pub seconds : ℕ → F
  pub add : F → F → F
  pub divide : F → F → F
  pub times_10000 : F → F
  pub is_positive : F → Bool
  -- the conversion to int
  pub to_int : F → ℕ

-- WHERE server_id=$1 AND changed_at >= $2
unfoldable pub changes_since : String → ℕ → List StatusChange → List StatusChange
changes_since id since [] = []
changes_since id since (c ∷ rest) =
    let others = changes_since id since rest in
    if str_eq c.server_id id && leb since c.changed_at then c ∷ others else others

-- WHERE server_id=$1 AND changed_at < $2
unfoldable pub changes_before : String → ℕ → List StatusChange → List StatusChange
changes_before id since [] = []
changes_before id since (c ∷ rest) =
    let others = changes_before id since rest in
    if str_eq c.server_id id && ltb c.changed_at since then c ∷ others else others

-- `transitions`; `by_time` is ORDER BY changed_at ASC
abbrev pub transitions :
    (List StatusChange → List StatusChange) → String → ℕ → List StatusChange → List StatusChange
transitions by_time id since history = by_time (changes_since id since history)

-- ORDER BY changed_at DESC LIMIT 1, the last row in the other order; no row leaves "unknown"
unfoldable pub previous_status :
    (List StatusChange → List StatusChange) → String → ℕ → List StatusChange → String
previous_status by_time id since history =
    elim (last? (by_time (changes_before id since history))) [
      | none ↦ "unknown"
      | some c ↦ c.status
    ]

module _ {F : Type 0} (fl : Float64 F) where
  abbrev pub add_online : String → ℕ → F → F
  add_online status duration online =
      if str_eq status "online" then fl.add online (fl.seconds duration) else online

  -- the loop over the transitions, and the time from the last of them on
  unfoldable pub online_time : F → String → ℕ → List StatusChange → ℕ → F
  online_time online status since [] now = add_online status (now - since) online
  online_time online status since (c ∷ rest) now =
      online_time (add_online status (c.changed_at - since) online) c.status c.changed_at rest now

  abbrev pub share : F → F → ℕ
  share online total =
      if fl.is_positive total then fl.to_int (fl.times_10000 (fl.divide online total)) else 0

  unfoldable pub calc_availability :
      (List StatusChange → List StatusChange) → String → ℕ → String → ℕ → List StatusChange → ℕ
  calc_availability by_time id since current now history =
      elim (transitions by_time id since history) [
        | [] ↦ if str_eq current "online" then 10000 else 0
        | c ∷ rest ↦
            share
              (online_time fl.zero (previous_status by_time id since history) since (c ∷ rest) now)
              (fl.seconds (now - since))
      ]

abbrev pub hour : ℕ
hour = 60 * minute

abbrev pub day : ℕ
day = 24 * hour

-- The answer: the name, the status and the share for each label.
pub record Availability : Type 0 where
  pub server_name : String
  pub status : String
  pub shares : List (String × ℕ)

-- `none` is the answer 404; the time is past the first thirty days of the epoch
unfoldable pub get_availability :
    {F : Type 0}
    → Float64 F
    → (List StatusChange → List StatusChange)
    → Request
    → String
    → Db
    → Option Availability
get_availability fl by_time r id db = elim (verify_server_access r id db) [
  | none ↦ none
  | some s ↦ elim (server_by_id id db.servers) [
    | none ↦ none
    | some t ↦
        let over : ℕ → ℕ =
          λ dur. calc_availability fl by_time id (r.now - dur) t.status r.now db.status_history in
        some record {
          server_name = t.name;
          status = t.status;
          shares = ("24h", over day) ∷ ("7d", over (7 * day)) ∷ ("30d", over (30 * day)) ∷ [];
        }
  ]
]
