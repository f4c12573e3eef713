-- ===== src/Availability/Measure.antt =====
-- What the availability measures: the instants at which the server was online.
use syncent.Base.{ℕ, zero, suc, ◌+◌, ◌-◌, String, List, [], ◌∷◌, leb, str_eq, ◌≡◌, if◌then◌else◌}
use syncent.Database.{StatusChange}
use syncent.Availability.{Float64, transitions, previous_status, share}
use syncent.Availability.Sorted.{ByTime}

-- The status at an instant: that of the last change that is not later, of changes in order.
unfoldable pub status_at : String → List StatusChange → ℕ → String
status_at status [] t = status
status_at status (c ∷ rest) t =
    let later = status_at c.status rest t in if leb c.changed_at t then later else status

-- How many of `n` instants from `a` on have the status "online".
unfoldable pub online_instants : (ℕ → String) → ℕ → ℕ → ℕ
online_instants status a zero = 0
online_instants status a (suc n) =
    (if str_eq (status a) "online" then 1 else 0) + online_instants status (suc a) n

-- how long the status was "online"
unfoldable pub online_total : String → ℕ → List StatusChange → ℕ → ℕ
online_total status since [] now = if str_eq status "online" then now - since else 0
online_total status since (c ∷ rest) now =
    (if str_eq status "online" then c.changed_at - since else 0)
    + online_total c.status c.changed_at rest now

-- The durations of the times at which the status was "online", in order.
unfoldable pub online_durations : String → ℕ → List StatusChange → ℕ → List ℕ
online_durations status since [] now = if str_eq status "online" then (now - since) ∷ [] else []
online_durations status since (c ∷ rest) now =
    let others = online_durations c.status c.changed_at rest now in
    if str_eq status "online" then (c.changed_at - since) ∷ others else others

unfoldable pub total_of : List ℕ → ℕ
total_of [] = 0
total_of (d ∷ l) = d + total_of l

-- the floating-point sum of durations, one after the other
unfoldable pub add_seconds : {F : Type 0} → Float64 F → F → List ℕ → F
add_seconds fl online [] = online
add_seconds fl online (d ∷ l) = add_seconds fl (fl.add online (fl.seconds d)) l

-- The status of a server at each instant of a time: by the changes of the time and the status
-- before it, or the current one where nothing changed.
unfoldable pub status_over :
    (List StatusChange → List StatusChange) → String → ℕ → String → List StatusChange → ℕ → String
status_over by_time id since current history t = elim (transitions by_time id since history) [
  | [] ↦ current
  | c ∷ rest ↦ status_at (previous_status by_time id since history) (c ∷ rest) t
]

-- How an availability over a time measures the instants of it that were online: none or all of them,
-- or the program's quotient of durations that add up to them.
pub data Measurement {F : Type 0} (fl : Float64 F) (instants whole : ℕ) : ℕ → Type 0 where
  always_online : {n : ℕ} → instants ≡ whole → n ≡ 10000 → Measurement fl instants whole n
  never_online : {n : ℕ} → instants ≡ 0 → n ≡ 0 → Measurement fl instants whole n
  quotient :
      {n : ℕ} (durations : List ℕ)
      → total_of durations ≡ instants
      → n ≡ share fl (add_seconds fl fl.zero durations) (fl.seconds whole)
      → Measurement fl instants whole n

module _ {F : Type 0} (fl : Float64 F) (by_time : List StatusChange → List StatusChange)
    (sorts : ByTime by_time) (id : String) (since : ℕ) (current : String) (now : ℕ)
    (history : List StatusChange) where
  abbrev pub online_over : ℕ
  online_over = online_instants (status_over by_time id since current history) since (now - since)
