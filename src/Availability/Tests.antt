-- ===== src/Availability/Tests.antt =====
-- A server that was down for half of a time.
use syncent.Base.{ℕ, ◌+◌, ◌*◌, ◌/◌, String, List, [], ◌∷◌, ltb, ◌≡◌, refl}
use syncent.Database.{StatusChange}
use syncent.Availability.{
  Float64, calc_availability, changes_since, changes_before, previous_status, online_time,
}
use syncent.Availability.Sorted.{by_time, insert_by_time}

-- a number in place of a quotient is its value in ten-thousandths
abbrev exact : Float64 ℕ
exact = record {
  zero = 0;
  seconds = λ d. d;
  add = λ a b. a + b;
  divide = λ a b. a * 10000 / b;
  times_10000 = λ a. a;
  is_positive = λ a. ltb 0 a;
  to_int = λ a. a;
}

abbrev change : String → ℕ → StatusChange
change status at = record { server_id = "s1"; status = status; changed_at = at }

abbrev history : List StatusChange
history = change "online" 50 ∷ change "unreachable" 125 ∷ change "online" 175 ∷ []

half : calc_availability exact by_time "s1" 100 "online" 200 history ≡ 5000
unfolding calc_availability by_time insert_by_time changes_since changes_before previous_status
    online_time
half = refl
