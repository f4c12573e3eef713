-- ===== src/Health/Tests.antt =====
-- A server that answers every other ping.
use syncent.Base.{ℕ, Bool, true, false, List, [], ◌∷◌, some, arith, eq_iff, ◌≡◌, refl}
use syncent.Database.{Server}
use syncent.Health.{server_by_id}
use syncent.Health.Laws.{pings, failed_pings, AfterPings, pings_count_failures}
use syncent.Sample.{config, server, db_with_server}

abbrev flapping : List (ℕ × Bool × ℕ)
flapping =
    (1, false, 9) ∷ (2, true, 5) ∷ (3, false, 9) ∷ (4, true, 5) ∷ (5, false, 9) ∷ (6, true, 5) ∷ []

pings_count_failures_example :
    (t : Server) × (server_by_id "s1" (pings config "s1" flapping db_with_server).servers ≡ some t)
    × AfterPings config server (failed_pings flapping) t
unfolding server_by_id
pings_count_failures_example =
    pings_count_failures config "s1" flapping db_with_server refl
      (ground (arith, eq_iff "direct" "gsocket"))
