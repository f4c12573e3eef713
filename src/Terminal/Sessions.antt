-- ===== src/Terminal/Sessions.antt =====
-- Terminals that are checked, opened and closed in any order, each by a goroutine of its own.
use syncent.Base.{
  ℕ, zero, suc, ◌+◌, ◌≤◌, String, false, some, List, [], ◌∷◌, ◌++◌, length, str_eq, leb, le→leb,
  eq_iff, ◌≡◌, ◌≢◌, refl, sym, subst, arith, Bool-cases, inl, inr, if◌then◌else◌,
}
use syncent.External.{External}
use syncent.Config.{Config}
use syncent.Database.{Db, User}
use syncent.Database.Users.{find_in}
use syncent.Crypto.{decrypt, ok}
use syncent.TwoFactor.{verify_user_totp}
use syncent.Terminal.{
  max_sessions, Counters, no_sessions, add_session, remove_session, upgraded, limits, opened,
  closed, terminal_code_ok,
}

-- The counters, the servers of the connections that have passed the checks and have no shell yet,
-- and the servers of the shells that are open.
pub record Terminals : Type 0 where
  pub counters : Counters
  pub checked : List String
  pub live : List String

abbrev pub none_yet : Terminals
none_yet = record { counters = no_sessions; checked = []; live = [] }

pub data Step : Terminals → Terminals → Type 0 where
  check :
      {s : Counters} {checked live : List String} (id : String)
      → limits id s ≡ upgraded
      → Step
          (record { counters = s; checked = checked; live = live })
          (record { counters = s; checked = id ∷ checked; live = live })
  give_up :
      {s : Counters} {live : List String} (before : List String) (id : String) (after : List String)
      → Step
          (record { counters = s; checked = before ++ id ∷ after; live = live })
          (record { counters = s; checked = before ++ after; live = live })
  start :
      {s : Counters} {live : List String} (before : List String) (id : String) (after : List String)
      → Step
          (record { counters = s; checked = before ++ id ∷ after; live = live })
          (record { counters = opened id s; checked = before ++ after; live = id ∷ live })
  stop :
      {s : Counters} {checked : List String} (before : List String) (id : String)
      (after : List String)
      → Step
          (record { counters = s; checked = checked; live = before ++ id ∷ after })
          (record { counters = closed id s; checked = checked; live = before ++ after })

pub data Reachable : Terminals → Type 0 where
  initial : Reachable none_yet
  next : {t u : Terminals} → Reachable t → Step t u → Reachable u

unfoldable pub occurrences : String → List String → ℕ
occurrences id [] = 0
occurrences id (k ∷ rest) = if str_eq id k then suc (occurrences id rest) else occurrences id rest

abbrev pub CountsLive : Terminals → Type 0
CountsLive t =
    (t.counters.active ≡ length t.live)
    × ((id : String) → t.counters.per_server id ≡ occurrences id t.live)

occurrences-middle :
    (k : String) (before : List String) (id : String) (after : List String)
    → occurrences k (before ++ id ∷ after) ≡ occurrences k (id ∷ (before ++ after))
unfolding occurrences
occurrences-middle k [] id after = refl
occurrences-middle k (b ∷ before) id after =
    let ih = occurrences-middle k before id after in ground (arith, ih)

length-middle :
    (before : List String) (id : String) (after : List String)
    → length (before ++ id ∷ after) ≡ suc (length (before ++ after))
length-middle [] id after = refl
length-middle (b ∷ before) id after = omega (arith, length-middle before id after)

counts-Step : {t u : Terminals} → Step t u → CountsLive t → CountsLive u
unfolding opened closed add_session remove_session occurrences
counts-Step (check id h) c = c
counts-Step (give_up before id after) c = c
counts-Step (start {s} {live} before id after) c =
    (omega (arith, c.0), λ k. let e = c.1 k in ground (arith, e))
counts-Step (stop {s} before id after) c = (
  omega (arith, c.0, length-middle before id after),
  λ k. let e = c.1 k in let m = occurrences-middle k before id after in ground (arith, e, m),
)

-- In every state that connections reach by any interleaving of their checks, starts and ends, the
-- counter of all terminals is the number of shells that are open, and the counter of each server
-- the number of those on it: none is lost, and none stays counted after its end.
pub counters_count_live : {t : Terminals} → Reachable t → CountsLive t
unfolding occurrences
counters_count_live initial = (refl, λ id. refl)
counters_count_live (next r step) = counts-Step step (counters_count_live r)

repeated : String → ℕ → List String
repeated id zero = []
repeated id (suc n) = id ∷ repeated id n

checked_all :
    (id : String) (n : ℕ)
    → Reachable (record { counters = no_sessions; checked = repeated id n; live = [] })
unfolding repeated limits
checked_all id zero = initial
checked_all id (suc n) = next (checked_all id n) (check id refl)

abbrev Counted : String → ℕ → Type 0
Counted id n =
    (t : Terminals) × Reachable t × (t.counters.active ≡ n) × (t.counters.per_server id ≡ n)

start_all :
    (id : String) (n k : ℕ) (s : Counters) (live : List String)
    → s.active ≡ k
    → s.per_server id ≡ k
    → Reachable (record { counters = s; checked = repeated id n; live = live })
    → Counted id (n + k)
unfolding repeated opened add_session
start_all id zero k s live e f r =
    subst (Counted id) (omega arith)
      (record { counters = s; checked = repeated id zero; live = live }, r, e, f)
start_all id (suc n) k s live e f r =
    let g : (opened id s).per_server id ≡ suc k = ground (arith, f, eq_iff id id) in
    subst (Counted id) (omega arith) (
      start_all id n (suc k) (opened id s) (id ∷ live) (omega (arith, e)) g
        (next r (start [] id (repeated id n))))

-- For every number there is an interleaving that has that many terminals open at once, all on one
-- server: the connections pass the checks before any of them is counted.
pub limits_passed_together :
    (id : String) (n : ℕ)
    → (t : Terminals) × Reachable t × (t.counters.active ≡ n) × (t.counters.per_server id ≡ n)
limits_passed_together id n =
    subst (Counted id) (omega arith) (start_all id n 0 no_sessions [] refl refl (checked_all id n))

-- Connections of which each is counted before the next one is checked.
pub data OneByOne : Counters → Type 0 where
  nobody : OneByOne no_sessions
  enters :
      {s : Counters} (id : String) → OneByOne s → limits id s ≡ upgraded → OneByOne (opened id s)
  leaves : {s : Counters} (id : String) → OneByOne s → OneByOne (closed id s)

limits-upgraded :
    (id : String) (s : Counters) → limits id s ≡ upgraded → (s.active ≤ 2) × (s.per_server id ≡ 0)
unfolding limits
limits-upgraded id s h = elim (Bool-cases (leb max_sessions s.active)) [
  | inl e ↦ absurd (cc (rw e at h))
  | inr e ↦ elim (Bool-cases (leb 1 (s.per_server id))) [
    | inl f ↦ absurd (cc (rw (e, f) at h))
    | inr f ↦
        let big = le→leb max_sessions s.active in
        let some_open = le→leb 1 (s.per_server id) in
        (ground (arith, e, big), ground (arith, f, some_open))
  ]
]

-- Where each connection is counted before the next one is checked, at most three terminals are open
-- at a time and at most one on each server.
pub OneByOne-limits :
    {s : Counters} → OneByOne s → (s.active ≤ 3) × ((id : String) → s.per_server id ≤ 1)
unfolding opened closed add_session remove_session
OneByOne-limits nobody = (omega arith, λ id. omega arith)
OneByOne-limits (enters {s} id r h) =
    let ih = OneByOne-limits r in
    let l = limits-upgraded id s h in
    (
      omega (arith, l.0),
      λ k.
          let e = ih.1 k in
          let q = eq_iff k id in
          let f = l.1 in
          elim (Bool-cases (str_eq k id)) [
            | inl same ↦
                let z : s.per_server k ≡ 0 =
                  subst (λ (j : String). s.per_server j ≡ 0) (sym (q.0 same)) f in
                rw same (omega (arith, z))
            | inr other ↦ rw other e
          ],
    )
OneByOne-limits (leaves {s} id r) =
    let ih = OneByOne-limits r in (omega (arith, ih.0), λ k. let e = ih.1 k in ground (arith, e))

module _ (x : External) (c : Config) where
  -- A terminal is opened with exactly the codes that `verifyUserTOTP` accepts for the user, where the
  -- user's secret decrypts and the code is not empty.
  pub terminal_code_agrees :
      (now : ℕ) (username code secret : String) (db : Db) {u : User}
      → find_in username db.users ≡ some u
      → decrypt x c.master_key u.totp_secret_encrypted ≡ ok secret
      → code ≢ ""
      → terminal_code_ok x c now username code db ≡ verify_user_totp x c now username code db
  unfolding terminal_code_ok verify_user_totp
  terminal_code_agrees now username code secret db found opens given =
      let e : str_eq code "" ≡ false = ground (arith, eq_iff code "", given) in
      rw (e, verify_user_totp, found, opens) refl
