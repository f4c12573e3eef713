-- ===== src/Availability/Sorted.antt =====
-- The order by time.
use syncent.Base.{
  ℕ, ◌≤◌, String, ◌&&◌, List, [], ◌∷◌, All, leb, leb→le, str_eq, arith, Bool-cases, inl, inr,
  if◌then◌else◌,
}
use syncent.Database.{StatusChange}
use syncent.Availability.{changes_since, transitions}

-- Changes in the order of their times, none before `a` and none after `b`.
abbrev pub Ordered : ℕ → ℕ → List StatusChange → Type 0
Ordered a b [] = a ≤ b
Ordered a b (c ∷ rest) = (a ≤ c.changed_at) × Ordered c.changed_at b rest

pub Ordered-bounds : (a b : ℕ) (l : List StatusChange) → Ordered a b l → a ≤ b
Ordered-bounds a b [] h = h
Ordered-bounds a b (c ∷ rest) (first, h) =
    let ih = Ordered-bounds c.changed_at b rest h in omega (arith, first, ih)

-- What ORDER BY changed_at ASC promises: the rows in the order of their times.
abbrev pub ByTime : (List StatusChange → List StatusChange) → Type 0
ByTime order =
    (a b : ℕ) (l : List StatusChange)
    → a ≤ b
    → All (λ (c : StatusChange). (a ≤ c.changed_at) × (c.changed_at ≤ b)) l
    → Ordered a b (order l)

-- the place of a row in a list that is ordered by the time of the change
unfoldable pub insert_by_time : StatusChange → List StatusChange → List StatusChange
insert_by_time c [] = c ∷ []
insert_by_time c (d ∷ rest) =
    let later = insert_by_time c rest in
    if leb c.changed_at d.changed_at then c ∷ d ∷ rest else d ∷ later

-- an order that keeps rows of one time as they were inserted
unfoldable pub by_time : List StatusChange → List StatusChange
by_time [] = []
by_time (c ∷ rest) = insert_by_time c (by_time rest)

insert_by_time-Ordered :
    (a b : ℕ) (c : StatusChange) (l : List StatusChange)
    → a ≤ c.changed_at
    → c.changed_at ≤ b
    → Ordered a b l
    → Ordered a b (insert_by_time c l)
unfolding insert_by_time
insert_by_time-Ordered a b c [] lo hi h = (lo, hi)
insert_by_time-Ordered a b c (d ∷ rest) lo hi (first, h) =
    elim (Bool-cases (leb c.changed_at d.changed_at)) [
      | inl e ↦ rw (e) (lo, (leb→le _ _ e, h))
      | inr e ↦
          rw (e) (first, insert_by_time-Ordered d.changed_at b c rest (ground (arith, e)) hi h)
    ]

pub by_time-ByTime : ByTime by_time
unfolding by_time
by_time-ByTime a b [] le h = le
by_time-ByTime a b (c ∷ rest) le ((lo, hi), h) =
    insert_by_time-Ordered a b c (by_time rest) lo hi (by_time-ByTime a b rest le h)

changes_since-All :
    (id : String) (since now : ℕ) (l : List StatusChange)
    → All (λ (c : StatusChange). c.changed_at ≤ now) l
    → All
        (λ (c : StatusChange). (since ≤ c.changed_at) × (c.changed_at ≤ now))
        (changes_since id since l)
unfolding changes_since
changes_since-All id since now [] h = tt
changes_since-All id since now (c ∷ rest) (past, h) =
    let ih = changes_since-All id since now rest h in
    elim (Bool-cases (str_eq c.server_id id && leb since c.changed_at)) [
      | inl hit ↦ rw (hit) ((ground (arith, hit), past), ih)
      | inr miss ↦ rw (miss) ih
    ]

pub transitions-Ordered :
    (order : List StatusChange → List StatusChange)
    → ByTime order
    → (id : String) (since now : ℕ) (history : List StatusChange) → since ≤ now
    → All (λ (c : StatusChange). c.changed_at ≤ now) history
    → Ordered since now (transitions order id since history)
transitions-Ordered order sorts id since now history le past =
    sorts since now (changes_since id since history) le
      (changes_since-All id since now history past)
