-- ===== src/History/Order.antt =====
-- The order of the audit log, the latest entry first: what every order that a database may choose has
-- in common, and one such order.
use syncent.Base.{
  ℕ, ◌+◌, ◌≤◌, Bool, true, List, [], ◌∷◌, All, length, leb, leb→le, ◌≡◌, refl, arith, Bool-cases,
  inl, inr, if◌then◌else◌,
}
use syncent.Database.{AuditEntry}

-- how many of the entries have a property
unfoldable pub count_entries : (AuditEntry → Bool) → List AuditEntry → ℕ
count_entries p [] = 0
count_entries p (e ∷ rest) = (if p e then 1 else 0) + count_entries p rest

-- no entry is later than one before it
abbrev pub Descending : List AuditEntry → Type 0
Descending [] = Unit
Descending (e ∷ rest) = All (λ (f : AuditEntry). f.created_at ≤ e.created_at) rest × Descending rest

-- What ORDER BY created_at DESC promises: the same entries, each as often, the latest first.
pub record LatestFirst (order : List AuditEntry → List AuditEntry) : Type 0 where
  pub same_entries :
      (q : AuditEntry → Bool) (l : List AuditEntry) → count_entries q (order l) ≡ count_entries q l
  pub descending : (l : List AuditEntry) → Descending (order l)

pub length-count : (l : List AuditEntry) → count_entries (λ e. true) l ≡ length l
unfolding count_entries
length-count [] = refl
length-count (e ∷ l) = let ih = length-count l in omega (arith, ih)

unfoldable pub insert_latest : AuditEntry → List AuditEntry → List AuditEntry
insert_latest e [] = e ∷ []
insert_latest e (f ∷ rest) =
    let older = insert_latest e rest in
    if leb f.created_at e.created_at then e ∷ f ∷ rest else f ∷ older

-- the order that puts the one that was inserted first before others of its time
unfoldable pub latest_first : List AuditEntry → List AuditEntry
latest_first [] = []
latest_first (e ∷ rest) = insert_latest e (latest_first rest)

count-insert_latest :
    (p : AuditEntry → Bool) (e : AuditEntry) (l : List AuditEntry)
    → count_entries p (insert_latest e l) ≡ (if p e then 1 else 0) + count_entries p l
unfolding count_entries insert_latest
count-insert_latest p e [] = refl
count-insert_latest p e (f ∷ rest) =
    let ih = count-insert_latest p e rest in
    elim (Bool-cases (leb f.created_at e.created_at)) [
      | inl older ↦ rw (older) refl
      | inr newer ↦ rw (newer) (omega (arith, ih))
    ]

count-latest_first :
    (p : AuditEntry → Bool) (l : List AuditEntry)
    → count_entries p (latest_first l) ≡ count_entries p l
unfolding count_entries latest_first
count-latest_first p [] = refl
count-latest_first p (e ∷ rest) =
    let ih = count-latest_first p rest in
    let put = count-insert_latest p e (latest_first rest) in omega (arith, ih, put)

All-insert_latest :
    (n : ℕ) (e : AuditEntry) (l : List AuditEntry)
    → e.created_at ≤ n
    → All (λ (f : AuditEntry). f.created_at ≤ n) l
    → All (λ (f : AuditEntry). f.created_at ≤ n) (insert_latest e l)
unfolding insert_latest
All-insert_latest n e [] le h = (le, tt)
All-insert_latest n e (f ∷ rest) le (first, h) = elim (Bool-cases (leb f.created_at e.created_at)) [
  | inl older ↦ rw (older) (le, (first, h))
  | inr newer ↦ rw (newer) (first, All-insert_latest n e rest le h)
]

All-later :
    (m n : ℕ) (l : List AuditEntry)
    → m ≤ n
    → All (λ (f : AuditEntry). f.created_at ≤ m) l
    → All (λ (f : AuditEntry). f.created_at ≤ n) l
All-later m n [] le h = tt
All-later m n (f ∷ l) le (first, h) = (omega (arith, first, le), All-later m n l le h)

insert_latest-Descending :
    (e : AuditEntry) (l : List AuditEntry) → Descending l → Descending (insert_latest e l)
unfolding insert_latest
insert_latest-Descending e [] h = (tt, tt)
insert_latest-Descending e (f ∷ rest) (below, h) =
    elim (Bool-cases (leb f.created_at e.created_at)) [
      | inl older ↦
          let le = leb→le f.created_at e.created_at older in
          rw (older) ((le, All-later f.created_at e.created_at rest le below), (below, h))
      | inr newer ↦
          let le : e.created_at ≤ f.created_at = ground (arith, newer) in
          rw (newer)
            (All-insert_latest f.created_at e rest le below, insert_latest-Descending e rest h)
    ]

latest_first-Descending : (l : List AuditEntry) → Descending (latest_first l)
unfolding latest_first
latest_first-Descending [] = tt
latest_first-Descending (e ∷ rest) =
    insert_latest-Descending e (latest_first rest) (latest_first-Descending rest)

pub latest_first-LatestFirst : LatestFirst latest_first
latest_first-LatestFirst = record {
  same_entries = count-latest_first;
  descending = latest_first-Descending;
}
