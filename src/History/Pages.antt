-- ===== src/History/Pages.antt =====
-- The pages of the audit log, put together.
use native.Mathlib.Nat.{zero-mul, suc-mul}
use syncent.Base.{
  ℕ, zero, suc, ◌+◌, ◌-◌, ◌*◌, ◌≤◌, Bool, true, false, Option, none, some, List, [], ◌∷◌, ◌++◌,
  length, length-take, take, drop, str_eq, ◌≡◌, ◌≢◌, refl, sym, subst, ◌∙◌, ap, arith, eq_iff,
}
use syncent.Http.{Request}
use syncent.Database.{Db, AuditEntry}
use syncent.TwoFactor.{get_user_id}
use syncent.History.Order.{count_entries, Descending, LatestFirst, length-count}
use syncent.History.{
  is_visible, entries_where, page_or_default, limit_or_default, page_of, AuditPage, get_audit_log,
}

take-drop : (a b k : ℕ) (l : List AuditEntry) → k ≡ b + a → take k l ≡ take a l ++ take b (drop a l)
take-drop zero b k l e = let same : k ≡ b = omega (arith, e) in rw (same) refl
take-drop (suc a) b zero l e = absurd (omega (arith, e))
take-drop (suc a) zero (suc k) [] e = refl
take-drop (suc a) (suc b) (suc k) [] e = refl
take-drop (suc a) b (suc k) (x ∷ l) e = ap (◌∷◌ x) (take-drop a b k l (omega (arith, e)))

take-all : (n : ℕ) (l : List AuditEntry) → length l ≤ n → take n l ≡ l
take-all zero [] h = refl
take-all zero (x ∷ l) h = absurd (omega (arith, h))
take-all (suc n) [] h = refl
take-all (suc n) (x ∷ l) h = ap (◌∷◌ x) (take-all n l (omega (arith, h)))

-- the entries of an answer, none for an error
unfoldable pub entries_of : Option AuditPage → List AuditEntry
entries_of none = []
entries_of (some p) = p.entries

-- the entries of the first `n` pages, one page after the other
unfoldable pub first_pages :
    (List AuditEntry → List AuditEntry) → Request → ℕ → Db → ℕ → List AuditEntry
first_pages order r limit db zero = []
first_pages order r limit db (suc n) =
    first_pages order r limit db n ++ entries_of (get_audit_log order r (suc n) limit db)

-- the entries that the user of a request sees
unfoldable pub visible : Request → Db → List AuditEntry
visible r db = entries_where (is_visible (get_user_id r.username db)) db.audit_log

module _ (order : List AuditEntry → List AuditEntry) (law : LatestFirst order) (r : Request)
    (db : Db) (known : get_user_id r.username db ≢ "") where
  page-entries :
      (page limit : ℕ)
      → 1 ≤ page
      → 1 ≤ limit
      → limit ≤ 100
      → get_audit_log order r page limit db
        ≡ some record {
          entries = page_of page limit (order (visible r db));
          page = page;
          limit = limit;
          total = length (visible r db);
        }
  unfolding get_audit_log visible
  page-entries page limit first positive few =
      let user_id = get_user_id r.username db in
      let user : str_eq user_id "" ≡ false = ground (arith, eq_iff user_id "", known) in
      let page' : page_or_default page ≡ page = ground (arith, first) in
      let limit' : limit_or_default limit ≡ limit = ground (arith, positive, few) in
      rw (get_audit_log, user, page', limit') refl

  first_pages-take :
      (limit n : ℕ)
      → 1 ≤ limit
      → limit ≤ 100
      → first_pages order r limit db n ≡ take (n * limit) (order (visible r db))
  unfolding first_pages entries_of
  first_pages-take limit zero positive few = rw (zero-mul limit) refl
  first_pages-take limit (suc n) positive few =
      let ih = first_pages-take limit n positive few in
      let offset : suc n - 1 ≡ n = omega arith in
      rw (first_pages, page-entries (suc n) limit (omega arith) positive few, offset, ih)
        (sym (
          take-drop (n * limit) limit (suc n * limit) (order (visible r db))
            (let e = suc-mul n limit in omega (arith, e))))

  all_pages :
      (limit n : ℕ)
      → 1 ≤ limit
      → limit ≤ 100
      → length (visible r db) ≤ n * limit
      → first_pages order r limit db n ≡ order (visible r db)
  all_pages limit n positive few room =
      first_pages-take limit n positive few
      ∙ take-all (n * limit) (order (visible r db)) (
          let e = law.same_entries (λ e. true) (visible r db) in
          let m = length-count (visible r db) in
          let k = length-count (order (visible r db)) in omega (arith, e, m, k, room))

  -- For a user that is known and a limit that the program takes, and where the database puts entries of
  -- one time in the same order for every page, the pages from the first one on, as soon as they have room
  -- for all of them, give the entries of the audit log that are the user's or nobody's, each as often as
  -- the log has it, the latest first; their number is the total of each page, and no page has more than
  -- its limit.
  pub pages_complete :
      (limit n : ℕ)
      → 1 ≤ limit
      → limit ≤ 100
      → length (visible r db) ≤ n * limit
      → (first_pages order r limit db n ≡ order (visible r db))
        × Descending (first_pages order r limit db n)
        × ((q : AuditEntry → Bool)
            → count_entries q (first_pages order r limit db n) ≡ count_entries q (visible r db))
        × ((page : ℕ) (p : AuditPage)
            → 1 ≤ page
            → get_audit_log order r page limit db ≡ some p
            → (p.total ≡ length (visible r db)) × (length p.entries ≤ limit))
  pages_complete limit n positive few room = (
    all_pages limit n positive few room,
    subst Descending (sym (all_pages limit n positive few room)) (law.descending (visible r db)),
    λ q.
        ap (count_entries q) (all_pages limit n positive few room)
        ∙ law.same_entries q (visible r db),
    λ page p first found.
        let same = page-entries page limit first positive few in
        let e : record {
          entries = page_of page limit (order (visible r db));
          page = page;
          limit = limit;
          total = length (visible r db);
        }
            ≡ p =
          cc (sym same ∙ found) in
        subst (λ (q : AuditPage). (q.total ≡ length (visible r db)) × (length q.entries ≤ limit)) e
          (
            refl,
            let m = length-take limit (drop ((page - 1) * limit) (order (visible r db))) in
                omega (arith, m),
          ),
  )
