-- ===== src/Audit/Tamper.antt =====
-- What the hash chain of internal/services/audit.go detects, and what it does not.
use mathlib.Core.List.{append_assoc}
use syncent.Base.{
  ℕ, suc, String, false, Option, some, List, [], ◌∷◌, ◌++◌, str_eq, length, ◌≡◌, ◌≢◌, refl, sym,
  ◌∙◌, subst, inl, inr, eq_iff, Bool-cases,
}
use syncent.External.{External}
use syncent.Database.{Db, AuditEntry}
use syncent.Audit.{
  genesis_hash, hash_of, next_prev_hash, insert_entry, new_entry, check_from, check_entries,
  verify_audit_chain,
}
use syncent.Audit.Chain.{
  carry, carry-append, Chained, IsChained, Chained-append, intact, broken, insert_entry_lem,
  verify-of-IsChained, next_prev_hash-carry,
}

module _ (x : External) where
  str_eq_of_ne : (s t : String) → s ≢ t → str_eq s t ≡ false
  str_eq_of_ne s t h = elim (Bool-cases (str_eq s t)) [
    | inl same ↦ absurd (h ((eq_iff s t).0 same))
    | inr other ↦ other
  ]

  check_from_break :
      (n : ℕ) (d : AuditEntry) (before : List AuditEntry) (e : AuditEntry) (later : List AuditEntry)
      → Chained x (hash_of x d) before
      → e.prev_hash ≢ carry x (hash_of x d) before
      → check_from x n d (before ++ e ∷ later) ≡ broken x n e.id
  unfolding check_from
  check_from_break n d [] e later c differs = rw (str_eq_of_ne e.prev_hash (hash_of x d) differs)
  check_from_break n d (b ∷ before) e later c differs =
      rw ((eq_iff b.prev_hash (hash_of x d)).1 c.0)
        (check_from_break n b before e later c.1 differs)

  -- the first entry that does not carry the hash before it is the one reported
  check_entries_break :
      (before : List AuditEntry) (e : AuditEntry) (later : List AuditEntry)
      → IsChained x before
      → e.prev_hash ≢ carry x (genesis_hash x) before
      → check_entries x (before ++ e ∷ later) ≡ broken x (length (before ++ e ∷ later)) e.id
  unfolding check_entries
  check_entries_break [] e later c differs = rw (str_eq_of_ne e.prev_hash (genesis_hash x) differs)
  check_entries_break (b ∷ before) e later c differs =
      rw ((eq_iff b.prev_hash (genesis_hash x)).1 c.0)
        (check_from_break (suc (length (before ++ e ∷ later))) b before e later c.1 differs)

  module _ (db : Db) (before later : List AuditEntry) (old new next : AuditEntry) where
    -- Where an entry other than the last is replaced by one that hashes differently and keeps the
    -- link to the entry before it, verification reports the entry that follows it.
    pub verify_finds_replaced :
        IsChained x (before ++ old ∷ next ∷ later)
        → new.prev_hash ≡ old.prev_hash
        → hash_of x new ≢ hash_of x old
        → verify_audit_chain x (record db { audit_log = before ++ new ∷ next ∷ later })
          ≡ broken x (length (before ++ new ∷ next ∷ later)) next.id
    unfolding verify_audit_chain
    verify_finds_replaced c link differs =
        let (front, back) = (Chained-append x (genesis_hash x) before (old ∷ next ∷ later)).0 c in
        let regroup = append_assoc before (new ∷ []) (next ∷ later) in
        let chained_front =
          (Chained-append x (genesis_hash x) before (new ∷ [])).1 (front, (link ∙ back.0, tt)) in
        subst (λ es. check_entries x es ≡ broken x (length es) next.id) regroup
          (check_entries_break (before ++ new ∷ []) next later chained_front (λ same.
            differs (sym (carry-append x (genesis_hash x) before new) ∙ sym same ∙ back.1.0)))

  verify_misses_last :
      (db : Db) (before : List AuditEntry) (old new : AuditEntry)
      → IsChained x (before ++ old ∷ [])
      → new.prev_hash ≡ old.prev_hash
      → verify_audit_chain x (record db { audit_log = before ++ new ∷ [] })
        ≡ intact x (length (before ++ new ∷ []))
  verify_misses_last db before old new c link =
      let (front, back) = (Chained-append x (genesis_hash x) before (old ∷ [])).0 c in
      verify-of-IsChained x (record db { audit_log = before ++ new ∷ [] })
        ((Chained-append x (genesis_hash x) before (new ∷ [])).1 (front, (link ∙ back.0, tt)))

  verify_misses_cut :
      (db : Db) (before later : List AuditEntry)
      → IsChained x (before ++ later)
      → verify_audit_chain x (record db { audit_log = before }) ≡ intact x (length before)
  verify_misses_cut db before later c =
      verify-of-IsChained x (record db { audit_log = before })
        ((Chained-append x (genesis_hash x) before later).0 c).0

  -- A change of the last entry is not seen, by which another entry with the same link takes its
  -- place, and neither is its removal: verification reports a valid chain in both cases.
  pub verify_misses :
      (db : Db) (before : List AuditEntry) (old new : AuditEntry)
      → IsChained x (before ++ old ∷ [])
      → new.prev_hash ≡ old.prev_hash
      → (verify_audit_chain x (record db { audit_log = before ++ new ∷ [] })
          ≡ intact x (length (before ++ new ∷ [])))
        × (verify_audit_chain x (record db { audit_log = before }) ≡ intact x (length before))
  verify_misses db before old new c link =
      (verify_misses_last db before old new c link, verify_misses_cut db before (old ∷ []) c)

  check_entries_fork :
      (log : List AuditEntry) (a b : AuditEntry)
      → IsChained x log
      → a.prev_hash ≡ next_prev_hash x log
      → b.prev_hash ≡ next_prev_hash x log
      → hash_of x a ≢ next_prev_hash x log
      → check_entries x ((log ++ a ∷ []) ++ b ∷ [])
        ≡ broken x (length ((log ++ a ∷ []) ++ b ∷ [])) b.id
  check_entries_fork log a b c link_a link_b differs =
      check_entries_break (log ++ a ∷ []) b []
        ((Chained-append x (genesis_hash x) log (a ∷ [])).1
          (c, (link_a ∙ next_prev_hash-carry x log, tt)))
        (λ same. differs (sym (carry-append x (genesis_hash x) log a) ∙ sym same ∙ link_b))

  -- Two writers that both read the log before either inserts give both new entries the hash of the
  -- same last entry. Unless the first new entry hashes to that very value, verification then reports
  -- the second one.
  pub concurrent_writes_break :
      (db db₁ db₂ : Db) (t₁ t₂ : ℕ) (action₁ action₂ detail₁ detail₂ ip₁ ip₂ : String)
      (server₁ server₂ user₁ user₂ : Option String)
      → let h = next_prev_hash x db.audit_log in
        IsChained x db.audit_log
        → insert_entry h t₁ action₁ detail₁ server₁ user₁ ip₁ db ≡ some db₁
        → insert_entry h t₂ action₂ detail₂ server₂ user₂ ip₂ db₁ ≡ some db₂
        → hash_of x (new_entry h t₁ action₁ detail₁ server₁ user₁ ip₁ db) ≢ h
        → verify_audit_chain x db₂ ≡ broken x (length db₂.audit_log) db₁.next_audit_id
  unfolding verify_audit_chain
  concurrent_writes_break db db₁ db₂ t₁ t₂ action₁ action₂ detail₁ detail₂ ip₁ ip₂ server₁ server₂
        user₁ user₂ c w₁ w₂ differs =
      rw (insert_entry_lem x t₂ action₂ detail₂ server₂ user₂ ip₂ db₁ _ db₂ w₂) (
        rw (insert_entry_lem x t₁ action₁ detail₁ server₁ user₁ ip₁ db _ db₁ w₁)
          (check_entries_fork db.audit_log _ _ c refl refl differs))
