-- ===== src/Audit/Chain.antt =====
-- When the hash chain of internal/services/audit.go verifies, and that writing keeps it so.
use syncent.Base.{
  ℕ, suc, ◌+◌, String, true, false, Option, none, some, List, [], ◌∷◌, ◌++◌, str_eq, length,
  length-append, ◌≡◌, ◌≢◌, ◌↔◌, ◌⊎◌, refl, ◌∙◌, ap, inl, inr, arith, eq_iff, Bool-cases,
  Option-cases,
}
use syncent.External.{External}
use syncent.Database.{Db, AuditEntry}
use syncent.Audit.{
  AuditVerifyResult, genesis_hash, hash_of, next_prev_hash, insert_entry, append_entry, new_entry,
  write_audit_log, check_from, check_entries, verify_audit_chain, log_action,
}

module _ (x : External) where
  -- the hash that an entry after `log` must carry, where `h` is the one before `log`
  abbrev pub carry : String → List AuditEntry → String
  carry h [] = h
  carry h (e ∷ es) = carry (hash_of x e) es

  -- Every entry carries the hash of the one before it, and the first carries `h`.
  abbrev pub Chained : String → List AuditEntry → Type 0
  Chained h [] = Unit
  Chained h (e ∷ es) = (e.prev_hash ≡ h) × Chained (hash_of x e) es

  abbrev pub IsChained : List AuditEntry → Type 0
  IsChained es = Chained (genesis_hash x) es

  pub carry-append :
      (h : String) (es : List AuditEntry) (e : AuditEntry) → carry h (es ++ e ∷ []) ≡ hash_of x e
  carry-append h [] e = refl
  carry-append h (d ∷ es) e = carry-append (hash_of x d) es e

  next_from :
      (d : AuditEntry) (es : List AuditEntry) → next_prev_hash x (d ∷ es) ≡ carry (hash_of x d) es
  unfolding next_prev_hash
  next_from d [] = refl
  next_from d (e ∷ es) = next_from e es

  pub next_prev_hash-carry :
      (es : List AuditEntry) → next_prev_hash x es ≡ carry (genesis_hash x) es
  unfolding next_prev_hash
  next_prev_hash-carry [] = refl
  next_prev_hash-carry (e ∷ es) = next_from e es

  pub Chained-append :
      (h : String) (es ds : List AuditEntry)
      → Chained h (es ++ ds) ↔ (Chained h es × Chained (carry h es) ds)
  Chained-append h [] ds = (λ c. (tt, c), λ c. c.1)
  Chained-append h (e ∷ es) ds =
      let ih = Chained-append (hash_of x e) es ds in
      (λ c. ((c.0, (ih.0 c.1).0), (ih.0 c.1).1), λ c. (c.0.0, ih.1 (c.0.1, c.1)))

  -- The chain is intact before `e`, and `e` does not carry the hash that it should.
  abbrev pub BreaksAt : String → List AuditEntry → ℕ → Type 0
  BreaksAt h es id =
      (before : List AuditEntry) × (e : AuditEntry) × (later : List AuditEntry) × (es
        ≡ before ++ e ∷ later)
      × Chained h before
      × (e.prev_hash ≢ carry h before)
      × (e.id ≡ id)

  BreaksAt-here :
      (e : AuditEntry) (es : List AuditEntry) (h : String)
      → str_eq e.prev_hash h ≡ false
      → BreaksAt h (e ∷ es) e.id
  BreaksAt-here e es h other =
      ([], e, es, refl, tt, (λ same. cc ((eq_iff e.prev_hash h).1 same)), refl)

  BreaksAt-cons :
      (e : AuditEntry) (es : List AuditEntry) (id : ℕ) {h : String}
      → e.prev_hash ≡ h
      → BreaksAt (hash_of x e) es id
      → BreaksAt h (e ∷ es) id
  BreaksAt-cons e es id same (before, f, later, split, c, differs, at_id) =
      (e ∷ before, f, later, ap (◌∷◌ e) split, (same, c), differs, at_id)

  abbrev pub intact : ℕ → AuditVerifyResult
  intact n = record { valid = true; total = n; broken_at = none }

  abbrev pub broken : ℕ → ℕ → AuditVerifyResult
  broken n id = record { valid = false; total = n; broken_at = some id }

  check_from_cases :
      (n : ℕ) (d : AuditEntry) (es : List AuditEntry)
      → ((check_from x n d es ≡ intact n) × Chained (hash_of x d) es)
        ⊎ ((id : ℕ) × (check_from x n d es ≡ broken n id) × BreaksAt (hash_of x d) es id)
  unfolding check_from
  check_from_cases n d [] = inl (refl, tt)
  check_from_cases n d (e ∷ es) = elim (Bool-cases (str_eq e.prev_hash (hash_of x d))) [
    | inl same ↦ elim (check_from_cases n e es) [
      | inl (r, c) ↦ inl (rw (same, check_from) r, ((eq_iff _ _).0 same, c))
      | inr (id, r, b) ↦
          inr (id, rw (same, check_from) r, BreaksAt-cons e es id ((eq_iff _ _).0 same) b)
    ]
    | inr other ↦ inr (e.id, rw (other, check_from) refl, BreaksAt-here e es (hash_of x d) other)
  ]

  check_entries_cases :
      (es : List AuditEntry)
      → ((check_entries x es ≡ intact (length es)) × IsChained es)
        ⊎ ((id : ℕ) × (check_entries x es ≡ broken (length es) id)
            × BreaksAt (genesis_hash x) es id)
  unfolding check_entries
  check_entries_cases [] = inl (refl, tt)
  check_entries_cases (e ∷ es) = elim (Bool-cases (str_eq e.prev_hash (genesis_hash x))) [
    | inl same ↦ elim (check_from_cases (suc (length es)) e es) [
      | inl (r, c) ↦ inl (rw same r, ((eq_iff _ _).0 same, c))
      | inr (id, r, b) ↦ inr (id, rw same r, BreaksAt-cons e es id ((eq_iff _ _).0 same) b)
    ]
    | inr other ↦ inr (e.id, rw other refl, BreaksAt-here e es (genesis_hash x) other)
  ]

  -- `VerifyAuditChain` counts all entries, and either reports a valid chain, when each entry carries
  -- the hash of the one before it (the first one the genesis hash), or the id of the first entry
  -- that does not, all entries before it being chained.
  pub verify_audit_chain_cases :
      (db : Db)
      → ((verify_audit_chain x db ≡ intact (length db.audit_log)) × IsChained db.audit_log)
        ⊎ ((id : ℕ) × (verify_audit_chain x db ≡ broken (length db.audit_log) id)
            × BreaksAt (genesis_hash x) db.audit_log id)
  unfolding verify_audit_chain
  verify_audit_chain_cases db = check_entries_cases db.audit_log

  Chained-not-BreaksAt :
      (h : String) (es : List AuditEntry) (id : ℕ) → Chained h es → ¬ BreaksAt h es id
  Chained-not-BreaksAt h es id c (before, e, later, split, _, differs, _) =
      differs ((Chained-append h before (e ∷ later)).0 (rw split at c)).1.0

  pub verify-of-IsChained :
      (db : Db) → IsChained db.audit_log → verify_audit_chain x db ≡ intact (length db.audit_log)
  verify-of-IsChained db c = elim (verify_audit_chain_cases db) [
    | inl (r, _) ↦ r
    | inr (id, r, b) ↦ absurd (Chained-not-BreaksAt _ _ id c b)
  ]

  pub IsChained-of-valid :
      (db : Db) → (verify_audit_chain x db).valid ≡ true → IsChained db.audit_log
  IsChained-of-valid db v = elim (verify_audit_chain_cases db) [
    | inl (_, c) ↦ c
    | inr (id, r, b) ↦ cc (ap (λ (q : AuditVerifyResult). q.valid) r)
  ]

  module _ (now : ℕ) (action detail : String) (server_id user : Option String) (source_ip : String)
      (db : Db) where
    pub insert_entry_lem :
        (h : String) (db' : Db)
        → insert_entry h now action detail server_id user source_ip db ≡ some db'
        → db' ≡ append_entry (new_entry h now action detail server_id user source_ip db) db
    unfolding insert_entry
    insert_entry_lem h db' w = ground arith

    write-IsChained :
        (db' : Db)
        → IsChained db.audit_log
        → write_audit_log x now action detail server_id user source_ip db ≡ some db'
        → IsChained db'.audit_log
    unfolding write_audit_log
    write-IsChained db' c w =
        rw (insert_entry_lem (next_prev_hash x db.audit_log) db' w)
          ((Chained-append _ db.audit_log _).1 (c, (next_prev_hash-carry db.audit_log, tt)))

    -- An entry written after a chain that verifies gives a chain that verifies, one entry longer.
    pub write_audit_log-valid :
        (db' : Db)
        → (verify_audit_chain x db).valid ≡ true
        → write_audit_log x now action detail server_id user source_ip db ≡ some db'
        → verify_audit_chain x db' ≡ intact (length db.audit_log + 1)
    unfolding write_audit_log
    write_audit_log-valid db' v w =
        verify-of-IsChained db' (write-IsChained db' (IsChained-of-valid db v) w)
        ∙ ap intact (
            ap (λ (d : Db). length d.audit_log) (insert_entry_lem _ db' w)
            ∙ length-append db.audit_log _)

    pub log_action-IsChained :
        IsChained db.audit_log
        → IsChained (log_action x now action detail server_id user source_ip db).audit_log
    unfolding log_action
    log_action-IsChained c =
        elim (Option-cases (write_audit_log x now action detail server_id user source_ip db)) [
          | inl e ↦ rw (e, log_action) c
          | inr (db', e) ↦ rw (e, log_action) (write-IsChained db' c e)
        ]
