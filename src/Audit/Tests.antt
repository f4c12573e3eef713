-- ===== src/Audit/Tests.antt =====
-- The theorems about internal/services/audit.go at concrete logs, and tests.
use syncent.Base.{ℕ, String, none, [], ◌∷◌, ◌≡◌, ◌⊎◌, refl, arith, eq_iff, ◌≢◌}
use syncent.Database.{Db, AuditEntry}
use syncent.Sample.{sample, db}
use syncent.Audit.{
  genesis_hash, compute_hash, hash_of, next_prev_hash, insert_entry, append_entry, new_entry,
  write_audit_log, verify_audit_chain,
}
use syncent.Audit.Chain.{
  intact, broken, IsChained, BreaksAt, verify_audit_chain_cases, write_audit_log-valid,
}
use syncent.Audit.Tamper.{verify_finds_replaced, verify_misses, concurrent_writes_break}

abbrev first : AuditEntry
first = record {
  id = 1;
  user_id = none;
  server_id = none;
  action = "login_success";
  detail = "Login: alice";
  source_ip = "10.0.0.1";
  prev_hash = "#genesis";
  created_at = 5;
}

abbrev second : AuditEntry
second = record first { id = 2; action = "logout"; prev_hash = "#1|login_success|Login: alice|t" }

abbrev forged : AuditEntry
forged = record first { detail = "Login: bob" }

abbrev forged_last : AuditEntry
forged_last = record second { detail = "Login: bob" }

abbrev logged : Db
logged = record db { audit_log = first ∷ second ∷ []; next_audit_id = 3 }

abbrev one_entry : Db
one_entry = record db { audit_log = first ∷ []; next_audit_id = 2 }

verified : verify_audit_chain sample logged ≡ intact sample 2
unfolding verify_audit_chain genesis_hash compute_hash
verified = refl

logged-IsChained : IsChained sample (first ∷ second ∷ [])
unfolding genesis_hash compute_hash
logged-IsChained = (refl, (refl, tt))

verify_audit_chain_cases_example :
    ((verify_audit_chain sample logged ≡ intact sample 2) × IsChained sample logged.audit_log)
    ⊎ ((id : ℕ) × (verify_audit_chain sample logged ≡ broken sample 2 id)
        × BreaksAt sample (genesis_hash sample) logged.audit_log id)
verify_audit_chain_cases_example = verify_audit_chain_cases sample logged

one_more : Db
one_more =
    append_entry
      (new_entry (next_prev_hash sample logged.audit_log) 9 "logout" "bye" none none "10.0.0.1"
        logged)
      logged

write_audit_log-valid_example : verify_audit_chain sample one_more ≡ intact sample 3
unfolding verify_audit_chain genesis_hash compute_hash write_audit_log insert_entry one_more
write_audit_log-valid_example =
    write_audit_log-valid sample 9 "logout" "bye" none none "10.0.0.1" logged one_more refl refl

hashes_differ : hash_of sample forged ≢ hash_of sample first
unfolding compute_hash
hashes_differ = ground (arith, eq_iff (hash_of sample forged) (hash_of sample first))

verify_finds_replaced_example :
    verify_audit_chain sample (record logged { audit_log = forged ∷ second ∷ [] })
    ≡ broken sample 2 2
verify_finds_replaced_example =
    verify_finds_replaced sample logged [] [] first forged second logged-IsChained refl
      hashes_differ

verify_misses_example :
    (verify_audit_chain sample (record logged { audit_log = first ∷ forged_last ∷ [] })
      ≡ intact sample 2)
    × (verify_audit_chain sample (record logged { audit_log = first ∷ [] }) ≡ intact sample 1)
verify_misses_example =
    verify_misses sample logged (first ∷ []) second forged_last logged-IsChained refl

abbrev stale_hash : String
stale_hash = "#1|login_success|Login: alice|t"

one_entry-IsChained : IsChained sample (first ∷ [])
unfolding genesis_hash
one_entry-IsChained = (refl, tt)

abbrev after_first : Db
after_first =
    append_entry
      (new_entry (next_prev_hash sample (first ∷ [])) 7 "logout" "a" none none "ip" one_entry)
      one_entry

abbrev after_second : Db
after_second =
    append_entry
      (new_entry (next_prev_hash sample (first ∷ [])) 8 "logout" "b" none none "ip" after_first)
      after_first

fork_hash_differs :
    hash_of sample
      (new_entry (next_prev_hash sample (first ∷ [])) 7 "logout" "a" none none "ip" one_entry)
    ≢ next_prev_hash sample (first ∷ [])
unfolding compute_hash next_prev_hash
fork_hash_differs = ground (
  arith,
  eq_iff
      (hash_of sample
        (new_entry (next_prev_hash sample (first ∷ [])) 7 "logout" "a" none none "ip" one_entry))
      (next_prev_hash sample (first ∷ [])),
)

concurrent_writes_break_example : verify_audit_chain sample after_second ≡ broken sample 3 3
unfolding insert_entry
concurrent_writes_break_example =
    concurrent_writes_break sample one_entry after_first after_second 7 8 "logout" "logout" "a" "b"
      "ip" "ip" none none none none one_entry-IsChained refl refl fork_hash_differs
