-- ===== src/Audit/Journal/Once.antt =====
-- Idempotency keys and expected heads in src/audit/providers/memory-journal.ts.
use kya_os_mcp.Common.{
  ◌≡◌, refl, ap, ◌∙◌, inl, inr, true, List, [], ◌∷◌, some, String, ◌==◌, string_eq, list_eq, nat_eq,
  ==_iff, ==_refl, Bool-cases,
}
use kya_os_mcp.Common.Map.{get, get-set}
use kya_os_mcp.Audit.Journal.{
  SignedAuditEntry, AppendInput, Journal, to_idempotency_key, get_by_idempotency_key, push_entry,
  known, compare_and_append,
}
use kya_os_mcp.Audit.Journal.Appends.{append_all, is_appended, compare_and_append-cases}

-- An append changes no recorded key.
compare_and_append-recorded :
    (ledger_id key : String) (e : SignedAuditEntry) (input : AppendInput) (j : Journal)
    → get_by_idempotency_key ledger_id key j ≡ some e
    → get_by_idempotency_key ledger_id key (compare_and_append input j).1 ≡ some e
unfolding push_entry
compare_and_append-recorded ledger_id key e input j h = elim (compare_and_append-cases input j) [
  | inr (same, refused) ↦ rw same h
  | inl (free, same, done) ↦
      let own = to_idempotency_key input.ledger.ledger_id input.idempotency_key in
      let asked = to_idempotency_key ledger_id key in
      rw (ap (λ r. r.1) done) (elim (Bool-cases (own == asked)) [
        | inl is ↦
            absurd
              (let bad = ap (λ k. get k j.entries_by_idempotency) ((==_iff own asked).0 is) in cc)
        | inr other ↦ get-set own asked input.entry j.entries_by_idempotency ∙ rw other h
      ])
]

append_all-recorded :
    (ledger_id key : String) (e : SignedAuditEntry) (inputs : List AppendInput) (j : Journal)
    → get_by_idempotency_key ledger_id key j ≡ some e
    → get_by_idempotency_key ledger_id key (append_all inputs j) ≡ some e
unfolding append_all
append_all-recorded ledger_id key e [] j h = h
append_all-recorded ledger_id key e (input ∷ inputs) j h =
    append_all-recorded ledger_id key e inputs (compare_and_append input j).1
      (compare_and_append-recorded ledger_id key e input j h)

-- After an append that was answered `appended` and any appends that follow, an append under the same
-- ledger id and key changes nothing: it answers with the first entry, as a duplicate if its event is the
-- same and as an idempotency conflict otherwise, whatever ledger epoch, head and entry it names.
pub append_once :
    (first again : AppendInput) (inputs : List AppendInput) (j : Journal)
    → is_appended (compare_and_append first j).0 ≡ true
    → again.ledger.ledger_id ≡ first.ledger.ledger_id
    → again.idempotency_key ≡ first.idempotency_key
    → compare_and_append again (append_all (first ∷ inputs) j)
      ≡ (known first.entry again.entry, append_all (first ∷ inputs) j)
unfolding append_all compare_and_append push_entry
append_once first again inputs j done ledger key =
    let recorded =
      append_all-recorded first.ledger.ledger_id first.idempotency_key first.entry inputs
        (compare_and_append first j).1 now in
    rw (ledger, key, recorded, compare_and_append) refl
  where
    now :
        get_by_idempotency_key first.ledger.ledger_id first.idempotency_key
          (compare_and_append first j).1
        ≡ some first.entry
    now = elim (compare_and_append-cases first j) [
      | inr (same, refused) ↦ absurd (cc)
      | inl (free, same, made) ↦
          let own = to_idempotency_key first.ledger.ledger_id first.idempotency_key in
          rw (ap (λ r. r.1) made)
            (get-set own own first.entry j.entries_by_idempotency ∙ rw (==_refl own) refl)
    ]
