-- ===== src/Audit/Journal/Tests.antt =====
-- One ledger, and two writers.
use kya_os_mcp.Common.{◌≡◌, refl, [], ◌∷◌, none, String, string_eq, list_eq, nat_eq}
use kya_os_mcp.Common.Map.{get, set}
use kya_os_mcp.Text.{codes}
use kya_os_mcp.Audit.Journal.{
  AuditLedgerRef, SignedAuditEntry, AppendInput, empty_journal, heads_equal, snapshot, push_entry,
  known, compare_and_append,
}
use kya_os_mcp.Audit.Journal.Appends.{
  append_all, accepted, append_all-snapshot, IsHeaded, append_all-IsHeaded,
}
use kya_os_mcp.Audit.Journal.Once.{append_once}

abbrev ledger : AuditLedgerRef
ledger = record { ledger_id = "l"; ledger_epoch_id = "1" }

abbrev entry : String → SignedAuditEntry
entry digest = record { sequence = codes "1"; entry_digest = digest; event_digest = digest }

abbrev writing : String → String → AppendInput
writing key digest = record {
  ledger = ledger;
  expected_head = none;
  entry = entry digest;
  idempotency_key = key;
}

append_all-snapshot_example :
    snapshot ledger (append_all (writing "k" "a" ∷ writing "k2" "b" ∷ []) empty_journal)
    ≡ entry "a" ∷ []
unfolding append_all accepted compare_and_append push_entry heads_equal snapshot get set
append_all-snapshot_example =
    append_all-snapshot ledger (writing "k" "a" ∷ writing "k2" "b" ∷ []) empty_journal

append_all-IsHeaded_example : IsHeaded (append_all (writing "k" "a" ∷ []) empty_journal)
unfolding snapshot get
append_all-IsHeaded_example = append_all-IsHeaded (writing "k" "a" ∷ []) empty_journal (λ other. tt)

append_once_example :
    compare_and_append
      (writing "k" "b")
      (append_all (writing "k" "a" ∷ writing "k2" "c" ∷ []) empty_journal)
    ≡ (
      known (entry "a") (entry "b"),
      append_all (writing "k" "a" ∷ writing "k2" "c" ∷ []) empty_journal,
    )
unfolding compare_and_append get
append_once_example =
    append_once (writing "k" "a") (writing "k" "b") (writing "k2" "c" ∷ []) empty_journal refl refl
      refl
