-- ===== src/Audit/Journal.antt =====
-- `MemoryAuditJournal` of src/audit/providers/memory-journal.ts. Of an entry the fields that the journal
-- reads; a sequence is the text of a number.
pub mod Appends
pub mod Once
mod Tests
use kya_os_mcp.Common.{
  ℕ, ◌+◌, Bool, true, false, ◌&&◌, not, List, [], ◌∷◌, ◌++◌, Option, none, some, String, leb, ◌==◌,
  string_eq, list_eq, nat_eq, if◌then◌else◌,
}
use kya_os_mcp.Common.Map.{Map, get, set}
use kya_os_mcp.Text.{Text, codes}
use kya_os_mcp.Card.Decimal.{big_int}

pub record AuditLedgerRef : Type 0 where
  pub ledger_id : String
  pub ledger_epoch_id : String

pub record AuditHead : Type 0 where
  pub ledger_id : String
  pub ledger_epoch_id : String
  pub sequence : Text
  pub entry_digest : String

pub record SignedAuditEntry : Type 0 where
  pub sequence : Text
  pub entry_digest : String
  pub event_digest : String

pub data AuditAppendResult : Type 0 where
  appended duplicate idempotency_conflict : SignedAuditEntry → AuditAppendResult
  head_conflict : Option AuditHead → AuditAppendResult

pub record AuditRangeQuery : Type 0 where
  pub ledger : AuditLedgerRef
  pub after_sequence : Option Text
  pub limit : Option ℕ

pub record AppendInput : Type 0 where
  pub ledger : AuditLedgerRef
  pub expected_head : Option AuditHead
  pub entry : SignedAuditEntry
  pub idempotency_key : String

pub record Journal : Type 0 where
  pub entries_by_ledger : Map Text (List SignedAuditEntry)
  pub entries_by_idempotency : Map Text SignedAuditEntry
  pub heads : Map Text AuditHead

abbrev pub empty_journal : Journal
empty_journal = record { entries_by_ledger = []; entries_by_idempotency = []; heads = [] }

abbrev pub ledger_key : AuditLedgerRef → Text
ledger_key ledger = codes ledger.ledger_id ++ 0 ∷ codes ledger.ledger_epoch_id

abbrev pub to_idempotency_key : String → String → Text
to_idempotency_key ledger_id key = codes ledger_id ++ 0 ∷ codes key

unfoldable pub heads_equal : Option AuditHead → Option AuditHead → Bool
heads_equal none none = true
heads_equal (some left) (some right) =
    left.ledger_id == right.ledger_id
    && (left.ledger_epoch_id == right.ledger_epoch_id
        && (left.sequence == right.sequence && left.entry_digest == right.entry_digest))
heads_equal _ _ = false

abbrev pub get_head : AuditLedgerRef → Journal → Option AuditHead
get_head ledger j = get (ledger_key ledger) j.heads

abbrev pub get_by_idempotency_key : String → String → Journal → Option SignedAuditEntry
get_by_idempotency_key ledger_id key j =
    get (to_idempotency_key ledger_id key) j.entries_by_idempotency

abbrev pub or_empty : Option (List SignedAuditEntry) → List SignedAuditEntry
or_empty none = []
or_empty (some entries) = entries

unfoldable pub snapshot : AuditLedgerRef → Journal → List SignedAuditEntry
snapshot ledger j = or_empty (get (ledger_key ledger) j.entries_by_ledger)

abbrev pub head_of : AuditLedgerRef → SignedAuditEntry → AuditHead
head_of ledger entry = record {
  ledger_id = ledger.ledger_id;
  ledger_epoch_id = ledger.ledger_epoch_id;
  sequence = entry.sequence;
  entry_digest = entry.entry_digest;
}

unfoldable pub push_entry : AppendInput → Journal → Journal
unfolding snapshot
push_entry input j = record {
  entries_by_ledger =
      set (ledger_key input.ledger) (snapshot input.ledger j ++ input.entry ∷ [])
        j.entries_by_ledger;
  entries_by_idempotency =
      set (to_idempotency_key input.ledger.ledger_id input.idempotency_key) input.entry
        j.entries_by_idempotency;
  heads = set (ledger_key input.ledger) (head_of input.ledger input.entry) j.heads;
}

-- The answer for a key that was used.
abbrev pub known : SignedAuditEntry → SignedAuditEntry → AuditAppendResult
known existing entry =
    if existing.event_digest == entry.event_digest
    then duplicate existing
    else idempotency_conflict existing

unfoldable pub compare_and_append : AppendInput → Journal → AuditAppendResult × Journal
unfolding heads_equal push_entry
compare_and_append input j =
    elim (get_by_idempotency_key input.ledger.ledger_id input.idempotency_key j) [
      | some existing ↦ (known existing input.entry, j)
      | none ↦
          if not (heads_equal input.expected_head (get_head input.ledger j))
          then (head_conflict (get_head input.ledger j), j)
          else (appended input.entry, push_entry input j)
    ]

abbrev pub is_skipped : Option Text → SignedAuditEntry → Bool
is_skipped none entry = false
is_skipped (some after) entry = leb (big_int 0 entry.sequence) (big_int 0 after)

abbrev is_full : Option ℕ → ℕ → Bool
is_full none yielded = false
is_full (some limit) yielded = leb limit yielded

-- The loop, with the number of entries yielded.
unfoldable pub range_from :
    Option Text → Option ℕ → ℕ → List SignedAuditEntry → List SignedAuditEntry
range_from after limit yielded [] = []
range_from after limit yielded (entry ∷ entries) =
    let counted = if is_skipped after entry then yielded else yielded + 1 in
    let rest = range_from after limit counted entries in
    if is_skipped after entry then rest else (if is_full limit yielded then [] else entry ∷ rest)

unfoldable pub read_range : AuditRangeQuery → Journal → List SignedAuditEntry
unfolding range_from snapshot
read_range query j = range_from query.after_sequence query.limit 0 (snapshot query.ledger j)
