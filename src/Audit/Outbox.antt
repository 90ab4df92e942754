-- ===== src/Audit/Outbox.antt =====
-- `MemoryAuditOutbox` of src/audit/providers/outbox.ts. Canonical JSON is a parameter; a value that is
-- only canonicalized is of any type.
pub mod Delivery
mod Tests
use kya_os_mcp.Common.{
  ℕ, ◌+◌, Bool, true, false, ◌&&◌, ◌||◌, not, List, [], ◌∷◌, ◌++◌, Option, none, some, String, leb,
  ◌==◌, string_eq, option_eq, list_eq, nat_eq, if◌then◌else◌, Result, ok, err, length, keep_if,
}
use kya_os_mcp.Common.Map.{Map, get, set, delete, values}
use kya_os_mcp.Text.{Text, codes}

pub record EncryptedEvidence (J : Type 0) : Type 0 where
  pub ref : J
  pub ciphertext : List ℕ

-- `AuditRecorderSubmission`; `source_id` is the producer event's.
pub record Submission (J : Type 0) : Type 0 where
  pub ledger_id : String
  pub expected_ledger_epoch_id : Option String
  pub source_id : String
  pub producer_event : J
  pub encrypted_evidence : List (EncryptedEvidence J)

pub record AuditOutboxItem (J : Type 0) : Type 0 where
  pub event_id : String
  pub submission : Submission J
  pub enqueued_at : ℕ
  pub attempts : ℕ

pub record AuditOutboxItemKey : Type 0 where
  pub source_id : String
  pub event_id : String

-- What an acknowledgement names: an item's key, or a bare event id.
pub data ItemName : Type 0 where
  by_key : AuditOutboxItemKey → ItemName
  by_event : String → ItemName

pub data OutboxError : Type 0 where
  identity_collision several_sources : OutboxError

abbrev pub storage_key : AuditOutboxItemKey → Text
storage_key key = codes key.source_id ++ 0 ∷ codes key.event_id

-- The loop over the bytes, of which `^` is 0 where they agree.
abbrev same_bytes : List ℕ → List ℕ → Bool
same_bytes (a ∷ left) (b ∷ right) = a == b && same_bytes left right
same_bytes _ _ = true

abbrev or_max : Option ℕ → ℕ
or_max none = 9007199254740991
or_max (some limit) = limit

module _ {J : Type 0} where
  abbrev pub audit_outbox_item_key : AuditOutboxItem J → AuditOutboxItemKey
  audit_outbox_item_key item = record {
    source_id = item.submission.source_id;
    event_id = item.event_id;
  }

  -- The items that have the event id, with the keys that they are stored under.
  abbrev pub matches : String → Map Text (AuditOutboxItem J) → Map Text (AuditOutboxItem J)
  matches event items = keep_if (λ stored. stored.1.event_id == event) items

  abbrev pub only_key : Map Text (AuditOutboxItem J) → Result OutboxError (Option Text)
  only_key [] = ok none
  only_key ((key, item) ∷ []) = ok (some key)
  only_key (first ∷ second ∷ others) = err several_sources

  unfoldable pub stored_key :
      ItemName → Map Text (AuditOutboxItem J) → Result OutboxError (Option Text)
  stored_key (by_key key) items = ok (some (storage_key key))
  stored_key (by_event event) items = only_key (matches event items)

  -- What a call leaves: the items, or a throw that leaves them.
  abbrev pub deliver_stored :
      Map Text (AuditOutboxItem J)
      → Result OutboxError (Option Text)
      → Option OutboxError × Map Text (AuditOutboxItem J)
  deliver_stored items (err e) = (some e, items)
  deliver_stored items (ok none) = (none, items)
  deliver_stored items (ok (some key)) = (none, delete key items)

  unfoldable pub mark_delivered :
      ItemName → Map Text (AuditOutboxItem J) → Option OutboxError × Map Text (AuditOutboxItem J)
  unfolding stored_key
  mark_delivered name items = deliver_stored items (stored_key name items)

  abbrev pub failed : AuditOutboxItem J → AuditOutboxItem J
  failed item = record item { attempts = item.attempts + 1 }

  unfoldable pub fail_stored :
      Map Text (AuditOutboxItem J)
      → Result OutboxError (Option Text)
      → Option OutboxError × Map Text (AuditOutboxItem J)
  fail_stored items (err e) = (some e, items)
  fail_stored items (ok none) = (none, items)
  fail_stored items (ok (some key)) = elim (get key items) [
    | none ↦ (none, items)
    | some item ↦ (none, set key (failed item) items)
  ]

  unfoldable pub mark_failed :
      ItemName → Map Text (AuditOutboxItem J) → Option OutboxError × Map Text (AuditOutboxItem J)
  unfolding stored_key fail_stored
  mark_failed name items = fail_stored items (stored_key name items)

  -- The loop, with the number of items yielded.
  abbrev first_items : ℕ → ℕ → List (AuditOutboxItem J) → List (AuditOutboxItem J)
  first_items limit count [] = []
  first_items limit count (item ∷ items) =
      let rest = first_items limit (count + 1) items in if leb limit count then [] else item ∷ rest

  unfoldable pub pending : Option ℕ → Map Text (AuditOutboxItem J) → List (AuditOutboxItem J)
  pending limit items = first_items (or_max limit) 0 (values items)

  module _ (canonicalize_json : J → String) where
    -- `every` over evidence lists of one length.
    abbrev same_evidence : List (EncryptedEvidence J) → List (EncryptedEvidence J) → Bool
    same_evidence [] right = true
    same_evidence (item ∷ left) [] = false
    same_evidence (item ∷ left) (other ∷ right) =
        canonicalize_json item.ref == canonicalize_json other.ref
        && (length item.ciphertext == length other.ciphertext
            && (same_bytes item.ciphertext other.ciphertext && same_evidence left right))

    unfoldable pub same_submission : Submission J → Submission J → Bool
    same_submission left right =
        left.ledger_id == right.ledger_id
        && (left.expected_ledger_epoch_id == right.expected_ledger_epoch_id
            && (canonicalize_json left.producer_event == canonicalize_json right.producer_event
                && (length left.encrypted_evidence == length right.encrypted_evidence
                    && same_evidence left.encrypted_evidence right.encrypted_evidence)))

    unfoldable pub enqueue :
        AuditOutboxItem J
        → Map Text (AuditOutboxItem J)
        → Option OutboxError × Map Text (AuditOutboxItem J)
    unfolding same_submission
    enqueue item items =
        let key = storage_key (audit_outbox_item_key item) in
        elim (get key items) [
          | some existing ↦
              if same_submission existing.submission item.submission
              then (none, items)
              else (some identity_collision, items)
          | none ↦ (none, set key item items)
        ]
