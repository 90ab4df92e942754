-- ===== src/Audit/Outbox/Tests.antt =====
-- Two sources with one event id.
use kya_os_mcp.Common.{refl, List, [], ◌∷◌, none, String, string_eq, list_eq, nat_eq}
use kya_os_mcp.Common.Map.{get}
use kya_os_mcp.Audit.Outbox.{AuditOutboxItem, by_key, storage_key, audit_outbox_item_key, enqueue}
use kya_os_mcp.Audit.Outbox.Delivery.{
  OutboxCall, enqueues, delivers, fails, outbox_calls, IsStored, enqueued_item_stays,
}

abbrev canonical : String → String
canonical json = json

abbrev item : String → AuditOutboxItem String
item source = record {
  event_id = "e";
  submission = record {
    ledger_id = "l";
    expected_ledger_epoch_id = none;
    source_id = source;
    producer_event = "{}";
    encrypted_evidence = [];
  };
  enqueued_at = 5;
  attempts = 0;
}

abbrev calls : List (OutboxCall String)
calls =
    enqueues (item "b")
    ∷ fails (by_key (audit_outbox_item_key (item "a")))
    ∷ delivers (by_key (audit_outbox_item_key (item "b")))
    ∷ []

enqueued_item_stays_example :
    IsStored "e"
      (item "a").submission
      (storage_key (audit_outbox_item_key (item "a")))
      (outbox_calls canonical calls (enqueue canonical (item "a") []).1)
unfolding get
enqueued_item_stays_example =
    enqueued_item_stays canonical (item "a") calls [] tt refl (tt, (tt, (refl, tt)))
