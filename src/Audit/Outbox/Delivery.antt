-- ===== src/Audit/Outbox/Delivery.antt =====
-- An item of src/audit/providers/outbox.ts and its acknowledgement.
use kya_os_mcp.Common.{
  ◌≡◌, refl, sym, ap, ◌∙◌, inl, inr, false, List, [], ◌∷◌, Option, none, some, some-injective,
  String, arith, ◌==◌, string_eq, list_eq, nat_eq, ==_iff, ==_refl, Bool-cases, Option-cases,
  Result, ok, err, All,
}
use kya_os_mcp.Common.Map.{
  Map, get, set, delete, get-set, get-delete, IsMap, set-IsMap, delete-IsMap,
}
use kya_os_mcp.Text.{Text}
use kya_os_mcp.Audit.Outbox.{
  Submission, AuditOutboxItem, ItemName, by_key, by_event, OutboxError, storage_key,
  audit_outbox_item_key, matches, only_key, stored_key, deliver_stored, mark_delivered, failed,
  fail_stored, mark_failed, same_submission, enqueue,
}

pub data OutboxCall (J : Type 0) : Type 0 where
  enqueues : AuditOutboxItem J → OutboxCall J
  delivers : ItemName → OutboxCall J
  fails : ItemName → OutboxCall J

module _ {J : Type 0} where
  matches-none :
      (event : String) (key : Text) (items : Map Text (AuditOutboxItem J))
      → get key items ≡ none
      → get key (matches event items) ≡ none
  unfolding get
  matches-none event key [] h = refl
  matches-none event key ((k, item) ∷ items) h = ground (arith, matches-none event key items)

  -- An item of another event is not among the matches.
  matches-other :
      (event : String) (key : Text) (i : AuditOutboxItem J) (items : Map Text (AuditOutboxItem J))
      → IsMap items
      → get key items ≡ some i
      → (i.event_id == event) ≡ false
      → get key (matches event items) ≡ none
  unfolding get
  matches-other event key i [] once at other = absurd (cc)
  matches-other event key i ((k, item) ∷ items) (fresh, once) at other =
      elim (Bool-cases (k == key)) [
        | inl same ↦
            let mine : item ≡ i = some-injective (rw (same, get) at at) in
            let gone : get key items ≡ none =
              ap (λ x. get x items) (sym ((==_iff k key).0 same)) ∙ fresh in
            let unlike : (item.event_id == event) ≡ false =
              ap (λ x. x.event_id == event) mine ∙ other in
            rw unlike (matches-none event key items gone)
        | inr apart ↦
            let rest = matches-other event key i items once (rw (apart, get) at at) other in
            elim (Bool-cases (item.event_id == event)) [
              | inl kept ↦ rw (kept, apart, get) rest
              | inr left_out ↦ rw left_out rest
            ]
      ]

  only_key-other :
      (key k : Text) (found : Map Text (AuditOutboxItem J))
      → get key found ≡ none
      → only_key found ≡ ok (some k)
      → (k == key) ≡ false
  unfolding get
  only_key-other key k [] h is = absurd (cc)
  only_key-other key k ((j, item) ∷ []) h is = elim (Bool-cases (k == key)) [
    | inr apart ↦ apart
    | inl same ↦
        let q : j ≡ k = cc in
        absurd (let bad = ap (λ x. x == key) q ∙ same in let no = rw (bad, get) at h in cc)
  ]
  only_key-other key k ((j, item) ∷ second ∷ others) h is = absurd (cc)

  module _ (canonicalize_json : J → String) where
    unfoldable pub outbox_call :
        OutboxCall J → Map Text (AuditOutboxItem J) → Map Text (AuditOutboxItem J)
    unfolding enqueue mark_delivered mark_failed
    outbox_call (enqueues item) items = (enqueue canonicalize_json item items).1
    outbox_call (delivers name) items = (mark_delivered name items).1
    outbox_call (fails name) items = (mark_failed name items).1

    unfoldable pub outbox_calls :
        List (OutboxCall J) → Map Text (AuditOutboxItem J) → Map Text (AuditOutboxItem J)
    unfolding outbox_call
    outbox_calls [] items = items
    outbox_calls (c ∷ calls) items = outbox_calls calls (outbox_call c items)

  module _ (event : String) (submission : Submission J) (key : Text) where
    -- The item is stored, with its event and what is submitted.
    pub record IsStored (items : Map Text (AuditOutboxItem J)) : Type 0 where
      pub item : AuditOutboxItem J
      pub at : get key items ≡ some item
      pub event_is : item.event_id ≡ event
      pub submission_is : item.submission ≡ submission
      pub once : IsMap items

    -- A call that does not acknowledge the item as delivered.
    abbrev pub IsOthers : OutboxCall J → Type 0
    IsOthers (delivers (by_key k)) = (storage_key k == key) ≡ false
    IsOthers (delivers (by_event e)) = (event == e) ≡ false
    IsOthers _ = Unit

    delete-IsStored :
        (k : Text) (items : Map Text (AuditOutboxItem J))
        → (k == key) ≡ false
        → IsStored items
        → IsStored (delete k items)
    delete-IsStored k items apart h = record {
      item = h.item;
      at = get-delete k key items ∙ rw apart h.at;
      event_is = h.event_is;
      submission_is = h.submission_is;
      once = delete-IsMap k items h.once;
    }

    set-IsStored :
        (k : Text) (i : AuditOutboxItem J) (items : Map Text (AuditOutboxItem J))
        → (k == key) ≡ false
        → IsStored items
        → IsStored (set k i items)
    set-IsStored k i items apart h = record {
      item = h.item;
      at = get-set k key i items ∙ rw apart h.at;
      event_is = h.event_is;
      submission_is = h.submission_is;
      once = set-IsMap k i items h.once;
    }

    fail_stored-IsStored :
        (items : Map Text (AuditOutboxItem J)) (r : Result OutboxError (Option Text))
        → IsStored items
        → IsStored (fail_stored items r).1
    unfolding fail_stored
    fail_stored-IsStored items (err e) h = h
    fail_stored-IsStored items (ok none) h = h
    fail_stored-IsStored items (ok (some k)) h = elim (Option-cases (get k items)) [
      | inl absent ↦ rw (absent, fail_stored) h
      | inr (i, there) ↦ elim (Bool-cases (k == key)) [
        | inr apart ↦ rw (there, fail_stored) (set-IsStored k (failed i) items apart h)
        | inl same ↦
            let mine : i ≡ h.item =
              some-injective (sym there ∙ ap (λ x. get x items) ((==_iff k key).0 same) ∙ h.at) in
            rw (there, fail_stored)
              (record {
                item = failed i;
                at = get-set k key (failed i) items ∙ rw same refl;
                event_is = ap (λ x. x.event_id) mine ∙ h.event_is;
                submission_is = ap (λ x. x.submission) mine ∙ h.submission_is;
                once = set-IsMap k (failed i) items h.once;
              })
      ]
    ]

    deliver_event-IsStored :
        (e : String) (items : Map Text (AuditOutboxItem J)) (r : Result OutboxError (Option Text))
        → only_key (matches e items) ≡ r
        → (event == e) ≡ false
        → IsStored items
        → IsStored (deliver_stored items r).1
    deliver_event-IsStored e items (err x) is apart h = h
    deliver_event-IsStored e items (ok none) is apart h = h
    deliver_event-IsStored e items (ok (some k)) is apart h =
        delete-IsStored k items
          (only_key-other key k (matches e items)
            (matches-other e key h.item items h.once h.at (ap (λ x. x == e) h.event_is ∙ apart)) is)
          h

    module _ (canonicalize_json : J → String) where
      enqueue-IsStored :
          (item : AuditOutboxItem J) (items : Map Text (AuditOutboxItem J))
          → IsStored items
          → IsStored (enqueue canonicalize_json item items).1
      unfolding enqueue
      enqueue-IsStored item items h =
          let k = storage_key (audit_outbox_item_key item) in
          elim (Option-cases (get k items)) [
            | inr (i, there) ↦
                elim (Bool-cases (same_submission canonicalize_json i.submission item.submission)) [
                  | inl same ↦ rw (there, same, enqueue) h
                  | inr collides ↦ rw (there, collides, enqueue) h
                ]
            | inl absent ↦ elim (Bool-cases (k == key)) [
              | inr apart ↦ rw (absent, enqueue) (set-IsStored k item items apart h)
              | inl same ↦
                  absurd
                    (let bad = ap (λ x. get x items) ((==_iff k key).0 same) in let at = h.at in cc)
            ]
          ]

      outbox_call-IsStored :
          (c : OutboxCall J) (items : Map Text (AuditOutboxItem J))
          → IsOthers c
          → IsStored items
          → IsStored (outbox_call canonicalize_json c items)
      unfolding outbox_call mark_delivered mark_failed stored_key
      outbox_call-IsStored (enqueues item) items o h = enqueue-IsStored item items h
      outbox_call-IsStored (delivers (by_key k)) items o h =
          delete-IsStored (storage_key k) items o h
      outbox_call-IsStored (delivers (by_event e)) items o h =
          deliver_event-IsStored e items (only_key (matches e items)) refl o h
      outbox_call-IsStored (fails name) items o h =
          fail_stored-IsStored items (stored_key name items) h

      outbox_calls-IsStored :
          (calls : List (OutboxCall J)) (items : Map Text (AuditOutboxItem J))
          → All IsOthers calls
          → IsStored items
          → IsStored (outbox_calls canonicalize_json calls items)
      unfolding outbox_calls
      outbox_calls-IsStored [] items o h = h
      outbox_calls-IsStored (c ∷ calls) items (here, there) h =
          outbox_calls-IsStored calls (outbox_call canonicalize_json c items) there
            (outbox_call-IsStored c items here h)

  -- An item that is enqueued under a key that was free stays stored under it with its event and its
  -- submission, whatever is enqueued, delivered or failed afterwards, until the item is acknowledged as
  -- delivered by its own key or by its own event id.
  pub enqueued_item_stays :
      (canonicalize_json : J → String) (item : AuditOutboxItem J) (calls : List (OutboxCall J))
      (items : Map Text (AuditOutboxItem J))
      → IsMap items
      → get (storage_key (audit_outbox_item_key item)) items ≡ none
      → All
          (IsOthers item.event_id item.submission (storage_key (audit_outbox_item_key item)))
          calls
      → IsStored item.event_id item.submission
          (storage_key (audit_outbox_item_key item))
          (outbox_calls canonicalize_json calls (enqueue canonicalize_json item items).1)
  unfolding enqueue
  enqueued_item_stays canonicalize_json item calls items once free others =
      let key = storage_key (audit_outbox_item_key item) in
      outbox_calls-IsStored item.event_id item.submission key canonicalize_json calls
        (enqueue canonicalize_json item items).1 others
        (rw (free, enqueue)
          (record {
            item = item;
            at = get-set key key item items ∙ rw (==_refl key) refl;
            event_is = refl;
            submission_is = refl;
            once = set-IsMap key item items once;
          }))
