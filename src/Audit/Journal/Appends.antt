-- ===== src/Audit/Journal/Appends.antt =====
-- The ledgers of src/audit/providers/memory-journal.ts across appends.
use kya_os_mcp.Common.{
  ◌≡◌, refl, sym, ap, ◌∙◌, ◌⊎◌, inl, inr, Bool, true, false, ◌&&◌, List, [], ◌∷◌, ◌++◌, Option,
  none, some, ◌==◌, string_eq, list_eq, nat_eq, ==_iff, Bool-cases, Option-cases, if◌then◌else◌,
}
use mathlib.Core.List.{append-nil, append_assoc}
use kya_os_mcp.Common.Map.{get, get-set}
use kya_os_mcp.Audit.Journal.{
  AuditLedgerRef, AuditHead, SignedAuditEntry, AuditAppendResult, appended, duplicate,
  idempotency_conflict, AppendInput, Journal, ledger_key, heads_equal, get_head,
  get_by_idempotency_key, or_empty, snapshot, head_of, push_entry, compare_and_append,
}

unfoldable pub append_all : List AppendInput → Journal → Journal
unfolding compare_and_append
append_all [] j = j
append_all (input ∷ inputs) j = append_all inputs (compare_and_append input j).1

abbrev pub is_free : AppendInput → Journal → Bool
is_free input j = elim (get_by_idempotency_key input.ledger.ledger_id input.idempotency_key j) [
  | none ↦ true
  | some existing ↦ false
]

abbrev pub is_appended : AuditAppendResult → Bool
is_appended (appended e) = true
is_appended _ = false

-- An append goes through where its key is unused and its expected head is the ledger's; otherwise the
-- journal is left as it was.
pub compare_and_append-cases :
    (input : AppendInput) (j : Journal)
    → ((get_by_idempotency_key input.ledger.ledger_id input.idempotency_key j ≡ none)
        × (heads_equal input.expected_head (get_head input.ledger j) ≡ true)
        × (compare_and_append input j ≡ (appended input.entry, push_entry input j)))
      ⊎ (((compare_and_append input j).1 ≡ j)
          × (is_appended (compare_and_append input j).0 ≡ false))
unfolding compare_and_append
compare_and_append-cases input j =
    elim (Option-cases (get_by_idempotency_key input.ledger.ledger_id input.idempotency_key j)) [
      | inr (e, used) ↦ inr (
          rw (used, compare_and_append)
            (refl, by_event e (e.event_digest == input.entry.event_digest)))
      | inl free ↦ elim (Bool-cases (heads_equal input.expected_head (get_head input.ledger j))) [
        | inl same ↦ inl (free, same, rw (free, same, compare_and_append) refl)
        | inr stale ↦ inr (rw (free, stale, compare_and_append) (refl, refl))
      ]
    ]
  where
    by_event :
        (e : SignedAuditEntry) (b : Bool)
        → is_appended (if b then duplicate e else idempotency_conflict e) ≡ false
    by_event e true = refl
    by_event e false = refl

-- What an append adds to a ledger.
abbrev pub added : Bool → SignedAuditEntry → List SignedAuditEntry
added true e = e ∷ []
added false e = []

snapshot-push_entry :
    (ledger : AuditLedgerRef) (input : AppendInput) (j : Journal)
    → snapshot ledger (push_entry input j)
      ≡ snapshot ledger j ++ added (ledger_key input.ledger == ledger_key ledger) input.entry
unfolding snapshot push_entry
snapshot-push_entry ledger input j =
    elim (Bool-cases (ledger_key input.ledger == ledger_key ledger)) [
      | inl same ↦
          rw
            (
              get-set (ledger_key input.ledger) (ledger_key ledger)
                  (snapshot input.ledger j ++ input.entry ∷ []) j.entries_by_ledger,
              same,
            )
            (ap (λ k. or_empty (get k j.entries_by_ledger) ++ input.entry ∷ [])
              ((==_iff (ledger_key input.ledger) (ledger_key ledger)).0 same))
      | inr other ↦
          rw
            (
              get-set (ledger_key input.ledger) (ledger_key ledger)
                  (snapshot input.ledger j ++ input.entry ∷ []) j.entries_by_ledger,
              other,
            )
            (sym (append-nil (snapshot ledger j)))
    ]

-- The entries of a ledger among appends that were answered `appended`, in order.
unfoldable pub accepted : AuditLedgerRef → List AppendInput → Journal → List SignedAuditEntry
unfolding compare_and_append
accepted ledger [] j = []
accepted ledger (input ∷ inputs) j =
    let (answer, after) = compare_and_append input j in
    added (is_appended answer && ledger_key input.ledger == ledger_key ledger) input.entry
    ++ accepted ledger inputs after

snapshot-compare_and_append :
    (ledger : AuditLedgerRef) (input : AppendInput) (j : Journal)
    → snapshot ledger (compare_and_append input j).1
      ≡ snapshot ledger j
        ++ added
            (is_appended (compare_and_append input j).0
              && ledger_key input.ledger == ledger_key ledger)
            input.entry
snapshot-compare_and_append ledger input j = elim (compare_and_append-cases input j) [
  | inl (free, same, done) ↦
      ap (λ r. snapshot ledger r.1) done
      ∙ snapshot-push_entry ledger input j
      ∙ ap
          (λ r.
            snapshot ledger j
            ++ added (is_appended r.0 && ledger_key input.ledger == ledger_key ledger) input.entry)
          (sym done)
  | inr (same, refused) ↦
      ap (snapshot ledger) same
      ∙ sym (append-nil (snapshot ledger j))
      ∙ ap
          (λ b.
            snapshot ledger j
            ++ added (b && ledger_key input.ledger == ledger_key ledger) input.entry)
          (sym refused)
]

-- After any appends a ledger holds the entries that it held before, and then those among the appends
-- to it that were answered `appended`, in their order.
pub append_all-snapshot :
    (ledger : AuditLedgerRef) (inputs : List AppendInput) (j : Journal)
    → snapshot ledger (append_all inputs j) ≡ snapshot ledger j ++ accepted ledger inputs j
unfolding append_all accepted
append_all-snapshot ledger [] j = sym (append-nil (snapshot ledger j))
append_all-snapshot ledger (input ∷ inputs) j =
    append_all-snapshot ledger inputs (compare_and_append input j).1
    ∙ ap (λ l. l ++ accepted ledger inputs (compare_and_append input j).1)
        (snapshot-compare_and_append ledger input j)
    ∙ append_assoc (snapshot ledger j) _ (accepted ledger inputs (compare_and_append input j).1)

abbrev pub last_entry : List SignedAuditEntry → Option SignedAuditEntry
last_entry [] = none
last_entry (e ∷ []) = some e
last_entry (e ∷ f ∷ entries) = last_entry (f ∷ entries)

last_entry-append :
    (entries : List SignedAuditEntry) (e : SignedAuditEntry)
    → last_entry (entries ++ e ∷ []) ≡ some e
last_entry-append [] e = refl
last_entry-append (f ∷ []) e = refl
last_entry-append (f ∷ g ∷ entries) e = last_entry-append (g ∷ entries) e

abbrev pub IsHeadOf : Option AuditHead → Option SignedAuditEntry → Type 0
IsHeadOf none none = Unit
IsHeadOf (some h) (some e) = (h.sequence ≡ e.sequence) × (h.entry_digest ≡ e.entry_digest)
IsHeadOf _ _ = ⊥

-- Every ledger's head is that of its last entry, and there is none for an empty ledger.
abbrev pub IsHeaded : Journal → Type 0
IsHeaded j =
    (ledger : AuditLedgerRef) → IsHeadOf (get_head ledger j) (last_entry (snapshot ledger j))

push_entry-IsHeaded :
    (input : AppendInput) (j : Journal) → IsHeaded j → IsHeaded (push_entry input j)
unfolding push_entry snapshot
push_entry-IsHeaded input j h ledger =
    elim (Bool-cases (ledger_key input.ledger == ledger_key ledger)) [
      | inl same ↦
          rw
            (
              get-set (ledger_key input.ledger) (ledger_key ledger)
                  (snapshot input.ledger j ++ input.entry ∷ []) j.entries_by_ledger,
              get-set (ledger_key input.ledger) (ledger_key ledger)
                  (head_of input.ledger input.entry) j.heads,
              same,
              last_entry-append (snapshot input.ledger j) input.entry,
            )
            (refl, refl)
      | inr other ↦
          rw
            (
              get-set (ledger_key input.ledger) (ledger_key ledger)
                  (snapshot input.ledger j ++ input.entry ∷ []) j.entries_by_ledger,
              get-set (ledger_key input.ledger) (ledger_key ledger)
                  (head_of input.ledger input.entry) j.heads,
              other,
            )
            (h ledger)
    ]

-- Appends keep every ledger's head that of its last entry, with no head for an empty ledger.
pub append_all-IsHeaded :
    (inputs : List AppendInput) (j : Journal) → IsHeaded j → IsHeaded (append_all inputs j)
unfolding append_all
append_all-IsHeaded [] j h = h
append_all-IsHeaded (input ∷ inputs) j h =
    append_all-IsHeaded inputs (compare_and_append input j).1
      (elim (compare_and_append-cases input j) [
        | inl (free, same, done) ↦ rw (ap (λ r. r.1) done) (push_entry-IsHeaded input j h)
        | inr (same, refused) ↦ rw same h
      ])
