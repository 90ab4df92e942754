-- ===== src/Audit/Tests.antt =====
-- The Merkle tree on two entries, with a hasher that tells their messages apart.
use kya_os_mcp.Common.{
  ℕ, zero, suc, ◌≡◌, refl, inl, inr, true, List, [], ◌∷◌, ◌++◌, Option, some, arith, get_elem?, All,
  Bool-cases, if◌then◌else◌, nat_eq, list_eq, ◌==◌, ==_iff,
}
use kya_os_mcp.Audit.Digests.{Bytes, Digest, algorithm_prefix, digest_bytes}
use kya_os_mcp.Audit.Merkle.{
  root, slice_to, inclusion_proof, verify_inclusion, AuditInclusionVerification,
  AuditConsistencyVerification,
}
use kya_os_mcp.Audit.Merkle.Inclusion.Messages.{tree_messages, IsUnique}
use kya_os_mcp.Audit.Merkle.Inclusion.Complete.{IsHasher, verify_inclusion_complete}
use kya_os_mcp.Audit.Merkle.Inclusion.Sound.{verify_inclusion_sound}
use kya_os_mcp.Audit.Consistency.{consistency_proof, verify_consistency}
use kya_os_mcp.Audit.Consistency.Complete.{verify_consistency_complete}
use kya_os_mcp.Audit.Consistency.Sound.{verify_consistency_sound}

abbrev repeat : ℕ → ℕ → List ℕ
repeat zero c = []
repeat (suc n) c = c ∷ repeat n c

-- The digest whose hex digits are all `c`.
abbrev digest_of : ℕ → Digest
digest_of c = algorithm_prefix ++ repeat 64 c

abbrev entries : List Digest
entries = digest_of 49 ∷ digest_of 50 ∷ []

abbrev first_message : Bytes
first_message = 0 ∷ repeat 32 17

abbrev second_message : Bytes
second_message = 0 ∷ repeat 32 34

abbrev top_message : Bytes
top_message = 1 ∷ repeat 32 51 ++ repeat 32 68

-- Each message's own hex digit, and one for all others.
unfoldable digit : Bytes → ℕ
digit message =
    if message == first_message
    then 51
    else (if message == second_message then 52 else (if message == top_message then 53 else 54))

unfoldable hasher : Bytes → Option Digest
unfolding digit
hasher message = some (digest_of (digit message))

digit-cases :
    (m : Bytes)
    → (digit m ≡ 51 → m ≡ first_message)
      × (digit m ≡ 52 → m ≡ second_message)
      × (digit m ≡ 53 → m ≡ top_message)
unfolding digit
digit-cases m = elim (Bool-cases (m == first_message)) [
  | inl e ↦ (
    λ _. (==_iff m first_message).0 e,
    λ h. absurd (let bad = rw (e, digit) at h in omega arith),
    λ h. absurd (let bad = rw (e, digit) at h in omega arith),
  )
  | inr e ↦ elim (Bool-cases (m == second_message)) [
    | inl e' ↦ (
      λ h. absurd (let bad = rw (e, e', digit) at h in omega arith),
      λ _. (==_iff m second_message).0 e',
      λ h. absurd (let bad = rw (e, e', digit) at h in omega arith),
    )
    | inr e' ↦ elim (Bool-cases (m == top_message)) [
      | inl e'' ↦ (
        λ h. absurd (let bad = rw (e, e', e'', digit) at h in omega arith),
        λ h. absurd (let bad = rw (e, e', e'', digit) at h in omega arith),
        λ _. (==_iff m top_message).0 e'',
      )
      | inr e'' ↦ (
        λ h. absurd (let bad = rw (e, e', e'', digit) at h in omega arith),
        λ h. absurd (let bad = rw (e, e', e'', digit) at h in omega arith),
        λ h. absurd (let bad = rw (e, e', e'', digit) at h in omega arith),
      )
    ]
  ]
]

digit_of-injective :
    (c d : ℕ) → ◌≡◌ {A = Option Digest} (some (digest_of c)) (some (digest_of d)) → c ≡ d
digit_of-injective c d h = cc

entries-IsUnique : All (IsUnique hasher) (tree_messages hasher 2 entries)
unfolding hasher digit kya_os_mcp.Audit.Merkle.largest_power_of_two_less_than
    kya_os_mcp.Audit.Merkle.root_in kya_os_mcp.Audit.Merkle.slice_from slice_to tree_messages
entries-IsUnique = (
  (λ other h. (digit-cases other).2 (digit_of-injective (digit other) 53 h)),
  (
    (λ other h. (digit-cases other).0 (digit_of-injective (digit other) 51 h)),
    ((λ other h. (digit-cases other).1 (digit_of-injective (digit other) 52 h)), tt),
  ),
)

abbrev second_entry : AuditInclusionVerification
second_entry = record {
  leaf = digest_of 50;
  leaf_index = 1;
  tree_size = 2;
  root = digest_of 53;
  audit_path = digest_of 51 ∷ [];
}

abbrev grown_by_one : AuditConsistencyVerification
grown_by_one = record {
  old_size = 1;
  new_size = 2;
  old_root = digest_of 51;
  new_root = digest_of 53;
  audit_path = digest_of 52 ∷ [];
}

entries_root : root hasher entries ≡ some (digest_of 53)
unfolding hasher kya_os_mcp.Audit.Merkle.largest_power_of_two_less_than
    kya_os_mcp.Audit.Merkle.slice_from root slice_to
entries_root = refl

second_accepted : verify_inclusion hasher second_entry ≡ true
unfolding hasher kya_os_mcp.Audit.Merkle.after_left verify_inclusion
second_accepted = refl

growth_accepted : verify_consistency hasher grown_by_one ≡ true
unfolding hasher kya_os_mcp.Audit.Consistency.halve_while_odd verify_consistency
growth_accepted = refl

growth_proved : consistency_proof hasher entries 1 ≡ some (digest_of 52 ∷ [])
unfolding consistency_proof hasher kya_os_mcp.Audit.Merkle.largest_power_of_two_less_than
    kya_os_mcp.Audit.Merkle.slice_from slice_to
growth_proved = refl

verify_inclusion_sound_example :
    (get_elem? entries 1 ≡ some (digest_of 50))
    × (inclusion_proof hasher entries 1 ≡ some (digest_of 51 ∷ []))
verify_inclusion_sound_example =
    verify_inclusion_sound hasher entries second_entry entries_root refl entries-IsUnique
      second_accepted

verify_consistency_sound_example : root hasher (slice_to 1 entries) ≡ some (digest_of 51)
verify_consistency_sound_example =
    verify_consistency_sound hasher entries grown_by_one entries_root refl entries-IsUnique
      growth_accepted

-- A hasher that answers everything alike.
unfoldable flat_hasher : Bytes → Option Digest
flat_hasher message = some (digest_of 54)

flat_hasher-IsHasher : IsHasher flat_hasher
unfolding flat_hasher digest_bytes
flat_hasher-IsHasher message = (digest_of 54, refl, (repeat 32 102, refl))

verify_inclusion_complete_example :
    (path : List Digest) × (r : Digest) × (inclusion_proof flat_hasher entries 1 ≡ some path)
    × (root flat_hasher entries ≡ some r)
    × (verify_inclusion flat_hasher (record {
      leaf = digest_of 50;
      leaf_index = 1;
      tree_size = 2;
      root = r;
      audit_path = path;
    })
        ≡ true)
unfolding digest_bytes
verify_inclusion_complete_example =
    verify_inclusion_complete flat_hasher entries 1 (digest_of 50) flat_hasher-IsHasher
      ((repeat 32 17, refl), ((repeat 32 34, refl), tt)) (omega arith) refl

abbrev three_entries : List Digest
three_entries = entries ++ digest_of 52 ∷ []

verify_consistency_complete_example :
    (path : List Digest) × (x : Digest) × (r : Digest) × (consistency_proof flat_hasher
        three_entries 2
      ≡ some path)
    × (root flat_hasher (slice_to 2 three_entries) ≡ some x)
    × (root flat_hasher three_entries ≡ some r)
    × (verify_consistency flat_hasher
          (record { old_size = 2; old_root = x; new_size = 3; new_root = r; audit_path = path })
        ≡ true)
unfolding digest_bytes
verify_consistency_complete_example =
    verify_consistency_complete flat_hasher three_entries 2 flat_hasher-IsHasher
      ((repeat 32 17, refl), ((repeat 32 34, refl), ((repeat 32 68, refl), tt))) (omega arith)
      (omega arith) (omega arith)
