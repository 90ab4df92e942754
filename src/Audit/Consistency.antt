-- ===== src/Audit/Consistency.antt =====
-- src/audit/merkle.ts: consistency proofs, which show that a tree of entries extends another.
pub mod Sides
pub mod Loop
mod Ones
mod Built
mod Extends
mod Made
pub mod Complete
mod Prefix
pub mod Sound
use kya_os_mcp.Common.{
  ℕ, zero, suc, ◌-◌, ◌/◌, Bool, true, false, ◌&&◌, ◌||◌, not, List, [], ◌∷◌, ◌++◌, Option, none,
  some, ltb, leb, length, if◌then◌else◌, nat_eq, list_eq, ◌==◌,
}
use kya_os_mcp.Audit.Digests.{Bytes, Digest}
use kya_os_mcp.Audit.Merkle.{
  AuditConsistencyVerification, validate_size, is_odd, slice_to, slice_from, extend, and_then,
  after_left, node_hash, root_in, largest_power_of_two_less_than,
}

-- The loop that halves both nodes while the old one is odd. An odd node is at least halved.
unfoldable pub halve_while_odd : ℕ → ℕ → ℕ → ℕ × ℕ
halve_while_odd zero old_node new_node = (old_node, new_node)
halve_while_odd (suc f) old_node new_node =
    let rest = halve_while_odd f (old_node / 2) (new_node / 2) in
    if is_odd old_node then rest else (old_node, new_node)

abbrev pub single : Option Digest → Option (List Digest)
single none = none
single (some r) = some (r ∷ [])

-- The old and the new root as calculated so far.
abbrev pub Calculated : Type 0
Calculated = Option (Digest × Digest)

abbrev pub both : Option Digest → Option Digest → Calculated
both old new = and_then old (λ o. and_then new (λ n. some (o, n)))

module _ (sha256 : Bytes → Option Digest) where
  -- `buildConsistencyProof`, with the depth of recursion it may use.
  unfoldable pub build_consistency_proof : ℕ → ℕ → List Digest → Bool → Option (List Digest)
  unfolding root_in
  build_consistency_proof zero old_size leaves complete_subtree =
      if old_size == length leaves
      then (if complete_subtree then some [] else single (root_in sha256 zero leaves))
      else none
  build_consistency_proof (suc f) old_size leaves complete_subtree =
      let split = largest_power_of_two_less_than (length leaves) in
      let in_left =
        extend (build_consistency_proof f old_size (slice_to split leaves) complete_subtree)
          (root_in sha256 f (slice_from split leaves)) in
      let in_right =
        extend (build_consistency_proof f (old_size - split) (slice_from split leaves) false)
          (root_in sha256 f (slice_to split leaves)) in
      if old_size == length leaves
      then (if complete_subtree then some [] else single (root_in sha256 (suc f) leaves))
      else (if leb old_size split then in_left else in_right)

  unfoldable pub consistency_proof : List Digest → ℕ → Option (List Digest)
  unfolding build_consistency_proof
  consistency_proof leaves old_size =
      if not (validate_size old_size) || (old_size == 0 || ltb (length leaves) old_size)
      then none
      else (if old_size == length leaves
          then some []
          else build_consistency_proof (length leaves) old_size leaves true)

  -- The loop of `verifyConsistency` over the audit path, with the test after it.
  unfoldable pub consistency_loop : List Digest → ℕ → ℕ → Calculated → Digest → Digest → Bool
  unfolding node_hash
  consistency_loop path old_node new_node none old_root new_root = false
  consistency_loop [] old_node new_node (some (old, new)) old_root new_root =
      new_node == 0 && (old == old_root && new == new_root)
  consistency_loop (sibling ∷ path) old_node new_node (some (old, new)) old_root new_root =
      let next = after_left old_node new_node in
      let from_left =
        consistency_loop path (next.0 / 2) (next.1 / 2)
          (both (node_hash sha256 sibling old) (node_hash sha256 sibling new)) old_root new_root in
      let from_right =
        consistency_loop path (old_node / 2) (new_node / 2)
          (both (some old) (node_hash sha256 new sibling)) old_root new_root in
      if new_node == 0
      then false
      else (if is_odd old_node || old_node == new_node then from_left else from_right)

  -- Where both calculations start: at the old root, or at the first digest of the path.
  unfoldable pub consistency_start : List Digest → ℕ × ℕ → Digest → Digest → Bool
  unfolding consistency_loop
  consistency_start path nodes old_root new_root =
      if nodes.0 == 0
      then consistency_loop path nodes.0 nodes.1 (some (old_root, old_root)) old_root new_root
      else elim path [
        | [] ↦ false
        | first ∷ rest ↦
            consistency_loop rest nodes.0 nodes.1 (some (first, first)) old_root new_root
      ]

  unfoldable pub verify_consistency : AuditConsistencyVerification → Bool
  unfolding consistency_start
  verify_consistency input =
      if not (validate_size input.old_size && validate_size input.new_size)
      then false
      else (if input.old_size == 0 || ltb input.new_size input.old_size
          then false
          else (if input.old_size == input.new_size
              then length input.audit_path == 0 && input.old_root == input.new_root
              else consistency_start input.audit_path
                  (halve_while_odd (input.old_size - 1) (input.old_size - 1) (input.new_size - 1))
                  input.old_root input.new_root))
