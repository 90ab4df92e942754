-- ===== src/Audit/Consistency/Loop.antt =====
-- The loop of `verifyConsistency` of src/audit/merkle.ts climbs with both roots.
use kya_os_mcp.Common.{
  ℕ, ◌≡◌, refl, Bool, false, ◌&&◌, List, [], ◌∷◌, Option, none, some, nat_eq, list_eq, ◌==◌,
}
use kya_os_mcp.Audit.Digests.{Bytes, Digest}
use kya_os_mcp.Audit.Merkle.{node_hash}
use kya_os_mcp.Audit.Merkle.Directions.{Side, left_sibling, right_sibling}
use kya_os_mcp.Audit.Merkle.Climb.{IsLoop}
use kya_os_mcp.Audit.Consistency.{Calculated, both, consistency_loop}

module _ (sha256 : Bytes → Option Digest) where
  -- One level up: a sibling on the right is not part of the old tree.
  abbrev pub join_both : Side → Digest → Digest × Digest → Calculated
  join_both left_sibling sibling (old, new) =
      both (node_hash sha256 sibling old) (node_hash sha256 sibling new)
  join_both right_sibling sibling (old, new) = both (some old) (node_hash sha256 new sibling)

  abbrev pub are_roots : Digest → Digest → Digest × Digest → Bool
  are_roots old_root new_root (old, new) = old == old_root && new == new_root

  pub consistency_loop-IsLoop :
      (old_root new_root : Digest)
      → IsLoop join_both
          (are_roots old_root new_root)
          (λ path position last o. consistency_loop sha256 path position last o old_root new_root)
  unfolding consistency_loop
  consistency_loop-IsLoop old_root new_root = record {
    failed = fails;
    ended = λ position last (old, new). refl;
    stepped = λ s path position last (old, new). refl;
  }
    where
      fails :
          (path : List Digest) (position last : ℕ)
          → consistency_loop sha256 path position last none old_root new_root ≡ false
      fails [] position last = refl
      fails (s ∷ path) position last = refl
