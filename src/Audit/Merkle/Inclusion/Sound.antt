-- ===== src/Audit/Merkle/Inclusion/Sound.antt =====
-- What an accepted inclusion proof shows.
use native.Mathlib.Nat.{pow-suc}
use kya_os_mcp.Common.{
  ℕ, zero, suc, ◌-◌, ◌^◌, ◌≤◌, ◌<◌, ◌≡◌, refl, sym, ap, ◌∙◌, inl, inr, true, false, List, [], ◌∷◌,
  Option, none, some, arith, ltb, leb, lt_of_ltb, le_of_ltb, length, get_elem?, Bool-cases, All,
  All-split, ◌==◌, ==_iff, nat_eq, list_eq, ◌&&◌, ◌||◌,
}
use kya_os_mcp.Audit.Digests.{Bytes, Digest}
use kya_os_mcp.Audit.Merkle.{
  slice_to, slice_from, leaf_hash, node_message, root_in, root, build_inclusion_proof,
  AuditInclusionVerification, inclusion_proof, inclusion_loop, validate_size, verify_inclusion,
}
use kya_os_mcp.Audit.Merkle.Directions.{left_sibling, right_sibling, directions, directions-zero}
use kya_os_mcp.Audit.Merkle.Loop.{join, inclusion_loop-IsLoop}
use kya_os_mcp.Audit.Merkle.Climb.{climb, climb-only, climb-last, holds, loop-climb}
use kya_os_mcp.Audit.Merkle.Inclusion.Sides.{build-left, build-right, sides-left, sides-right}
use kya_os_mcp.Audit.Merkle.Inclusion.Messages.{
  present, tree_messages, IsUnique, leaf_hash_unique, node_hash_unique,
}
use kya_os_mcp.Audit.Merkle.Proofs.{
  lt_two_pow, get_elem?-slice_to, get_elem?-slice_from, Halves, halves,
}

module _ (sha256 : Bytes → Option Digest) where
  -- The messages of a tree are those of its parts and the top one.
  pub messages-parts :
      {f : ℕ} {a b : Digest} {rest : List Digest} {r : Digest}
      (h : Halves sha256 f (a ∷ b ∷ rest) r)
      → All (IsUnique sha256) (tree_messages sha256 (suc f) (a ∷ b ∷ rest))
      → All (IsUnique sha256) (present (node_message h.left_root h.right_root))
        × All (IsUnique sha256) (tree_messages sha256 f (slice_to (2 ^ h.depth) (a ∷ b ∷ rest)))
        × All (IsUnique sha256) (tree_messages sha256 f (slice_from (2 ^ h.depth) (a ∷ b ∷ rest)))
  unfolding tree_messages
  messages-parts {f} {a} {b} {rest} h u =
      let (top, below) =
        All-split (IsUnique sha256) _ _ (rw (h.split, h.left_at, h.right_at) at u) in
      let (left, right) = All-split (IsUnique sha256) _ _ below in (top, left, right)

  climb_sound :
      (f d : ℕ) (leaves : List Digest) (m : ℕ) (leaf r : Digest) (path : List Digest)
      → length leaves ≤ 2 ^ d
      → m < length leaves
      → root_in sha256 f leaves ≡ some r
      → All (IsUnique sha256) (tree_messages sha256 f leaves)
      → climb (join sha256) (directions d m (length leaves - 1)) path (leaf_hash sha256 leaf)
        ≡ some r
      → (get_elem? leaves m ≡ some leaf) × (build_inclusion_proof sha256 f leaves m ≡ some path)
  unfolding root_in build_inclusion_proof tree_messages
  climb_sound f d [] m leaf r path size lt hashed u climbed = absurd (omega arith)
  climb_sound f d (x ∷ []) (suc m) leaf r path size lt hashed u climbed = absurd (omega arith)
  climb_sound f d (x ∷ []) zero leaf r path size lt hashed u climbed =
      let (e, top) =
        climb-only (join sha256) path (leaf_hash sha256 leaf) r
          (rw (directions-zero d) at climbed) in
      let same = leaf_hash_unique sha256 x leaf r u hashed top in
      (ap some (sym same), ap some (sym e))
  climb_sound zero d (a ∷ b ∷ rest) m leaf r path size lt hashed u climbed = absurd (cc)
  climb_sound (suc f) d (a ∷ b ∷ rest) m leaf r path size lt hashed u climbed =
      let all : List Digest = a ∷ b ∷ rest in
      let h = halves sha256 f a b rest r hashed in
      let high = pow-suc 2 h.depth in
      let small = h.high in
      let (top, lefts, rights) = messages-parts h u in
      elim (Bool-cases (ltb m (2 ^ h.depth))) [
        | inl left ↦
            let inside = lt_of_ltb m (2 ^ h.depth) left in
            let (front, s, c, at, low, joined) =
              climb-last (join sha256)
                (directions h.depth m (length (slice_to (2 ^ h.depth) all) - 1)) path right_sibling
                r (leaf_hash sha256 leaf) (rw (sides-left sha256 h d m size inside) at climbed) in
            let (same, same') =
              node_hash_unique sha256 h.left_root h.right_root c s r top h.top joined in
            let (found, built) =
              climb_sound f h.depth (slice_to (2 ^ h.depth) all) m leaf h.left_root front
                (omega (arith, h.left_length)) (omega (arith, h.left_length)) h.left_at lefts
                (low ∙ ap some same) in
            (
              sym (get_elem?-slice_to (2 ^ h.depth) m all inside) ∙ found,
              build-left sha256 f a b rest m (2 ^ h.depth) h.split left
                  ∙ rw (built, h.right_at, at, same') refl,
            )
        | inr right ↦
            let outside = le_of_ltb m (2 ^ h.depth) right in
            let (front, s, c, at, low, joined) =
              climb-last (join sha256)
                (directions h.depth (m - 2 ^ h.depth) (length (slice_from (2 ^ h.depth) all) - 1))
                path left_sibling r (leaf_hash sha256 leaf)
                (rw (sides-right sha256 h d m size outside lt) at climbed) in
            let (same, same') =
              node_hash_unique sha256 h.left_root h.right_root s c r top h.top joined in
            let (found, built) =
              climb_sound f h.depth (slice_from (2 ^ h.depth) all) (m - 2 ^ h.depth) leaf
                h.right_root front (omega (arith, h.right_length)) (omega (arith, h.right_length))
                h.right_at rights (low ∙ ap some same') in
            (
              sym (get_elem?-slice_from (2 ^ h.depth) m all outside) ∙ found,
              build-right sha256 f a b rest m (2 ^ h.depth) h.split right
                  ∙ rw (built, h.left_at, at, same) refl,
            )
      ]

  accepted :
      (o : Option Digest) (r : Digest) → holds (join sha256) (λ c. c == r) o ≡ true → o ≡ some r
  accepted none r h = cc
  accepted (some c) r h = ap some ((==_iff c r).0 h)

  -- What `verifyInclusion` has checked before its loop.
  record Checked (input : AuditInclusionVerification) : Type 0 where
    safe : validate_size input.leaf_index ≡ true
    inside : input.leaf_index < input.tree_size
    loop :
        inclusion_loop sha256 input.audit_path input.leaf_index
          (input.tree_size - 1)
          (leaf_hash sha256 input.leaf)
          input.root
        ≡ true

  checked :
      (input : AuditInclusionVerification) → verify_inclusion sha256 input ≡ true → Checked input
  unfolding verify_inclusion
  checked input h =
      elim (Bool-cases (validate_size input.leaf_index && validate_size input.tree_size)) [
        | inr big ↦ absurd (let bad = rw (big, verify_inclusion) at h in cc)
        | inl small ↦
            elim (Bool-cases (input.tree_size == 0 || leb input.tree_size input.leaf_index)) [
              | inl out ↦ absurd (let bad = rw (small, out, verify_inclusion) at h in cc)
              | inr inside ↦ record {
                safe = ground arith;
                inside = ground arith;
                loop = rw (small, inside, verify_inclusion) at h;
              }
            ]
      ]

  proof-inside :
      (leaves : List Digest) (m : ℕ)
      → validate_size m ≡ true
      → m < length leaves
      → inclusion_proof sha256 leaves m ≡ build_inclusion_proof sha256 (length leaves) leaves m
  unfolding inclusion_proof
  proof-inside leaves m h lt =
      let some_leaf : (length leaves == 0) ≡ false = ground arith in
      let inside : leb (length leaves) m ≡ false = ground arith in rw (h, some_leaf, inside) refl

  -- Against the root of a tree and its size, when no message hashed for that root has its hash in
  -- common with another: an accepted inclusion proof is of the leaf that stands at the index, and
  -- its audit path is the one that `inclusionProof` builds.
  pub verify_inclusion_sound :
      (leaves : List Digest) (input : AuditInclusionVerification)
      → root sha256 leaves ≡ some input.root
      → input.tree_size ≡ length leaves
      → All (IsUnique sha256) (tree_messages sha256 (length leaves) leaves)
      → verify_inclusion sha256 input ≡ true
      → (get_elem? leaves input.leaf_index ≡ some input.leaf)
        × (inclusion_proof sha256 leaves input.leaf_index ≡ some input.audit_path)
  unfolding root
  verify_inclusion_sound leaves input hashed size u h =
      let checks = checked input h in
      let inside = checks.inside in
      let lt : input.leaf_index < length leaves = omega arith in
      let fits = lt_two_pow (length leaves) in
      let climbed =
        accepted
          (climb (join sha256) (directions (length leaves) input.leaf_index (length leaves - 1))
            input.audit_path (leaf_hash sha256 input.leaf))
          input.root
          (sym (
              loop-climb (join sha256) (inclusion_loop-IsLoop sha256 input.root) (length leaves)
                input.audit_path input.leaf_index (length leaves - 1) (leaf_hash sha256 input.leaf)
                (omega arith) (omega arith))
            ∙ rw size at checks.loop) in
      let (found, built) =
        climb_sound (length leaves) (length leaves) leaves input.leaf_index input.leaf input.root
          input.audit_path (omega arith) lt hashed u climbed in
      (found, proof-inside leaves input.leaf_index checks.safe lt ∙ built)
