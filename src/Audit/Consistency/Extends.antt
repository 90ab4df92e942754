-- ===== src/Audit/Consistency/Extends.antt =====
-- Steps of `buildConsistencyProof` of src/audit/merkle.ts in the left and in the right half of a tree.
use native.Mathlib.Nat.{pow-suc, one-le-pow}
use kya_os_mcp.Common.{
  ℕ, suc, ◌+◌, ◌-◌, ◌^◌, ◌≤◌, ◌<◌, ◌≡◌, refl, sym, ap, ◌∙◌, Bool, true, false, ◌&&◌, List, [], ◌∷◌,
  ◌++◌, Option, some, arith, length, if◌then◌else◌, nat_eq, list_eq,
}
use kya_os_mcp.Audit.Digests.{Bytes, Digest}
use kya_os_mcp.Audit.Merkle.{
  slice_to, slice_from, node_hash, root_in, largest_power_of_two_less_than,
}
use kya_os_mcp.Audit.Merkle.Directions.{left_sibling, right_sibling}
use kya_os_mcp.Audit.Merkle.Levels.{largest_power_unique}
use kya_os_mcp.Audit.Merkle.Climb.{climb-append}
use kya_os_mcp.Audit.Merkle.Proofs.{
  length-slice_to, slice_to_twice, slice_from_to, root_in-split, root_in-fuel, Halves,
}
use kya_os_mcp.Audit.Consistency.Sides.{sides_above}
use kya_os_mcp.Audit.Consistency.Loop.{join_both}
use kya_os_mcp.Audit.Consistency.Ones.{all_ones, all_ones-inner}
use kya_os_mcp.Audit.Consistency.Prefix.{digits}
use kya_os_mcp.Audit.Consistency.Built.{IsBuilt}

module _ (sha256 : Bytes → Option Digest) where
  pub extend-left :
      (D d k m size inner : ℕ) (complete : Bool) (front path : List Digest) (s x n r : Digest)
      → IsBuilt sha256 D k m inner complete front x n
      → path ≡ front ++ s ∷ []
      → sides_above d (m - 1) (size - 1) ≡ sides_above k (m - 1) (inner - 1) ++ right_sibling ∷ []
      → node_hash sha256 n s ≡ some r
      → IsBuilt sha256 D d m size complete path x r
  extend-left D d k m size inner complete front path s x n r b at sides top = record {
    start = b.start;
    rest = b.rest ++ s ∷ [];
    shape = at ∙ ap (λ p. p ++ s ∷ []) b.shape ∙ appended (complete && all_ones D (m - 1));
    at_old = b.at_old;
    climbs = rw sides (
        climb-append (join_both sha256) (sides_above k (m - 1) (inner - 1)) b.rest right_sibling s
          (x, n) (x, r) (some (b.start, b.start)) b.climbs (rw top refl));
  }
    where
      appended :
          (c : Bool)
          → (if c then b.rest else b.start ∷ b.rest) ++ s ∷ []
            ≡ (if c then b.rest ++ s ∷ [] else b.start ∷ b.rest ++ s ∷ [])
      appended true = refl
      appended false = refl

  pub extend-right :
      (D d k m inner_m size inner : ℕ) (complete : Bool) (front path : List Digest)
      (s o x n r : Digest)
      → IsBuilt sha256 D k inner_m inner false front o n
      → all_ones D (m - 1) ≡ false
      → path ≡ front ++ s ∷ []
      → sides_above d (m - 1) (size - 1)
        ≡ sides_above k (inner_m - 1) (inner - 1) ++ left_sibling ∷ []
      → node_hash sha256 s o ≡ some x
      → node_hash sha256 s n ≡ some r
      → IsBuilt sha256 D d m size complete path x r
  extend-right D d k m inner_m size inner complete front path s o x n r b ones at sides old new =
      record {
        start = b.start;
        rest = b.rest ++ s ∷ [];
        shape =
            at
            ∙ ap (λ p. p ++ s ∷ []) b.shape
            ∙ sym (
                ap (λ c. if c then b.rest ++ s ∷ [] else b.start ∷ b.rest ++ s ∷ [])
                  (never complete));
        at_old = λ h. absurd (let bad = sym (never complete) ∙ h in cc);
        climbs = rw sides (
            climb-append (join_both sha256) (sides_above k (inner_m - 1) (inner - 1)) b.rest
              left_sibling s (o, n) (x, r) (some (b.start, b.start)) b.climbs (rw (old, new) refl));
      }
    where
      never : (c : Bool) → (c && all_ones D (m - 1)) ≡ false
      never true = ones
      never false = refl

  module _ {f : ℕ} {leaves : List Digest} {r : Digest} (h : Halves sha256 f leaves r) where
    -- The old root, where the old tree ends in the right half.
    pub old_root_right :
        (m : ℕ) (o : Digest)
        → 2 ^ h.depth < m
        → m < length leaves
        → root_in sha256 f (slice_to (m - 2 ^ h.depth) (slice_from (2 ^ h.depth) leaves)) ≡ some o
        → root_in sha256 (suc f) (slice_to m leaves) ≡ node_hash sha256 h.left_root o
    old_root_right m o outside inside at =
        let high = h.high in
        let some_pow = one-le-pow h.depth 2 (omega arith) in
        let sizes = length-slice_to m leaves (omega arith) in
        root_in-split sha256 f (slice_to m leaves) (2 ^ h.depth) h.left_root o (omega arith)
          (ap largest_power_of_two_less_than sizes
            ∙ largest_power_unique m h.depth outside (omega arith))
          (ap (root_in sha256 f) (slice_to_twice (2 ^ h.depth) m leaves (omega arith)) ∙ h.left_at)
          (ap (root_in sha256 f) (slice_from_to (2 ^ h.depth) m leaves (omega arith)) ∙ at)

    pub old_root_left :
        (m : ℕ)
        → m ≤ 2 ^ h.depth
        → length leaves ≤ suc f
        → root_in sha256 f (slice_to m (slice_to (2 ^ h.depth) leaves))
          ≡ root_in sha256 (suc f) (slice_to m leaves)
    old_root_left m inside fuel =
        let low = h.low in
        let sizes = length-slice_to m leaves (omega arith) in
        ap (root_in sha256 f) (slice_to_twice m (2 ^ h.depth) leaves inside)
        ∙ root_in-fuel sha256 f (suc f) (slice_to m leaves) (omega arith) (omega arith)

    pub ones_right :
        (D m : ℕ)
        → length leaves ≤ 2 ^ D
        → 2 ^ h.depth < m
        → m < length leaves
        → all_ones D (m - 1) ≡ false
    ones_right D m size outside inside =
        let high = h.high in
        let pow = pow-suc 2 h.depth in
        let p : m - 2 ^ h.depth - 1 + 2 ^ h.depth ≡ m - 1 = omega arith in
        let deep = digits sha256 h D m size in
        rw p at (all_ones-inner D h.depth (m - 2 ^ h.depth - 1) (omega arith) (omega arith))
