-- ===== src/Audit/Consistency/Complete.antt =====
-- Every old size of a tree has a consistency proof, and it is accepted.
use kya_os_mcp.Common.{
  ℕ, ◌-◌, ◌^◌, ◌≤◌, ◌<◌, ◌≡◌, refl, sym, ap, ◌∙◌, inl, inr, true, false, List, [], ◌∷◌, Option,
  some, arith, ltb, leb_of_le, nat_beq_of_lt, length, All, Bool-cases, nat_eq, list_eq, ◌==◌,
  ==_iff, ==_refl,
}
use kya_os_mcp.Audit.Digests.{Bytes, Digest}
use kya_os_mcp.Audit.Merkle.{slice_to, root_in, root, max_safe_integer}
use kya_os_mcp.Audit.Merkle.Directions.{directions}
use kya_os_mcp.Audit.Merkle.Climb.{climb, holds, loop-climb}
use kya_os_mcp.Audit.Merkle.Proofs.{
  lt_two_pow, length-slice_to, All-slice_to, slice_to_all, root_in-fuel,
}
use kya_os_mcp.Audit.Merkle.Inclusion.Complete.{IsDigest, IsHasher, root_in-total}
use kya_os_mcp.Audit.Consistency.{
  consistency_loop, consistency_proof, consistency_start, verify_consistency, halve_while_odd,
}
use kya_os_mcp.Audit.Consistency.Sides.{halve_while_odd-Halved}
use kya_os_mcp.Audit.Consistency.Loop.{join_both, are_roots, consistency_loop-IsLoop}
use kya_os_mcp.Audit.Consistency.Ones.{all_ones, halved-all_ones}
use kya_os_mcp.Audit.Consistency.Built.{IsBuilt}
use kya_os_mcp.Audit.Consistency.Made.{built, build-total}

not_ltb : (a b : ℕ) → b ≤ a → ltb a b ≡ false
not_ltb a b h = ground arith

module _ (sha256 : Bytes → Option Digest) where
  roots_met :
      (o : Option (Digest × Digest)) (x r : Digest)
      → o ≡ some (x, r)
      → holds (join_both sha256) (are_roots sha256 x r) o ≡ true
  roots_met o x r at = rw (at, ==_refl x, ==_refl r) refl

  -- A built proof is accepted where the loops start.
  start_accepts :
      (d m size : ℕ) (path : List Digest) (x r : Digest)
      → IsBuilt sha256 d d m size true path x r
      → m - 1 ≤ size - 1
      → size - 1 < 2 ^ d
      → consistency_start sha256 path (halve_while_odd (m - 1) (m - 1) (size - 1)) x r ≡ true
  unfolding consistency_start
  start_accepts d m size path x r b le lt =
      let nodes = halve_while_odd (m - 1) (m - 1) (size - 1) in
      let ones = halved-all_ones d (m - 1) (m - 1) (size - 1) (omega arith) (omega arith) in
      elim (Bool-cases (nodes.0 == 0)) [
        | inl z ↦
            let all : all_ones d (m - 1) ≡ true = sym ones ∙ z in
            let whole : path ≡ b.rest = b.shape ∙ rw all refl in
            rw (z, whole) (rw (b.at_old all) at looped)
        | inr nz ↦
            let some_above : all_ones d (m - 1) ≡ false = sym ones ∙ nz in
            let first : path ≡ b.start ∷ b.rest = b.shape ∙ rw some_above refl in
            rw (first, nz) looped
      ]
    where
      looped :
          consistency_loop sha256 b.rest
            (halve_while_odd (m - 1) (m - 1) (size - 1)).0
            (halve_while_odd (m - 1) (m - 1) (size - 1)).1
            (some (b.start, b.start))
            x
            r
          ≡ true
      looped =
          let h = halve_while_odd-Halved d (m - 1) (m - 1) (size - 1) le lt (omega arith) in
          loop-climb (join_both sha256) (consistency_loop-IsLoop sha256 x r) d b.rest
            (halve_while_odd (m - 1) (m - 1) (size - 1)).0
            (halve_while_odd (m - 1) (m - 1) (size - 1)).1 (some (b.start, b.start)) h.ordered
            h.small
          ∙ roots_met
              (climb (join_both sha256)
                (directions d (halve_while_odd (m - 1) (m - 1) (size - 1)).0
                  (halve_while_odd (m - 1) (m - 1) (size - 1)).1)
                b.rest (some (b.start, b.start)))
              x r
              (ap (λ s. climb (join_both sha256) s b.rest (some (b.start, b.start))) h.sides
                ∙ b.climbs)

  -- For a hasher that answers every message with a well-formed digest, at most 2^53 - 1 well-formed
  -- entry digests and an old size of at least 1 and at most theirs: the old tree and the tree have
  -- roots, there is a consistency proof, and `verifyConsistency` accepts it for the two sizes and
  -- roots.
  pub verify_consistency_complete :
      (leaves : List Digest) (m : ℕ)
      → IsHasher sha256
      → All (IsDigest sha256) leaves
      → length leaves ≤ max_safe_integer
      → 1 ≤ m
      → m ≤ length leaves
      → (path : List Digest) × (x : Digest) × (r : Digest) × (consistency_proof sha256 leaves m
          ≡ some path)
        × (root sha256 (slice_to m leaves) ≡ some x)
        × (root sha256 leaves ≡ some r)
        × (verify_consistency sha256 (record {
          old_size = m;
          old_root = x;
          new_size = length leaves;
          new_root = r;
          audit_path = path;
        })
            ≡ true)
  unfolding root consistency_proof verify_consistency
  verify_consistency_complete leaves m answers ds size pos le =
      let sizes = length-slice_to m leaves le in
      let (r, hashed, _) = root_in-total sha256 (length leaves) leaves answers ds (omega arith) in
      let (x, x_at, _) =
        root_in-total sha256 (length (slice_to m leaves)) (slice_to m leaves) answers
          (All-slice_to (IsDigest sha256) m leaves ds) (omega arith) in
      let (path, made) =
        build-total sha256 (length leaves) leaves m true r answers ds (omega arith) pos le hashed in
      let safe = leb_of_le m max_safe_integer (omega arith) in
      let safe' = leb_of_le (length leaves) max_safe_integer size in
      let there = nat_beq_of_lt m 0 (omega arith) in
      let within : ltb (length leaves) m ≡ false = not_ltb (length leaves) m le in
      elim (Bool-cases (m == length leaves)) [
        | inl same ↦
            let whole : slice_to m leaves ≡ leaves =
              ap (λ n. slice_to n leaves) ((==_iff m (length leaves)).0 same)
              ∙ slice_to_all leaves in
            (
              [],
              r,
              r,
              rw (safe, there, within, same) refl,
              ap (λ l. root_in sha256 (length l) l) whole ∙ hashed,
              hashed,
              rw (safe, safe', there, within, same) (==_refl r),
            )
        | inr short ↦
            let fits = lt_two_pow (length leaves) in
            let b =
              built sha256 (length leaves) (length leaves) (length leaves) leaves m true x r path
                answers ds (omega arith) (omega arith) (omega arith) pos le
                (λ e. absurd (let bad = (==_iff m (length leaves)).1 e in cc)) hashed
                (root_in-fuel sha256 (length leaves) (length (slice_to m leaves))
                    (slice_to m leaves) (omega arith) (omega arith)
                  ∙ x_at)
                made in
            (
              path,
              x,
              r,
              rw (safe, there, within, short) made,
              x_at,
              hashed,
              rw (safe, safe', there, within, short)
                  (start_accepts (length leaves) m (length leaves) path x r b (omega arith)
                    (omega arith)),
            )
      ]
