-- ===== src/Audit/Consistency/Sound.antt =====
-- What an accepted consistency proof shows.
use kya_os_mcp.Common.{
  and_right, ℕ, ◌-◌, ◌≤◌, ◌<◌, ◌≡◌, refl, sym, ap, ◌∙◌, inl, inr, true, ◌&&◌, ◌||◌, List, [], ◌∷◌,
  Option, none, some, arith, ltb, length, Bool-cases, nat_eq, list_eq, ◌==◌, ==_iff, All,
}
use kya_os_mcp.Audit.Digests.{Bytes, Digest}
use kya_os_mcp.Audit.Merkle.{slice_to, root_in, root, AuditConsistencyVerification, validate_size}
use kya_os_mcp.Audit.Merkle.Directions.{directions}
use kya_os_mcp.Audit.Merkle.Climb.{climb, holds, loop-climb}
use kya_os_mcp.Audit.Merkle.Inclusion.Messages.{tree_messages, IsUnique}
use kya_os_mcp.Audit.Merkle.Proofs.{lt_two_pow, length-slice_to, slice_to_all, root_in-fuel}
use kya_os_mcp.Audit.Consistency.{
  halve_while_odd, consistency_loop, consistency_start, verify_consistency,
}
use kya_os_mcp.Audit.Consistency.Prefix.{climb-prefix}
use kya_os_mcp.Audit.Consistency.Sides.{sides_above, Halved, halve_while_odd-Halved}
use kya_os_mcp.Audit.Consistency.Loop.{join_both, are_roots, consistency_loop-IsLoop}

module _ (sha256 : Bytes → Option Digest) where
  roots-some :
      (o : Option (Digest × Digest)) (old_root new_root : Digest)
      → holds (join_both sha256) (are_roots sha256 old_root new_root) o ≡ true
      → o ≡ some (old_root, new_root)
  roots-some none old_root new_root h = absurd (cc)
  roots-some (some (x, y)) old_root new_root h =
      let same : x ≡ old_root = ground (arith, ==_iff x old_root) in
      let same' : y ≡ new_root = ground (arith, ==_iff y new_root) in rw (same, same') refl

  -- An accepted run starts at some digest and climbs to both roots.
  started :
      (d old new : ℕ) (nodes : ℕ × ℕ) (path : List Digest) (old_root new_root : Digest)
      → Halved d old new nodes
      → consistency_start sha256 path nodes old_root new_root ≡ true
      → (start : Digest) × (rest : List Digest) × (climb
            (join_both sha256)
            (sides_above d old new)
            rest
            (some (start, start))
          ≡ some (old_root, new_root))
  unfolding consistency_start
  started d old new nodes path old_root new_root h run = elim (Bool-cases (nodes.0 == 0)) [
    | inl z ↦ (old_root, path, climbs path old_root (rw (z, consistency_start) at run))
    | inr nz ↦
        elim path
            as (λ path.
              consistency_start sha256 path nodes old_root new_root ≡ true
              → (start : Digest) × (rest : List Digest) × (climb (join_both sha256)
                    (sides_above d old new) rest (some (start, start))
                  ≡ some (old_root, new_root))) [
                    | [] ↦ λ run. absurd (let bad = rw (nz, consistency_start) at run in cc)
                    | first ∷ rest ↦
                        λ run. (first, rest, climbs rest first (rw (nz, consistency_start) at run))
                  ]
          run
  ]
    where
      climbs :
          (rest : List Digest) (start : Digest)
          → consistency_loop sha256 rest nodes.0 nodes.1 (some (start, start)) old_root new_root
            ≡ true
          → climb (join_both sha256) (sides_above d old new) rest (some (start, start))
            ≡ some (old_root, new_root)
      climbs rest start looped =
          ap (λ s. climb (join_both sha256) s rest (some (start, start))) (sym h.sides)
          ∙ roots-some
              (climb (join_both sha256) (directions d nodes.0 nodes.1) rest (some (start, start)))
              old_root new_root
              (sym (
                  loop-climb (join_both sha256) (consistency_loop-IsLoop sha256 old_root new_root) d
                    rest nodes.0 nodes.1 (some (start, start)) h.ordered h.small)
                ∙ looped)

  -- What `verifyConsistency` has checked before its loops.
  data Accepted (input : AuditConsistencyVerification) : Type 0 where
    same_size : input.old_size ≡ input.new_size → input.old_root ≡ input.new_root → Accepted input
    grown :
        1 ≤ input.old_size
        → input.old_size < input.new_size
        → consistency_start sha256 input.audit_path
            (halve_while_odd (input.old_size - 1) (input.old_size - 1) (input.new_size - 1))
            input.old_root
            input.new_root
          ≡ true
        → Accepted input

  accepted :
      (input : AuditConsistencyVerification)
      → verify_consistency sha256 input ≡ true
      → Accepted input
  unfolding verify_consistency
  accepted input h =
      elim (Bool-cases (validate_size input.old_size && validate_size input.new_size)) [
        | inr big ↦ absurd (let bad = rw (big, verify_consistency) at h in cc)
        | inl small ↦ elim (Bool-cases (input.old_size == 0 || ltb input.new_size input.old_size)) [
          | inl out ↦ absurd (let bad = rw (small, out, verify_consistency) at h in cc)
          | inr inside ↦ elim (Bool-cases (input.old_size == input.new_size)) [
            | inl equal ↦
                let both = rw (small, inside, equal, verify_consistency) at h in
                same_size ((==_iff input.old_size input.new_size).0 equal) (
                  (==_iff input.old_root input.new_root).0 (
                    and_right (length input.audit_path == 0) (input.old_root == input.new_root)
                      both))
            | inr more ↦
                grown (ground arith) (ground arith)
                  (rw (small, inside, more, verify_consistency) at h)
          ]
        ]
      ]

  -- Against the root of a tree and its size, when no message hashed for that root has its hash in
  -- common with another: an accepted consistency proof names the root of the tree's first
  -- `oldSize` leaves, so that the new tree extends the old one.
  pub verify_consistency_sound :
      (leaves : List Digest) (input : AuditConsistencyVerification)
      → root sha256 leaves ≡ some input.new_root
      → input.new_size ≡ length leaves
      → All (IsUnique sha256) (tree_messages sha256 (length leaves) leaves)
      → verify_consistency sha256 input ≡ true
      → root sha256 (slice_to input.old_size leaves) ≡ some input.old_root
  unfolding root
  verify_consistency_sound leaves input hashed size u h = elim (accepted input h) [
    | same_size sizes roots ↦
        let whole : slice_to input.old_size leaves ≡ leaves =
          ap (λ n. slice_to n leaves) (sizes ∙ size) ∙ slice_to_all leaves in
        ap (λ l. root_in sha256 (length l) l) whole ∙ hashed ∙ ap some (sym roots)
    | grown pos more run ↦
        let fits = lt_two_pow (length leaves) in
        let run' = rw size at run in
        let more' : input.old_size < length leaves = omega arith in
        let (start, rest, climbed) =
          started (length leaves) (input.old_size - 1) (length leaves - 1) _ input.audit_path
            input.old_root input.new_root
            (halve_while_odd-Halved (length leaves) (input.old_size - 1) (input.old_size - 1)
              (length leaves - 1) (omega arith) (omega arith) (omega arith))
            run' in
        let found =
          climb-prefix sha256 (length leaves) (length leaves) leaves input.old_size input.new_root
            start input.old_root rest (omega arith) (omega arith) pos (omega arith)
            (λ e. absurd (omega arith)) hashed u climbed in
        let sizes = length-slice_to input.old_size leaves (omega arith) in
        root_in-fuel sha256 (length (slice_to input.old_size leaves)) (length leaves)
          (slice_to input.old_size leaves) (omega arith) (omega arith)
        ∙ found
  ]
