-- ===== src/Audit/Merkle/Inclusion/Complete.antt =====
-- Every leaf of a tree has an inclusion proof, and it is accepted.
use native.Mathlib.Nat.{pow-suc, one-le-pow}
use kya_os_mcp.Common.{
  ℕ, zero, suc, ◌-◌, ◌^◌, ◌≤◌, ◌<◌, ◌≡◌, refl, sym, ap, ◌∙◌, inl, inr, true, List, [], ◌∷◌, ◌++◌,
  Option, some, arith, ltb, lt_of_ltb, le_of_ltb, leb_of_le, leb_of_lt, nat_beq_of_lt, length,
  get_elem?, Bool-cases, All, ◌==◌, ==_refl, nat_eq, list_eq,
}
use kya_os_mcp.Audit.Digests.{Bytes, Digest, digest_bytes}
use kya_os_mcp.Audit.Merkle.{
  slice_to, slice_from, node_message, leaf_message, leaf_hash, node_hash, root_in, root,
  build_inclusion_proof, inclusion_proof, verify_inclusion, max_safe_integer,
}
use kya_os_mcp.Audit.Merkle.Directions.{left_sibling, right_sibling, directions, directions-zero}
use kya_os_mcp.Audit.Merkle.Loop.{join, inclusion_loop-IsLoop}
use kya_os_mcp.Audit.Merkle.Levels.{largest_power-bounds}
use kya_os_mcp.Audit.Merkle.Climb.{climb, climb-end, climb-append, holds, loop-climb}
use kya_os_mcp.Audit.Merkle.Inclusion.Sides.{build-left, build-right, sides-left, sides-right}
use kya_os_mcp.Audit.Merkle.Proofs.{
  lt_two_pow, root_in-split, get_elem?-lt, length-slice_to, length-slice_from, All-slice_to,
  All-slice_from, get_elem?-slice_to, get_elem?-slice_from, extend-some, halves,
}

module _ (sha256 : Bytes → Option Digest) where
  -- Along a built proof, a leaf's hash climbs to the root.
  climb-built :
      (f d : ℕ) (leaves : List Digest) (m : ℕ) (leaf r : Digest) (path : List Digest)
      → length leaves ≤ 2 ^ d
      → m < length leaves
      → get_elem? leaves m ≡ some leaf
      → root_in sha256 f leaves ≡ some r
      → build_inclusion_proof sha256 f leaves m ≡ some path
      → climb (join sha256) (directions d m (length leaves - 1)) path (leaf_hash sha256 leaf)
        ≡ some r
  unfolding root_in build_inclusion_proof
  climb-built f d [] m leaf r path size lt found hashed built = absurd (omega arith)
  climb-built f d (x ∷ []) (suc m) leaf r path size lt found hashed built = absurd (omega arith)
  climb-built f d (x ∷ []) zero leaf r path size lt found hashed built =
      let e : x ≡ leaf = cc in
      let e' : path ≡ [] = cc in
      rw (e', directions-zero d)
        (climb-end (join sha256) (leaf_hash sha256 leaf) r (rw e at hashed))
  climb-built zero d (a ∷ b ∷ rest) m leaf r path size lt found hashed built = absurd (cc)
  climb-built (suc f) d (a ∷ b ∷ rest) m leaf r path size lt found hashed built =
      let all : List Digest = a ∷ b ∷ rest in
      let h = halves sha256 f a b rest r hashed in
      let high = pow-suc 2 h.depth in
      let small = h.high in
      elim (Bool-cases (ltb m (2 ^ h.depth))) [
        | inl left ↦
            let (front, s, front_at, s_at, at) =
              extend-some (build_inclusion_proof sha256 f (slice_to (2 ^ h.depth) all) m)
                (root_in sha256 f (slice_from (2 ^ h.depth) all)) path
                (sym (build-left sha256 f a b rest m (2 ^ h.depth) h.split left) ∙ built) in
            let inside = lt_of_ltb m (2 ^ h.depth) left in
            let ih =
              climb-built f h.depth (slice_to (2 ^ h.depth) all) m leaf h.left_root front
                (omega (arith, h.left_length)) (omega (arith, h.left_length))
                (get_elem?-slice_to (2 ^ h.depth) m all inside ∙ found) h.left_at front_at in
            let s_is : h.right_root ≡ s = let right = h.right_at in cc in
            rw (at, sides-left sha256 h d m size inside)
              (climb-append (join sha256)
                (directions h.depth m (length (slice_to (2 ^ h.depth) all) - 1)) front right_sibling
                s h.left_root r (leaf_hash sha256 leaf) ih
                (ap (node_hash sha256 h.left_root) (sym s_is) ∙ h.top))
        | inr right ↦
            let (front, s, front_at, s_at, at) =
              extend-some
                (build_inclusion_proof sha256 f (slice_from (2 ^ h.depth) all) (m - 2 ^ h.depth))
                (root_in sha256 f (slice_to (2 ^ h.depth) all)) path
                (sym (build-right sha256 f a b rest m (2 ^ h.depth) h.split right) ∙ built) in
            let outside = le_of_ltb m (2 ^ h.depth) right in
            let ih =
              climb-built f h.depth (slice_from (2 ^ h.depth) all) (m - 2 ^ h.depth) leaf
                h.right_root front (omega (arith, h.right_length)) (omega (arith, h.right_length))
                (get_elem?-slice_from (2 ^ h.depth) m all outside ∙ found) h.right_at front_at in
            let s_is : h.left_root ≡ s = let left = h.left_at in cc in
            rw (at, sides-right sha256 h d m size outside lt)
              (climb-append (join sha256)
                (directions h.depth (m - 2 ^ h.depth) (length (slice_from (2 ^ h.depth) all) - 1))
                front left_sibling s h.right_root r (leaf_hash sha256 leaf) ih
                (ap (λ l. node_hash sha256 l h.right_root) (sym s_is) ∙ h.top))
      ]

  -- The bytes of the digest can be read.
  abbrev pub IsDigest : Digest → Type 0
  IsDigest d = (bytes : Bytes) × (digest_bytes d ≡ some bytes)

  -- A hasher that answers every message, with a well-formed digest.
  abbrev pub IsHasher : Type 0
  IsHasher = (message : Bytes) → (r : Digest) × (sha256 message ≡ some r) × IsDigest r

  leaf_hash-total :
      (d : Digest)
      → IsHasher
      → IsDigest d
      → (r : Digest) × (leaf_hash sha256 d ≡ some r) × IsDigest r
  unfolding leaf_hash leaf_message
  leaf_hash-total d answers (bs, at) = rw at (answers _)

  node_hash-total :
      (a b : Digest)
      → IsHasher
      → IsDigest a
      → IsDigest b
      → (r : Digest) × (node_hash sha256 a b ≡ some r) × IsDigest r
  unfolding node_hash node_message
  node_hash-total a b answers (bs, at) (cs, at') = rw (at, at') (answers _)

  -- A tree of well-formed digests has a root.
  pub root_in-total :
      (f : ℕ) (leaves : List Digest)
      → IsHasher
      → All IsDigest leaves
      → length leaves ≤ f
      → (r : Digest) × (root_in sha256 f leaves ≡ some r) × IsDigest r
  unfolding root_in
  root_in-total f [] answers h size = answers []
  root_in-total f (x ∷ []) answers (d, h) size = leaf_hash-total x answers d
  root_in-total zero (a ∷ b ∷ rest) answers h size = absurd (omega arith)
  root_in-total (suc f) (a ∷ b ∷ rest) answers h size =
      let all : List Digest = a ∷ b ∷ rest in
      let (d, at, low, high) = largest_power-bounds (length all) (omega arith) in
      let some_pow = one-le-pow d 2 (omega arith) in
      let (l, l_at, l_digest) =
        root_in-total f (slice_to (2 ^ d) all) answers (All-slice_to IsDigest (2 ^ d) all h)
          (omega (arith, length-slice_to (2 ^ d) all (omega arith))) in
      let (m, m_at, m_digest) =
        root_in-total f (slice_from (2 ^ d) all) answers (All-slice_from IsDigest (2 ^ d) all h)
          (omega (arith, length-slice_from (2 ^ d) all (omega arith))) in
      let (r, top, r_digest) = node_hash-total l m answers l_digest m_digest in
      (r, root_in-split sha256 f all (2 ^ d) l m (omega arith) at l_at m_at ∙ top, r_digest)

  -- Each of its leaves has an audit path.
  build-total :
      (f : ℕ) (leaves : List Digest) (m : ℕ)
      → IsHasher
      → All IsDigest leaves
      → length leaves ≤ f
      → m < length leaves
      → (path : List Digest) × (build_inclusion_proof sha256 f leaves m ≡ some path)
  unfolding build_inclusion_proof
  build-total f [] m answers h size lt = absurd (omega arith)
  build-total f (x ∷ []) m answers h size lt = ([], refl)
  build-total zero (a ∷ b ∷ rest) m answers h size lt = absurd (omega arith)
  build-total (suc f) (a ∷ b ∷ rest) m answers h size lt =
      let all : List Digest = a ∷ b ∷ rest in
      let (d, at, low, high) = largest_power-bounds (length all) (omega arith) in
      let some_pow = one-le-pow d 2 (omega arith) in
      let to = length-slice_to (2 ^ d) all (omega arith) in
      let from = length-slice_from (2 ^ d) all (omega arith) in
      let lefts = All-slice_to IsDigest (2 ^ d) all h in
      let rights = All-slice_from IsDigest (2 ^ d) all h in
      elim (Bool-cases (ltb m (2 ^ d))) [
        | inl left ↦
            let inside = lt_of_ltb m (2 ^ d) left in
            let (path, path_at) =
              build-total f (slice_to (2 ^ d) all) m answers lefts (omega arith) (omega arith) in
            let (s, s_at, _) =
              root_in-total f (slice_from (2 ^ d) all) answers rights (omega arith) in
            (
              path ++ s ∷ [],
              build-left sha256 f a b rest m (2 ^ d) at left ∙ rw (path_at, s_at) refl,
            )
        | inr right ↦
            let outside = le_of_ltb m (2 ^ d) right in
            let (path, path_at) =
              build-total f (slice_from (2 ^ d) all) (m - 2 ^ d) answers rights (omega arith)
                (omega arith) in
            let (s, s_at, _) = root_in-total f (slice_to (2 ^ d) all) answers lefts (omega arith) in
            (
              path ++ s ∷ [],
              build-right sha256 f a b rest m (2 ^ d) at right ∙ rw (path_at, s_at) refl,
            )
      ]

  -- For a hasher that answers every message with a well-formed digest, and at most 2^53 - 1
  -- well-formed entry digests: the tree has a root, every leaf has an inclusion proof, and
  -- `verifyInclusion` accepts that proof for the leaf, its index, the tree's size and the root.
  pub verify_inclusion_complete :
      (leaves : List Digest) (m : ℕ) (leaf : Digest)
      → IsHasher
      → All IsDigest leaves
      → length leaves ≤ max_safe_integer
      → get_elem? leaves m ≡ some leaf
      → (path : List Digest) × (r : Digest) × (inclusion_proof sha256 leaves m ≡ some path)
        × (root sha256 leaves ≡ some r)
        × (verify_inclusion sha256 (record {
          leaf = leaf;
          leaf_index = m;
          tree_size = length leaves;
          root = r;
          audit_path = path;
        })
            ≡ true)
  unfolding root inclusion_proof verify_inclusion
  verify_inclusion_complete leaves m leaf answers h size found =
      let lt = get_elem?-lt leaves m leaf found in
      let fits = lt_two_pow (length leaves) in
      let (path, built) = build-total (length leaves) leaves m answers h (omega arith) lt in
      let (r, hashed, _) = root_in-total (length leaves) leaves answers h (omega arith) in
      let climbed =
        climb-built (length leaves) (length leaves) leaves m leaf r path (omega arith) lt found
          hashed built in
      let accepted : holds (join sha256) (λ c. c == r) (some r) ≡ true = ==_refl r in
      let looped =
        loop-climb (join sha256) (inclusion_loop-IsLoop sha256 r) (length leaves) path m
          (length leaves - 1) (leaf_hash sha256 leaf) (omega arith) (omega arith)
        ∙ ap (holds (join sha256) (λ c. c == r)) climbed
        ∙ accepted in
      let safe = leb_of_le m max_safe_integer (omega arith) in
      let safe' = leb_of_le (length leaves) max_safe_integer size in
      let some_leaf = nat_beq_of_lt (length leaves) 0 (omega arith) in
      let inside = leb_of_lt (length leaves) m lt in
      (
        path,
        r,
        rw (safe, some_leaf, inside) built,
        hashed,
        rw (safe, safe', some_leaf, inside) looped,
      )
