-- ===== src/Audit/Merkle/Inclusion/Sides.antt =====
-- A split tree's proof and directions, from those of its two parts.
use native.Mathlib.Nat.{pow-suc}
use kya_os_mcp.Common.{
  ℕ, suc, ◌+◌, ◌-◌, ◌^◌, ◌≤◌, ◌<◌, ◌≡◌, refl, sym, ap, ◌∙◌, true, false, List, ◌∷◌, [], ◌++◌,
  Option, arith, ltb, length,
}
use kya_os_mcp.Audit.Digests.{Bytes, Digest}
use kya_os_mcp.Audit.Merkle.{
  slice_to, slice_from, extend, root_in, build_inclusion_proof, largest_power_of_two_less_than,
}
use kya_os_mcp.Audit.Merkle.Directions.{
  left_sibling, right_sibling, directions, directions-left, directions-right,
}
use kya_os_mcp.Audit.Merkle.Proofs.{directions-split, Halves}

module _ (sha256 : Bytes → Option Digest) where
  pub build-left :
      (f : ℕ) (a b : Digest) (rest : List Digest) (m split : ℕ)
      → largest_power_of_two_less_than (length (a ∷ b ∷ rest)) ≡ split
      → ltb m split ≡ true
      → build_inclusion_proof sha256 (suc f) (a ∷ b ∷ rest) m
        ≡ extend
            (build_inclusion_proof sha256 f (slice_to split (a ∷ b ∷ rest)) m)
            (root_in sha256 f (slice_from split (a ∷ b ∷ rest)))
  unfolding build_inclusion_proof
  build-left f a b rest m split at h = rw (at, h) refl

  pub build-right :
      (f : ℕ) (a b : Digest) (rest : List Digest) (m split : ℕ)
      → largest_power_of_two_less_than (length (a ∷ b ∷ rest)) ≡ split
      → ltb m split ≡ false
      → build_inclusion_proof sha256 (suc f) (a ∷ b ∷ rest) m
        ≡ extend
            (build_inclusion_proof sha256 f (slice_from split (a ∷ b ∷ rest)) (m - split))
            (root_in sha256 f (slice_to split (a ∷ b ∷ rest)))
  unfolding build_inclusion_proof
  build-right f a b rest m split at h = rw (at, h) refl

  -- A position in the right part, with the digits of its part.
  directions-shift :
      (d m n : ℕ)
      → 2 ^ d ≤ m
      → m < n
      → n ≤ 2 ^ suc d
      → directions (suc d) m (n - 1) ≡ directions d (m - 2 ^ d) (n - 2 ^ d - 1) ++ left_sibling ∷ []
  directions-shift d m n h k l =
      let pow = pow-suc 2 d in
      let step = directions-right d (m - 2 ^ d) (n - 2 ^ d - 1) (omega arith) (omega arith) in
      let p : m - 2 ^ d + 2 ^ d ≡ m = omega arith in
      let q : n - 2 ^ d - 1 + 2 ^ d ≡ n - 1 = omega arith in rw (p, q) at step

  module _ {f : ℕ} {leaves : List Digest} {r : Digest} (h : Halves sha256 f leaves r) where
    pub sides-left :
        (d m : ℕ)
        → length leaves ≤ 2 ^ d
        → m < 2 ^ h.depth
        → directions d m (length leaves - 1)
          ≡ directions h.depth m (length (slice_to (2 ^ h.depth) leaves) - 1) ++ right_sibling ∷ []
    sides-left d m size inside =
        let low = h.low in
        let high = h.high in
        directions-split d h.depth m (length leaves) (omega arith) low high size
        ∙ directions-left h.depth m (length leaves - 1) inside (omega arith) (omega arith)
        ∙ ap (λ n. directions h.depth m (n - 1) ++ right_sibling ∷ []) (sym h.left_length)

    pub sides-right :
        (d m : ℕ)
        → length leaves ≤ 2 ^ d
        → 2 ^ h.depth ≤ m
        → m < length leaves
        → directions d m (length leaves - 1)
          ≡ directions h.depth (m - 2 ^ h.depth) (length (slice_from (2 ^ h.depth) leaves) - 1)
            ++ left_sibling ∷ []
    sides-right d m size outside lt =
        let low = h.low in
        let high = h.high in
        let sizes : length leaves - 2 ^ h.depth ≡ length (slice_from (2 ^ h.depth) leaves) =
          omega (arith, h.right_length) in
        directions-split d h.depth m (length leaves) lt low high size
        ∙ directions-shift h.depth m (length leaves) outside lt high
        ∙ ap (λ n. directions h.depth (m - 2 ^ h.depth) (n - 1) ++ left_sibling ∷ []) sizes
