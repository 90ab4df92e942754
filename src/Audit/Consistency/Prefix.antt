-- ===== src/Audit/Consistency/Prefix.antt =====
-- A climb to the new root reaches the old root beside it.
use native.Mathlib.Nat.{pow-suc, one-le-pow, pow-le-pow_right}
use kya_os_mcp.Common.{
  ℕ, zero, suc, ◌+◌, ◌-◌, ◌^◌, ◌≤◌, ◌<◌, ◌≡◌, refl, sym, ap, ◌∙◌, inl, inr, List, [], ◌∷◌, ◌++◌,
  Option, none, some, arith, ltb, lt_of_ltb, le_of_ltb, length, Bool-cases, nat_eq, list_eq, All,
}
use kya_os_mcp.Audit.Digests.{Bytes, Digest}
use kya_os_mcp.Audit.Merkle.{
  slice_to, slice_from, node_hash, root_in, largest_power_of_two_less_than,
}
use kya_os_mcp.Audit.Merkle.Directions.{left_sibling, right_sibling}
use kya_os_mcp.Audit.Merkle.Levels.{largest_power_unique}
use kya_os_mcp.Audit.Merkle.Climb.{climb, climb-only, climb-last}
use kya_os_mcp.Audit.Merkle.Inclusion.Messages.{tree_messages, IsUnique, node_hash_unique}
use kya_os_mcp.Audit.Merkle.Inclusion.Sound.{messages-parts}
use kya_os_mcp.Audit.Merkle.Proofs.{
  length-slice_to, slice_to_all, slice_to_twice, slice_from_to, root_in-split, root_in-fuel, Halves,
  halves,
}
use kya_os_mcp.Audit.Consistency.{both}
use kya_os_mcp.Audit.Consistency.Sides.{
  sides_above, sides_above-left, sides_above-right, sides_above-full, sides_above-digits,
}
use kya_os_mcp.Audit.Consistency.Loop.{join_both}

-- `n` is a power of two.
abbrev pub IsPower : ℕ → Type 0
IsPower n = (e : ℕ) × (n ≡ 2 ^ e)

module _ (sha256 : Bytes → Option Digest) where
  pub both-some :
      (o p : Option Digest) (x y : Digest) → both o p ≡ some (x, y) → (o ≡ some x) × (p ≡ some y)
  both-some none p x y h = absurd (cc)
  both-some (some a) none x y h = absurd (cc)
  both-some (some a) (some b) x y h = (cc, cc)

  -- A full tree: the climb ends where it starts.
  climb-full :
      (f d e : ℕ) (leaves : List Digest) (r start x : Digest) (path : List Digest)
      → length leaves ≡ 2 ^ e
      → length leaves ≤ 2 ^ d
      → root_in sha256 f leaves ≡ some r
      → climb
          (join_both sha256)
          (sides_above d (length leaves - 1) (length leaves - 1))
          path
          (some (start, start))
        ≡ some (x, r)
      → root_in sha256 f (slice_to (length leaves) leaves) ≡ some x
  climb-full f d e leaves r start x path full size hashed climbed =
      let fits : e ≤ d = elim (Bool-cases (ltb d e)) [
        | inl less ↦ absurd (omega (arith, pow-lt d e (lt_of_ltb d e less)))
        | inr more ↦ le_of_ltb d e more
      ] in
      let none_above : sides_above d (length leaves - 1) (length leaves - 1) ≡ [] =
        ap (λ n. sides_above d (n - 1) (n - 1)) full ∙ sides_above-full d e fits in
      let (_, ends) =
        climb-only (join_both sha256) path (some (start, start)) (x, r)
          (rw none_above at climbed) in
      let same : x ≡ r = cc in rw (slice_to_all leaves, same) hashed
    where
      pow-lt : (a b : ℕ) → a < b → 2 ^ a < 2 ^ b
      pow-lt a b lt =
          let step = pow-le-pow_right {n = 2} (omega arith) {i = suc a} {j = b} (omega arith) in
          let some_pow = one-le-pow a 2 (omega arith) in omega (arith, pow-suc 2 a)

  module _ {f : ℕ} {leaves : List Digest} {r : Digest} (h : Halves sha256 f leaves r)
      (d m : ℕ) where
    pub digits : length leaves ≤ 2 ^ d → suc h.depth ≤ d
    digits size =
        let low = h.low in
        elim (Bool-cases (ltb h.depth d)) [
          | inl less ↦ lt_of_ltb h.depth d less
          | inr more ↦
              absurd
                (omega (arith, pow-le-pow_right {n = 2} (omega arith) (le_of_ltb h.depth d more)))
        ]

    pub old_left :
        length leaves ≤ 2 ^ d
        → 1 ≤ m
        → m ≤ 2 ^ h.depth
        → sides_above d (m - 1) (length leaves - 1)
          ≡ sides_above h.depth (m - 1) (length (slice_to (2 ^ h.depth) leaves) - 1)
            ++ right_sibling ∷ []
    old_left size pos inside =
        let low = h.low in
        let high = h.high in
        sides_above-digits d (suc h.depth) (m - 1) (length leaves - 1) (omega arith) (omega arith)
          (digits size)
        ∙ sides_above-left h.depth (m - 1) (length leaves - 1) (omega arith) (omega arith)
            (omega arith)
        ∙ ap (λ n. sides_above h.depth (m - 1) (n - 1) ++ right_sibling ∷ []) (sym h.left_length)

    pub old_right :
        length leaves ≤ 2 ^ d
        → 2 ^ h.depth < m
        → m < length leaves
        → sides_above d (m - 1) (length leaves - 1)
          ≡ sides_above h.depth (m - 2 ^ h.depth - 1) (length (slice_from (2 ^ h.depth) leaves) - 1)
            ++ left_sibling ∷ []
    old_right size outside inside =
        let high = h.high in
        let pow = pow-suc 2 h.depth in
        let right_length = h.right_length in
        let p : m - 2 ^ h.depth - 1 + 2 ^ h.depth ≡ m - 1 = omega arith in
        let q : length (slice_from (2 ^ h.depth) leaves) - 1 + 2 ^ h.depth ≡ length leaves - 1 =
          omega arith in
        sides_above-digits d (suc h.depth) (m - 1) (length leaves - 1) (omega arith) (omega arith)
          (digits size)
        ∙ rw (p, q) at
            (sides_above-right h.depth (m - 2 ^ h.depth - 1)
              (length (slice_from (2 ^ h.depth) leaves) - 1) (omega arith) (omega arith))

  -- Where the climb reaches the new root, what it reaches beside it is the old tree's root.
  pub climb-prefix :
      (f d : ℕ) (leaves : List Digest) (m : ℕ) (r start x : Digest) (path : List Digest)
      → length leaves ≤ f
      → length leaves ≤ 2 ^ d
      → 1 ≤ m
      → m ≤ length leaves
      → (m ≡ length leaves → IsPower m)
      → root_in sha256 f leaves ≡ some r
      → All (IsUnique sha256) (tree_messages sha256 f leaves)
      → climb
          (join_both sha256)
          (sides_above d (m - 1) (length leaves - 1))
          path
          (some (start, start))
        ≡ some (x, r)
      → root_in sha256 f (slice_to m leaves) ≡ some x
  climb-prefix f d [] m r start x path fuel size pos le full hashed u climbed = absurd (omega arith)
  climb-prefix f d (a ∷ []) m r start x path fuel size pos le full hashed u climbed =
      let one : m ≡ 1 = omega arith in
      rw one (climb-full f d 0 (a ∷ []) r start x path refl size hashed (rw one at climbed))
  climb-prefix zero d (a ∷ b ∷ rest) m r start x path fuel size pos le full hashed u climbed =
      absurd (omega arith)
  climb-prefix (suc f) d (a ∷ b ∷ rest) m r start x path fuel size pos le full hashed u climbed =
      let all : List Digest = a ∷ b ∷ rest in
      let h = halves sha256 f a b rest r hashed in
      let pow = pow-suc 2 h.depth in
      let some_pow = one-le-pow h.depth 2 (omega arith) in
      let low = h.low in
      let high = h.high in
      let left_length = h.left_length in
      let right_length = h.right_length in
      let (top, lefts, rights) = messages-parts sha256 h u in
      elim (Bool-cases (ltb m (length all))) [
        | inr ends ↦
            let same : m ≡ length all = omega (arith, le_of_ltb m (length all) ends) in
            let (e, at) = full same in
            rw same (
              climb-full (suc f) d e all r start x path (sym same ∙ at) size hashed
                (rw same at climbed))
        | inl more ↦ elim (Bool-cases (ltb (2 ^ h.depth) m)) [
          | inr left ↦
              let inside = le_of_ltb (2 ^ h.depth) m left in
              let (front, s, (o, n), at, below, joined) =
                climb-last (join_both sha256)
                  (sides_above h.depth (m - 1) (length (slice_to (2 ^ h.depth) all) - 1)) path
                  right_sibling (x, r) (some (start, start))
                  (rw (old_left h d m size pos inside) at climbed) in
              let (old, new) = both-some (some o) (node_hash sha256 n s) x r joined in
              let same : o ≡ x = cc in
              let (same', _) =
                node_hash_unique sha256 h.left_root h.right_root n s r top h.top new in
              let ih =
                climb-prefix f h.depth (slice_to (2 ^ h.depth) all) m h.left_root start x front
                  (omega arith) (omega arith) pos (omega arith) (λ e. (h.depth, e ∙ left_length))
                  h.left_at lefts
                  (below
                    ∙ ap (λ c. some c)
                        (ap (λ y. (o, y)) same' ∙ ap (λ y. (y, h.left_root)) same)) in
              let slices = slice_to_twice m (2 ^ h.depth) all inside in
              let sizes = length-slice_to m all (omega arith) in
              root_in-fuel sha256 (suc f) f (slice_to m all) (omega arith) (omega arith)
              ∙ sym (ap (root_in sha256 f) slices)
              ∙ ih
          | inl right ↦
              let outside = lt_of_ltb (2 ^ h.depth) m right in
              let inside = lt_of_ltb m (length all) more in
              let (front, s, (o, n), at, below, joined) =
                climb-last (join_both sha256)
                  (sides_above h.depth (m - 2 ^ h.depth - 1)
                    (length (slice_from (2 ^ h.depth) all) - 1))
                  path left_sibling (x, r) (some (start, start))
                  (rw (old_right h d m size outside inside) at climbed) in
              let (old, new) = both-some (node_hash sha256 s o) (node_hash sha256 s n) x r joined in
              let (same, same') =
                node_hash_unique sha256 h.left_root h.right_root s n r top h.top new in
              let ih =
                climb-prefix f h.depth (slice_from (2 ^ h.depth) all) (m - 2 ^ h.depth) h.right_root
                  start o front (omega arith) (omega arith) (omega arith) (omega arith)
                  (λ e. absurd (omega arith)) h.right_at rights
                  (below ∙ ap (λ c. some c) (ap (λ y. (o, y)) same')) in
              let sizes = length-slice_to m all (omega arith) in
              root_in-split sha256 f (slice_to m all) (2 ^ h.depth) h.left_root o (omega arith)
                (ap largest_power_of_two_less_than sizes
                  ∙ largest_power_unique m h.depth outside (omega arith))
                (ap (root_in sha256 f) (slice_to_twice (2 ^ h.depth) m all (omega arith))
                  ∙ h.left_at)
                (ap (root_in sha256 f) (slice_from_to (2 ^ h.depth) m all (omega arith)) ∙ ih)
              ∙ ap (λ l. node_hash sha256 l o) (sym same)
              ∙ old
        ]
      ]
