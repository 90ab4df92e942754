-- ===== src/Audit/Consistency/Made.antt =====
-- The proofs that `buildConsistencyProof` of src/audit/merkle.ts makes.
use native.Mathlib.Nat.{pow-suc, one-le-pow}
use kya_os_mcp.Common.{
  ℕ, zero, suc, ◌-◌, ◌^◌, ◌≤◌, ◌<◌, ◌≡◌, refl, sym, ap, ◌∙◌, inl, inr, Bool, true, false, List, [],
  ◌∷◌, ◌++◌, Option, some, some-injective, arith, ltb, leb, lt_of_ltb, le_of_ltb, le_of_leb, length,
  All, Bool-cases, if◌then◌else◌, nat_eq, list_eq, ◌==◌, ==_iff,
}
use kya_os_mcp.Audit.Digests.{Bytes, Digest}
use kya_os_mcp.Audit.Merkle.{slice_to, slice_from, node_hash, root_in}
use kya_os_mcp.Audit.Merkle.Proofs.{
  length-slice_to, All-slice_to, All-slice_from, slice_to_all, extend-some, halves,
}
use kya_os_mcp.Audit.Merkle.Inclusion.Complete.{IsDigest, IsHasher, root_in-total}
use kya_os_mcp.Audit.Consistency.{build_consistency_proof}
use kya_os_mcp.Audit.Consistency.Prefix.{IsPower, old_left, old_right}
use kya_os_mcp.Audit.Consistency.Built.{IsBuilt, IsBuilt-whole, step-left, step-right, step-whole}
use kya_os_mcp.Audit.Consistency.Extends.{
  extend-left, extend-right, old_root_left, old_root_right, ones_right,
}

le_of_not_leb : (a b : ℕ) → leb a b ≡ false → b < a
le_of_not_leb a b h = ground arith

short_of_lt : (a b : ℕ) → a < b → (a == b) ≡ false
short_of_lt a b h = ground arith

module _ (sha256 : Bytes → Option Digest) where
  IsBuilt-same :
      (f D d : ℕ) (leaves : List Digest) (m : ℕ) (complete : Bool) (x r : Digest)
      (path : List Digest)
      → length leaves ≤ 2 ^ d
      → length leaves ≤ 2 ^ D
      → m ≡ length leaves
      → IsPower m
      → root_in sha256 f leaves ≡ some r
      → root_in sha256 f (slice_to m leaves) ≡ some x
      → build_consistency_proof sha256 f m leaves complete ≡ some path
      → IsBuilt sha256 D d m (length leaves) complete path x r
  IsBuilt-same f D d leaves m complete x r path size size' same (k, power) hashed old made =
      let x_is : x ≡ r = some-injective (
        sym old
        ∙ ap (root_in sha256 f) (ap (λ n. slice_to n leaves) same ∙ slice_to_all leaves)
        ∙ hashed) in
      rw x_is (
        IsBuilt-whole sha256 D d k m (length leaves) complete path r same power size size' (
          sym (step-whole sha256 f m leaves complete r ((==_iff m (length leaves)).1 same) hashed)
          ∙ made))

  whole_made :
      (f m : ℕ) (leaves : List Digest) (complete : Bool) (r : Digest)
      → m ≡ length leaves
      → root_in sha256 f leaves ≡ some r
      → (path : List Digest) × (build_consistency_proof sha256 f m leaves complete ≡ some path)
  whole_made f m leaves complete r same hashed =
      let (path, at) = ends complete in
      (
        path,
        step-whole sha256 f m leaves complete r ((==_iff m (length leaves)).1 same) hashed ∙ at,
      )
    where
      ends :
          (c : Bool) → (path : List Digest) × ((if c then some [] else some (r ∷ [])) ≡ some path)
      ends true = ([], refl)
      ends false = (r ∷ [], refl)

  pub built :
      (f D d : ℕ) (leaves : List Digest) (m : ℕ) (complete : Bool) (x r : Digest)
      (path : List Digest)
      → IsHasher sha256
      → All (IsDigest sha256) leaves
      → length leaves ≤ f
      → length leaves ≤ 2 ^ d
      → length leaves ≤ 2 ^ D
      → 1 ≤ m
      → m ≤ length leaves
      → (m ≡ length leaves → IsPower m)
      → root_in sha256 f leaves ≡ some r
      → root_in sha256 f (slice_to m leaves) ≡ some x
      → build_consistency_proof sha256 f m leaves complete ≡ some path
      → IsBuilt sha256 D d m (length leaves) complete path x r
  built f D d [] m complete x r path answers ds fuel size size' pos le full hashed old made =
      absurd (omega arith)
  built f D d (a ∷ []) m complete x r path answers ds fuel size size' pos le full hashed old made =
      let one : m ≡ 1 = omega arith in
      IsBuilt-same f D d (a ∷ []) m complete x r path size size' one (full one) hashed old made
  built zero D d (a ∷ b ∷ rest) m complete x r path answers ds fuel size size' pos le full hashed
        old made =
      absurd (omega arith)
  built (suc f) D d (a ∷ b ∷ rest) m complete x r path answers ds fuel size size' pos le full hashed
        old made =
      let all : List Digest = a ∷ b ∷ rest in
      let h = halves sha256 f a b rest r hashed in
      let pow = pow-suc 2 h.depth in
      let some_pow = one-le-pow h.depth 2 (omega arith) in
      let low = h.low in
      let high = h.high in
      let left_length = h.left_length in
      let right_length = h.right_length in
      elim (Bool-cases (ltb m (length all))) [
        | inr ends ↦
            let same : m ≡ length all = omega (arith, le_of_ltb m (length all) ends) in
            IsBuilt-same (suc f) D d all m complete x r path size size' same (full same) hashed old
              made
        | inl more ↦
            let inside = lt_of_ltb m (length all) more in
            let short = short_of_lt m (length all) inside in
            elim (Bool-cases (leb m (2 ^ h.depth))) [
              | inl left ↦
                  let within = le_of_leb m (2 ^ h.depth) left in
                  let (front, s, front_at, s_at, at) =
                    extend-some
                      (build_consistency_proof sha256 f m (slice_to (2 ^ h.depth) all) complete)
                      (some h.right_root) path
                      (sym (
                          step-left sha256 f m all complete (2 ^ h.depth) h.left_root h.right_root
                            h.split h.left_at h.right_at short left)
                        ∙ made) in
                  let s_is : h.right_root ≡ s = some-injective s_at in
                  extend-left sha256 D d h.depth m (length all)
                    (length (slice_to (2 ^ h.depth) all)) complete front path s x h.left_root r
                    (built f D h.depth (slice_to (2 ^ h.depth) all) m complete x h.left_root front
                      answers (All-slice_to (IsDigest sha256) (2 ^ h.depth) all ds) (omega arith)
                      (omega arith) (omega arith) pos (omega arith)
                      (λ e. (h.depth, e ∙ left_length)) h.left_at
                      (old_root_left sha256 h m within fuel ∙ old) front_at)
                    at (old_left sha256 h d m size pos within)
                    (ap (node_hash sha256 h.left_root) (sym s_is) ∙ h.top)
              | inr right ↦
                  let outside = le_of_not_leb m (2 ^ h.depth) right in
                  let rights = All-slice_from (IsDigest sha256) (2 ^ h.depth) all ds in
                  let inner = slice_from (2 ^ h.depth) all in
                  let to = length-slice_to (m - 2 ^ h.depth) inner (omega arith) in
                  let (front, s, front_at, s_at, at) =
                    extend-some (build_consistency_proof sha256 f (m - 2 ^ h.depth) inner false)
                      (some h.left_root) path
                      (sym (
                          step-right sha256 f m all complete (2 ^ h.depth) h.left_root h.right_root
                            h.split h.left_at h.right_at short right)
                        ∙ made) in
                  let s_is : h.left_root ≡ s = some-injective s_at in
                  let (o, o_at, _) =
                    root_in-total sha256 f (slice_to (m - 2 ^ h.depth) inner) answers
                      (All-slice_to (IsDigest sha256) (m - 2 ^ h.depth) inner rights)
                      (omega arith) in
                  extend-right sha256 D d h.depth m (m - 2 ^ h.depth) (length all) (length inner)
                    complete front path s o x h.right_root r
                    (built f D h.depth inner (m - 2 ^ h.depth) false o h.right_root front answers
                      rights (omega arith) (omega arith) (omega arith) (omega arith) (omega arith)
                      (λ e. absurd (omega arith)) h.right_at o_at front_at)
                    (ones_right sha256 h D m size' outside inside) at
                    (old_right sha256 h d m size outside inside)
                    (ap (λ l. node_hash sha256 l o) (sym s_is)
                      ∙ sym (old_root_right sha256 h m o outside inside o_at)
                      ∙ old)
                    (ap (λ l. node_hash sha256 l h.right_root) (sym s_is) ∙ h.top)
            ]
      ]

  -- Each old size of a tree has a consistency proof.
  pub build-total :
      (f : ℕ) (leaves : List Digest) (m : ℕ) (complete : Bool) (r : Digest)
      → IsHasher sha256
      → All (IsDigest sha256) leaves
      → length leaves ≤ f
      → 1 ≤ m
      → m ≤ length leaves
      → root_in sha256 f leaves ≡ some r
      → (path : List Digest) × (build_consistency_proof sha256 f m leaves complete ≡ some path)
  build-total f [] m complete r answers ds fuel pos le hashed = absurd (omega arith)
  build-total f (a ∷ []) m complete r answers ds fuel pos le hashed =
      whole_made f m (a ∷ []) complete r (omega arith) hashed
  build-total zero (a ∷ b ∷ rest) m complete r answers ds fuel pos le hashed = absurd (omega arith)
  build-total (suc f) (a ∷ b ∷ rest) m complete r answers ds fuel pos le hashed =
      let all : List Digest = a ∷ b ∷ rest in
      let h = halves sha256 f a b rest r hashed in
      let some_pow = one-le-pow h.depth 2 (omega arith) in
      let low = h.low in
      let left_length = h.left_length in
      let right_length = h.right_length in
      elim (Bool-cases (ltb m (length all))) [
        | inr ends ↦
            whole_made (suc f) m all complete r (omega (arith, le_of_ltb m (length all) ends))
              hashed
        | inl more ↦
            let inside = lt_of_ltb m (length all) more in
            let short = short_of_lt m (length all) inside in
            elim (Bool-cases (leb m (2 ^ h.depth))) [
              | inl left ↦
                  let within = le_of_leb m (2 ^ h.depth) left in
                  let (path, at) =
                    build-total f (slice_to (2 ^ h.depth) all) m complete h.left_root answers
                      (All-slice_to (IsDigest sha256) (2 ^ h.depth) all ds) (omega arith) pos
                      (omega arith) h.left_at in
                  (
                    path ++ h.right_root ∷ [],
                    step-left sha256 f m all complete (2 ^ h.depth) h.left_root h.right_root h.split
                          h.left_at h.right_at short left
                        ∙ rw at refl,
                  )
              | inr right ↦
                  let outside = le_of_not_leb m (2 ^ h.depth) right in
                  let (path, at) =
                    build-total f (slice_from (2 ^ h.depth) all) (m - 2 ^ h.depth) false
                      h.right_root answers (All-slice_from (IsDigest sha256) (2 ^ h.depth) all ds)
                      (omega arith) (omega arith) (omega arith) h.right_at in
                  (
                    path ++ h.left_root ∷ [],
                    step-right sha256 f m all complete (2 ^ h.depth) h.left_root h.right_root
                          h.split h.left_at h.right_at short right
                        ∙ rw at refl,
                  )
            ]
      ]
