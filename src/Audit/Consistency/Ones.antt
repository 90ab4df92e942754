-- ===== src/Audit/Consistency/Ones.antt =====
-- Where `verifyConsistency` of src/audit/merkle.ts starts at the old root: the old size is a power of
-- two, so that its last node is all ones.
use native.Mathlib.Nat.{pow-suc, one-le-pow}
use kya_os_mcp.Common.{
  ℕ, zero, suc, ◌+◌, ◌-◌, ◌/◌, ◌%◌, ◌^◌, ◌≤◌, ◌<◌, ◌≡◌, refl, sym, ◌∙◌, inl, inr, Bool, true, false,
  arith, Bool-cases, if◌then◌else◌, nat_eq, ◌==◌, ==_iff, nat_beq_of_lt,
}
use kya_os_mcp.Audit.Merkle.{is_odd}
use kya_os_mcp.Audit.Consistency.{halve_while_odd}

-- The first `d` binary digits of `n`, and nothing above, are ones up to the highest.
unfoldable pub all_ones : ℕ → ℕ → Bool
all_ones zero n = true
all_ones (suc d) n = let rest = all_ones d (n / 2) in if is_odd n then rest else n == 0

module _ (d n : ℕ) where
  all_ones-odd : is_odd n ≡ true → all_ones (suc d) n ≡ all_ones d (n / 2)
  unfolding all_ones
  all_ones-odd h = rw h refl

  all_ones-even : is_odd n ≡ false → all_ones (suc d) n ≡ (n == 0)
  unfolding all_ones
  all_ones-even h = rw h refl

all_ones-zero : (d : ℕ) → all_ones d 0 ≡ true
unfolding all_ones
all_ones-zero zero = refl
all_ones-zero (suc d) = refl

-- The node that is left after the halving is 0 exactly there.
pub halved-all_ones :
    (d f old new : ℕ)
    → old < 2 ^ d
    → old ≤ f
    → ((halve_while_odd f old new).0 == 0) ≡ all_ones d old
unfolding halve_while_odd
halved-all_ones d zero old new lt fuel =
    let z : old ≡ 0 = omega arith in rw z (sym (all_ones-zero d))
halved-all_ones zero (suc f) old new lt fuel =
    let z : old ≡ 0 = omega arith in rw (z, halve_while_odd) (sym (all_ones-zero zero))
halved-all_ones (suc d) (suc f) old new lt fuel = elim (Bool-cases (is_odd old)) [
  | inl o ↦
      rw (o, halve_while_odd)
        (halved-all_ones d f (old / 2) (new / 2) (omega (arith, pow-suc 2 d)) (omega arith)
          ∙ sym (all_ones-odd d old o))
  | inr o ↦ rw (o, halve_while_odd) (sym (all_ones-even d old o))
]

pub all_ones-full : (d e : ℕ) → e ≤ d → all_ones d (2 ^ e - 1) ≡ true
all_ones-full d zero h = all_ones-zero d
all_ones-full zero (suc e) h = absurd (omega arith)
all_ones-full (suc d) (suc e) h =
    let pow = pow-suc 2 e in
    let some_pow = one-le-pow e 2 (omega arith) in
    let half : (2 ^ suc e - 1) / 2 ≡ 2 ^ e - 1 = omega arith in
    let o : is_odd (2 ^ suc e - 1) ≡ true = (==_iff ((2 ^ suc e - 1) % 2) 1).1 (omega arith) in
    all_ones-odd d (2 ^ suc e - 1) o ∙ rw half (all_ones-full d e (omega arith))

-- Above a full left part and short of a full tree, it is not all ones.
pub all_ones-inner : (d e n : ℕ) → e < d → n + 1 < 2 ^ e → all_ones d (n + 2 ^ e) ≡ false
all_ones-inner zero e n lt h = absurd (omega arith)
all_ones-inner (suc d) zero n lt h = absurd (omega arith)
all_ones-inner (suc d) (suc e) n lt h =
    let pow = pow-suc 2 e in
    let some_pow = one-le-pow e 2 (omega arith) in
    elim (Bool-cases (is_odd (n + 2 ^ suc e))) [
      | inl o ↦
          let r = (==_iff ((n + 2 ^ suc e) % 2) 1).0 o in
          let half : (n + 2 ^ suc e) / 2 ≡ n / 2 + 2 ^ e = omega arith in
          all_ones-odd d (n + 2 ^ suc e) o
          ∙ rw half (all_ones-inner d e (n / 2) (omega arith) (omega arith))
      | inr o ↦ all_ones-even d (n + 2 ^ suc e) o ∙ nat_beq_of_lt (n + 2 ^ suc e) 0 (omega arith)
    ]
