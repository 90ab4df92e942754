-- ===== src/Audit/Consistency/Sides.antt =====
-- The sides on which `verifyConsistency` of src/audit/merkle.ts takes its siblings.
use native.Mathlib.Nat.{pow-suc, one-le-pow}
use kya_os_mcp.Common.{
  ℕ, zero, suc, ◌+◌, ◌-◌, ◌/◌, ◌%◌, ◌^◌, ◌≤◌, ◌<◌, ◌≡◌, refl, sym, ap, ◌∙◌, inl, inr, true, false,
  List, [], ◌∷◌, ◌++◌, arith, Bool-cases, if◌then◌else◌, nat_eq, ==_iff,
}
use kya_os_mcp.Audit.Merkle.{is_odd}
use kya_os_mcp.Audit.Merkle.Directions.{
  Side, left_sibling, right_sibling, directions, directions-zero, directions-digits,
  directions-left, directions-right,
}
use kya_os_mcp.Audit.Consistency.{halve_while_odd}

-- The sides above the largest full tree that ends at the old node.
unfoldable pub sides_above : ℕ → ℕ → ℕ → List Side
sides_above zero old new = []
sides_above (suc d) old new =
    let rest = sides_above d (old / 2) (new / 2) in
    if is_odd old then rest else directions (suc d) old new

module _ (d old new : ℕ) where
  sides_above-odd :
      is_odd old ≡ true → sides_above (suc d) old new ≡ sides_above d (old / 2) (new / 2)
  unfolding sides_above
  sides_above-odd h = rw h refl

  sides_above-even : is_odd old ≡ false → sides_above (suc d) old new ≡ directions (suc d) old new
  unfolding sides_above
  sides_above-even h = rw h refl

odd-remainder : (n : ℕ) → is_odd n ≡ true → n % 2 ≡ 1
odd-remainder n h = (==_iff (n % 2) 1).0 h

even-remainder : (n : ℕ) → is_odd n ≡ false → n % 2 ≡ 0
even-remainder n h = ground arith

sides_above-zero : (d new : ℕ) → directions d 0 new ≡ sides_above d 0 new
unfolding directions sides_above
sides_above-zero zero new = refl
sides_above-zero (suc d) new = refl

-- The nodes after the first loop.
pub record Halved (d old new : ℕ) (nodes : ℕ × ℕ) : Type 0 where
  pub ordered : nodes.0 ≤ nodes.1
  pub small : nodes.1 < 2 ^ d
  pub sides : directions d nodes.0 nodes.1 ≡ sides_above d old new

pub halve_while_odd-Halved :
    (d f old new : ℕ)
    → old ≤ new
    → new < 2 ^ d
    → old ≤ f
    → Halved d old new (halve_while_odd f old new)
unfolding halve_while_odd
halve_while_odd-Halved d zero old new le lt fuel =
    let z : old ≡ 0 = omega arith in
    record { ordered = le; small = lt; sides = rw z (sides_above-zero d new) }
halve_while_odd-Halved zero (suc f) old new le lt fuel =
    let z : old ≡ 0 = omega arith in
    rw (z, halve_while_odd)
      (record { ordered = omega arith; small = lt; sides = sides_above-zero zero new })
halve_while_odd-Halved (suc d) (suc f) old new le lt fuel = elim (Bool-cases (is_odd old)) [
  | inl o ↦
      let pow = pow-suc 2 d in
      let ih =
        halve_while_odd-Halved d f (old / 2) (new / 2) (omega arith) (omega arith) (omega arith) in
      let small = ih.small in
      rw (o, halve_while_odd)
        (record {
          ordered = ih.ordered;
          small = omega arith;
          sides =
              directions-digits (suc d) d (halve_while_odd f (old / 2) (new / 2)).0
                (halve_while_odd f (old / 2) (new / 2)).1 ih.ordered ih.small (omega arith)
              ∙ ih.sides
              ∙ sym (sides_above-odd d old new o);
        })
  | inr o ↦
      rw (o, halve_while_odd)
        (record { ordered = le; small = lt; sides = sym (sides_above-even d old new o) })
]

-- In the left part of a split at `2 ^ d`.
pub sides_above-left :
    (d old new : ℕ)
    → old < 2 ^ d
    → 2 ^ d ≤ new
    → new < 2 ^ suc d
    → sides_above (suc d) old new ≡ sides_above d old (2 ^ d - 1) ++ right_sibling ∷ []
sides_above-left zero old new h k l =
    let z : old ≡ 0 = omega arith in
    rw z (
      sym (sides_above-zero 1 new)
      ∙ directions-left zero 0 new (omega arith) k l
      ∙ ap (λ s. s ++ right_sibling ∷ []) (sides_above-zero zero 0))
sides_above-left (suc d) old new h k l =
    let pow = pow-suc 2 d in
    let pow' = pow-suc 2 (suc d) in
    let some_pow = one-le-pow d 2 (omega arith) in
    elim (Bool-cases (is_odd old)) [
      | inl o ↦
          let half : (2 ^ suc d - 1) / 2 ≡ 2 ^ d - 1 = omega arith in
          sides_above-odd (suc d) old new o
          ∙ sides_above-left d (old / 2) (new / 2) (omega arith) (omega arith) (omega arith)
          ∙ sym (
              ap (λ s. s ++ right_sibling ∷ [])
                (sides_above-odd d old (2 ^ suc d - 1) o ∙ ap (sides_above d (old / 2)) half))
      | inr o ↦
          sides_above-even (suc d) old new o
          ∙ directions-left (suc d) old new h k l
          ∙ sym (ap (λ s. s ++ right_sibling ∷ []) (sides_above-even d old (2 ^ suc d - 1) o))
    ]

-- In the right part, where the old tree ends before the new one.
pub sides_above-right :
    (d old new : ℕ)
    → old < new
    → new < 2 ^ d
    → sides_above (suc d) (old + 2 ^ d) (new + 2 ^ d) ≡ sides_above d old new ++ left_sibling ∷ []
sides_above-right zero old new h k = absurd (omega arith)
sides_above-right (suc d) old new h k =
    let pow = pow-suc 2 d in
    let parity : (old + 2 ^ suc d) % 2 ≡ old % 2 = omega arith in
    elim (Bool-cases (is_odd old)) [
      | inl o ↦
          let r = odd-remainder old o in
          let half : (old + 2 ^ suc d) / 2 ≡ old / 2 + 2 ^ d = omega arith in
          let half' : (new + 2 ^ suc d) / 2 ≡ new / 2 + 2 ^ d = omega arith in
          sides_above-odd (suc d) (old + 2 ^ suc d) (new + 2 ^ suc d) (rw parity o)
          ∙ rw (half, half') (sides_above-right d (old / 2) (new / 2) (omega arith) (omega arith))
          ∙ sym (ap (λ s. s ++ left_sibling ∷ []) (sides_above-odd d old new o))
      | inr o ↦
          sides_above-even (suc d) (old + 2 ^ suc d) (new + 2 ^ suc d) (rw parity o)
          ∙ directions-right (suc d) old new (omega arith) k
          ∙ sym (ap (λ s. s ++ left_sibling ∷ []) (sides_above-even d old new o))
    ]

-- At a full tree nothing is above.
pub sides_above-full : (d e : ℕ) → e ≤ d → sides_above d (2 ^ e - 1) (2 ^ e - 1) ≡ []
sides_above-full d zero h = sym (sides_above-zero d 0) ∙ directions-zero d
sides_above-full zero (suc e) h = absurd (omega arith)
sides_above-full (suc d) (suc e) h =
    let pow = pow-suc 2 e in
    let some_pow = one-le-pow e 2 (omega arith) in
    let half : (2 ^ suc e - 1) / 2 ≡ 2 ^ e - 1 = omega arith in
    let o : is_odd (2 ^ suc e - 1) ≡ true = (==_iff ((2 ^ suc e - 1) % 2) 1).1 (omega arith) in
    sides_above-odd d (2 ^ suc e - 1) (2 ^ suc e - 1) o
    ∙ rw half (sides_above-full d e (omega arith))

-- More digits than the new node has change nothing.
pub sides_above-digits :
    (e d old new : ℕ)
    → old ≤ new
    → new < 2 ^ d
    → d ≤ e
    → sides_above e old new ≡ sides_above d old new
sides_above-digits zero d old new h k le = let z : d ≡ 0 = omega arith in rw z refl
sides_above-digits (suc e) zero old new h k le =
    let z : old ≡ 0 = omega arith in
    let z' : new ≡ 0 = omega arith in
    rw (z, z')
      (sym (sides_above-zero (suc e) 0)
        ∙ directions-zero (suc e)
        ∙ sym (directions-zero 0)
        ∙ sides_above-zero 0 0)
sides_above-digits (suc e) (suc d) old new h k le = elim (Bool-cases (is_odd old)) [
  | inl o ↦
      sides_above-odd e old new o
      ∙ sides_above-digits e d (old / 2) (new / 2) (omega arith) (omega (arith, pow-suc 2 d))
          (omega arith)
      ∙ sym (sides_above-odd d old new o)
  | inr o ↦
      sides_above-even e old new o
      ∙ directions-digits (suc e) (suc d) old new h k le
      ∙ sym (sides_above-even d old new o)
]
