-- ===== src/Audit/Merkle/Levels.antt =====
-- The split and the inner halving loop of src/audit/merkle.ts.
use native.Mathlib.Nat.{pow-suc, one-le-pow, pow-le-pow_right}
use kya_os_mcp.Common.{
  ℕ, zero, suc, ◌+◌, ◌*◌, ◌/◌, ◌^◌, ◌≤◌, ◌<◌, ◌≡◌, ◌≢◌, refl, sym, ap, ◌∙◌, inl, inr, true, false,
  arith, ltb, lt_of_ltb, le_of_ltb, Bool-cases, nat_eq, list_eq, ◌==◌, ==_iff,
}
use kya_os_mcp.Audit.Merkle.{
  is_odd, halve_while_even, after_left, double_while, largest_power_of_two_less_than,
}

-- The split is a power of two, below the size and at least half of it.
double_while-bounds :
    (f a value : ℕ)
    → 2 ^ a < value
    → value ≤ f + 2 ^ a
    → (d : ℕ) × (double_while f (2 ^ a) value ≡ 2 ^ d) × (2 ^ d < value) × (value ≤ 2 ^ suc d)
unfolding double_while
double_while-bounds zero a value h k = absurd (omega arith)
double_while-bounds (suc f) a value h k = elim (Bool-cases (ltb (2 ^ a * 2) value)) [
  | inl more ↦
      let next = sym (pow-suc 2 a) in
      let some_pow = one-le-pow a 2 (omega arith) in
      let (d, at, low, high) =
        double_while-bounds f (suc a) value (ground (arith, pow-suc 2 a))
          (omega (arith, pow-suc 2 a)) in
      (d, rw (more, double_while) (rw next at), low, high)
  | inr done ↦ (a, rw (done, double_while) refl, h, ground (arith, pow-suc 2 a))
]

pub largest_power-bounds :
    (value : ℕ)
    → 2 ≤ value
    → (d : ℕ) × (largest_power_of_two_less_than value ≡ 2 ^ d)
      × (2 ^ d < value)
      × (value ≤ 2 ^ suc d)
unfolding largest_power_of_two_less_than
largest_power-bounds value h = double_while-bounds value 0 value (omega arith) (omega arith)

-- It is the only power of two with these bounds.
pub largest_power_unique :
    (value d : ℕ) → 2 ^ d < value → value ≤ 2 ^ suc d → largest_power_of_two_less_than value ≡ 2 ^ d
largest_power_unique value d low high =
    let some_pow = one-le-pow d 2 (omega arith) in
    let (e, at, low', high') = largest_power-bounds value (omega arith) in
    let same : e ≡ d = elim (Bool-cases (ltb e d)) [
      | inl less ↦
          absurd (omega (arith, pow-le-pow_right {n = 2} (omega arith) (lt_of_ltb e d less)))
      | inr more ↦ elim (Bool-cases (ltb d e)) [
        | inl less ↦
            absurd (omega (arith, pow-le-pow_right {n = 2} (omega arith) (lt_of_ltb d e less)))
        | inr equal ↦ omega (arith, le_of_ltb e d more, le_of_ltb d e equal)
      ]
    ] in
    at ∙ ap (λ n. 2 ^ n) same

module _ (f g position last : ℕ) where
  halve-even :
      is_odd position ≡ false
      → position ≢ 0
      → halve_while_even (suc f) position last ≡ halve_while_even f (position / 2) (last / 2)
  unfolding halve_while_even
  halve-even h k = let z : (position == 0) ≡ false = ground arith in rw (h, z) refl

  halve-odd : is_odd position ≡ true → halve_while_even f position last ≡ (position, last)
  unfolding halve_while_even
  halve-odd h = elim f as (λ f. halve_while_even f position last ≡ (position, last)) [
    | zero ↦ refl
    | suc f ↦ rw h refl
  ]

halve-zero : (f last : ℕ) → halve_while_even f 0 last ≡ (0, last)
unfolding halve_while_even
halve-zero zero last = refl
halve-zero (suc f) last = refl

-- A position's own number of rounds is enough.
halve-fuel :
    (f g position last : ℕ)
    → position ≤ f
    → position ≤ g
    → halve_while_even f position last ≡ halve_while_even g position last
halve-fuel f zero position last h k =
    let p : position ≡ 0 = omega arith in rw p (halve-zero f last ∙ sym (halve-zero 0 last))
halve-fuel zero (suc g) position last h k =
    let p : position ≡ 0 = omega arith in rw p (halve-zero 0 last ∙ sym (halve-zero (suc g) last))
halve-fuel (suc f) (suc g) position last h k = elim (Bool-cases (is_odd position)) [
  | inl o ↦ halve-odd (suc f) g position last o ∙ sym (halve-odd (suc g) f position last o)
  | inr o ↦ elim (Bool-cases (position == 0)) [
    | inl z ↦
        let p = (==_iff position 0).0 z in
        rw p (halve-zero (suc f) last ∙ sym (halve-zero (suc g) last))
    | inr z ↦
        let nz : position ≢ 0 = λ e. ground arith in
        halve-even f g position last o nz
        ∙ halve-fuel f g (position / 2) (last / 2) (omega arith) (omega arith)
        ∙ sym (halve-even g f position last o nz)
  ]
]

pub after_left-odd :
    (position last : ℕ) → is_odd position ≡ true → after_left position last ≡ (position, last)
unfolding after_left
after_left-odd position last h = halve-odd position position position last h

pub after_left-even :
    (position last : ℕ)
    → is_odd position ≡ false
    → position ≢ 0
    → after_left position last ≡ after_left (position / 2) (last / 2)
unfolding after_left
after_left-even zero last o h = absurd (h refl)
after_left-even (suc p) last o h =
    halve-even p p (suc p) last o h
    ∙ halve-fuel p (suc p / 2) (suc p / 2) (last / 2) (omega arith) (omega arith)
