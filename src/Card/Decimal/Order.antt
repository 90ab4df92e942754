-- ===== src/Card/Decimal/Order.antt =====
-- Amounts are compared exactly.
use native.Mathlib.Nat.{pow-suc, one-le-pow, le_of_mul-le-mul_right, mul-le-mul_right}
use kya_os_mcp.Common.{
  ℕ, zero, suc, ◌+◌, ◌-◌, ◌*◌, ◌^◌, ◌≤◌, ◌≡◌, refl, sym, ap, ◌∙◌, ◌↔◌, true, [], ◌∷◌, ◌++◌, Option,
  none, some, arith, leb_of_le, le_of_leb, length, max, some-injective,
}
use kya_os_mcp.Text.{Text}
use kya_os_mcp.Card.Decimal.{
  DecimalParts, decimal_parts, zeros, big_int, scaled, parts_lte, decimal_lte,
}

pow_add : (a b : ℕ) → 10 ^ (a + b) ≡ 10 ^ a * 10 ^ b
pow_add zero b = let z : 0 + b ≡ b = omega arith in rw z (omega arith)
pow_add (suc a) b =
    let z : suc a + b ≡ suc (a + b) = omega arith in
    rw z (
      omega
        (arith, pow-suc 10 (a + b), pow-suc 10 a, ap (λ n. n * 10 ^ b) (pow-suc 10 a), pow_add a b))

big_int-append : (acc : ℕ) (s t : Text) → big_int acc (s ++ t) ≡ big_int (big_int acc s) t
unfolding big_int
big_int-append acc [] t = refl
big_int-append acc (c ∷ s) t = big_int-append (10 * acc + (c - b'0')) s t

big_int-zeros : (acc n : ℕ) → big_int acc (zeros n) ≡ acc * 10 ^ n
unfolding big_int zeros
big_int-zeros acc zero = omega arith
big_int-zeros acc (suc n) =
    big_int-zeros (10 * acc + 0) n ∙ omega (arith, ap (λ n. acc * n) (pow-suc 10 n))

-- The digits of a decimal without its point.
abbrev pub digits_value : DecimalParts → ℕ
digits_value d = big_int 0 (d.whole ++ d.fraction)

scaled-value :
    (scale : ℕ) (d : DecimalParts)
    → scaled scale d ≡ digits_value d * 10 ^ (scale - length d.fraction)
unfolding scaled
scaled-value scale d =
    big_int-append 0 d.whole (d.fraction ++ zeros (scale - length d.fraction))
    ∙ big_int-append (big_int 0 d.whole) d.fraction (zeros (scale - length d.fraction))
    ∙ ap (λ n. big_int n (zeros (scale - length d.fraction)))
        (sym (big_int-append 0 d.whole d.fraction))
    ∙ big_int-zeros (digits_value d) (scale - length d.fraction)

-- Scaling to a common length and cross multiplication say the same.
module _ (v w l k s : ℕ) (le : l ≤ s) (le' : k ≤ s) where
  left_times : v * 10 ^ (s - l) * 10 ^ (l + k) ≡ v * 10 ^ k * 10 ^ s
  left_times =
      let whole : 10 ^ s ≡ 10 ^ (s - l) * 10 ^ l =
        ap (λ n. 10 ^ n) (omega arith) ∙ pow_add (s - l) l in
      omega (
        arith,
        pow_add l k,
        ap (λ n. v * 10 ^ k * n) whole,
        ap (λ n. v * 10 ^ (s - l) * n) (pow_add l k),
      )

  right_times : w * 10 ^ (s - k) * 10 ^ (l + k) ≡ w * 10 ^ l * 10 ^ s
  right_times =
      let whole : 10 ^ s ≡ 10 ^ (s - k) * 10 ^ k =
        ap (λ n. 10 ^ n) (omega arith) ∙ pow_add (s - k) k in
      omega (
        arith,
        pow_add l k,
        ap (λ n. w * 10 ^ l * n) whole,
        ap (λ n. w * 10 ^ (s - k) * n) (pow_add l k),
      )

  cross-scaled : (v * 10 ^ (s - l) ≤ w * 10 ^ (s - k)) → v * 10 ^ k ≤ w * 10 ^ l
  cross-scaled h =
      let high = mul-le-mul_right (10 ^ (l + k)) h in
      le_of_mul-le-mul_right (rw (left_times, right_times) at high) (one-le-pow s 10 (omega arith))

  scaled-cross : v * 10 ^ k ≤ w * 10 ^ l → (v * 10 ^ (s - l) ≤ w * 10 ^ (s - k))
  scaled-cross h =
      let high = mul-le-mul_right (10 ^ s) h in
      le_of_mul-le-mul_right (rw (← left_times, ← right_times) at high)
        (one-le-pow (l + k) 10 (omega arith))

-- One amount is no more than another: as fractions over powers of ten.
abbrev pub AtMost : DecimalParts → DecimalParts → Type 0
AtMost c p = digits_value c * 10 ^ length p.fraction ≤ digits_value p * 10 ^ length c.fraction

parts_lte→AtMost : (c p : DecimalParts) → parts_lte (some c) (some p) ≡ true → AtMost c p
unfolding scaled parts_lte
parts_lte→AtMost c p h =
    let s = max (length c.fraction) (length p.fraction) in
    let le = le_of_leb (scaled s c) (scaled s p) h in
    cross-scaled (digits_value c) (digits_value p) (length c.fraction) (length p.fraction) s
      (omega arith) (omega arith) (rw (scaled-value s c, scaled-value s p) at le)

AtMost→parts_lte : (c p : DecimalParts) → AtMost c p → parts_lte (some c) (some p) ≡ true
unfolding scaled parts_lte
AtMost→parts_lte c p h =
    let s = max (length c.fraction) (length p.fraction) in
    leb_of_le (scaled s c) (scaled s p) (
      rw (scaled-value s c, scaled-value s p)
        (scaled-cross (digits_value c) (digits_value p) (length c.fraction) (length p.fraction) s
          (omega arith) (omega arith) h))

-- `decimalLte` holds exactly where both texts are decimals and the first is at most the second as a
-- fraction, whatever the lengths of their fractions.
pub decimal_lte_iff :
    (child parent : Text)
    → (decimal_lte child parent ≡ true) ↔ (
        (c : DecimalParts) × (p : DecimalParts) × (decimal_parts child ≡ some c)
        × (decimal_parts parent ≡ some p)
        × AtMost c p)
unfolding decimal_lte
decimal_lte_iff child parent = (forth (decimal_parts child) (decimal_parts parent), back)
  where
    forth :
        (o q : Option DecimalParts)
        → parts_lte o q ≡ true
        → (c : DecimalParts) × (p : DecimalParts) × (o ≡ some c) × (q ≡ some p) × AtMost c p
    forth none q h = absurd (cc)
    forth (some c) none h = absurd (cc)
    forth (some c) (some p) h = (c, p, refl, refl, parts_lte→AtMost c p h)

    back :
        (c : DecimalParts) × (p : DecimalParts) × (decimal_parts child ≡ some c)
          × (decimal_parts parent ≡ some p)
          × AtMost c p
        → decimal_lte child parent ≡ true
    back (c, p, at, at', h) = rw (at, at', decimal_lte) (AtMost→parts_lte c p h)

AtMost-trans : (a b c : DecimalParts) → AtMost a b → AtMost b c → AtMost a c
AtMost-trans a b c h k =
    let low = mul-le-mul_right (10 ^ length c.fraction) h in
    let high = mul-le-mul_right (10 ^ length a.fraction) k in
    le_of_mul-le-mul_right {k = 10 ^ length b.fraction} (omega arith)
      (one-le-pow (length b.fraction) 10 (omega arith))

pub decimal_lte_trans :
    (a b c : Text) → decimal_lte a b ≡ true → decimal_lte b c ≡ true → decimal_lte a c ≡ true
decimal_lte_trans a b c h k =
    let (x, y, x_at, y_at, xy) = (decimal_lte_iff a b).0 h in
    let (y', z, y_at', z_at, yz) = (decimal_lte_iff b c).0 k in
    let same : y ≡ y' = some-injective (sym y_at ∙ y_at') in
    (decimal_lte_iff a c).1 (x, z, x_at, z_at, AtMost-trans x y z xy (rw (← same) at yz))
