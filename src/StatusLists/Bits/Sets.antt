-- ===== src/StatusLists/Bits/Sets.antt =====
-- `fromSetBits` and `getSetBits` of src/delegation/bitstring.ts.
use kya_os_mcp.Common.{
  ℕ, zero, suc, ◌+◌, ◌/◌, ◌%◌, ◌<◌, ◌≡◌, refl, sym, ap, ◌∙◌, inl, inr, Bool, true, false, ◌||◌,
  ◌&&◌, List, [], ◌∷◌, Option, some, arith, ltb, leb, leb_of_le, leb_of_lt, ltb_of_lt,
  some-injective, includes, Bool-cases, Option-cases, if◌then◌else◌, nat_eq, ◌==◌, ==_iff,
}
use kya_os_mcp.StatusLists.Bits.{
  BitstringManager, new_bitstring, set_bit, get_bit, set_bits_from, get_set_bits, set_all,
  from_set_bits,
}
use kya_os_mcp.StatusLists.Bits.Laws.{
  IsBitstring, new_bitstring-IsBitstring, zero_bit, some_if, get_bit-inside, get_bit-set_bit,
}

if_or :
    {A : Type 0} (a b : Bool) (x y : A)
    → (if b then x else (if a then x else y)) ≡ (if a || b then x else y)
if_or a b x y = ground arith

set_all-includes :
    (indices : List ℕ) (m n : BitstringManager) (j : ℕ)
    → IsBitstring m
    → set_all indices (some m) ≡ some n
    → j < m.size
    → (get_bit j n ≡ (if includes j indices then some true else get_bit j m)) × (n.size ≡ m.size)
unfolding set_all
set_all-includes [] m n j h made j_lt =
    let same : m ≡ n = some-injective made in
    (ap (get_bit j) (sym same), ap (λ (b : BitstringManager). b.size) (sym same))
set_all-includes (i ∷ indices) m n j h made j_lt = elim (Option-cases (set_bit i true m)) [
  | inl failed ↦ absurd (let bad = rw (failed, set_all) at made in cc)
  | inr (next, wrote) ↦
      let (here, next_is, sizes) = get_bit-set_bit i j true m next h wrote j_lt in
      let (there, sizes') =
        set_all-includes indices next n j next_is (rw (wrote, set_all) at made) (omega arith) in
      (
        there
            ∙ ap (λ o. if includes j indices then some true else o) here
            ∙ if_or (i == j) (includes j indices) (some true) (get_bit j m),
        sizes' ∙ sizes,
      )
]

pub get_bit-new : (size j : ℕ) → j < size → get_bit j (new_bitstring size) ≡ some false
unfolding new_bitstring
get_bit-new size j h =
    get_bit-inside j (new_bitstring size) (ltb_of_lt j size h)
    ∙ ap (λ b. some b) (zero_bit ((size + 7) / 8) (j / 8) (j % 8))

from_set_bits-get :
    (size j : ℕ) (indices : List ℕ) (m : BitstringManager)
    → from_set_bits size indices ≡ some m
    → j < size
    → (get_bit j m ≡ some (includes j indices)) × (m.size ≡ size)
unfolding from_set_bits new_bitstring
from_set_bits-get size j indices m made h =
    let (at, sizes) =
      set_all-includes indices (new_bitstring size) m j (new_bitstring-IsBitstring size) made h in
    (
      at
          ∙ ap (λ o. if includes j indices then some true else o) (get_bit-new size j h)
          ∙ sym (some_if (includes j indices) true false)
          ∙ ap (λ b. some b) (if_self (includes j indices)),
      sizes,
    )
  where
    if_self : (b : Bool) → (if b then true else false) ≡ b
    if_self b = ground arith

-- The test that `getSetBits` makes.
abbrev is_set : Option Bool → Bool
is_set (some true) = true
is_set _ = false

set_bits_none : (i j : ℕ) (m : BitstringManager) → includes j (set_bits_from 0 i m) ≡ false
unfolding set_bits_from
set_bits_none i j m = refl

set_bits_from-step :
    (rounds i : ℕ) (m : BitstringManager)
    → set_bits_from (suc rounds) i m ≡ (
        if is_set (get_bit i m)
        then i ∷ set_bits_from rounds (suc i) m
        else set_bits_from rounds (suc i) m)
unfolding set_bits_from
set_bits_from-step rounds i m = elim (Option-cases (get_bit i m)) [
  | inl e ↦ rw (e, set_bits_from) refl
  | inr (true, e) ↦ rw (e, set_bits_from) refl
  | inr (false, e) ↦ rw (e, set_bits_from) refl
]

includes-if :
    (b : Bool) (i j : ℕ) (rest : List ℕ)
    → includes j (if b then i ∷ rest else rest) ≡ ((b && i == j) || includes j rest)
includes-if true i j rest = refl
includes-if false i j rest = refl

range_step :
    (i j rounds : ℕ) (here there : Bool)
    → (i ≡ j → here ≡ there)
    → ((here && i == j) || (leb (suc i) j && (ltb j (suc i + rounds) && there)))
      ≡ (leb i j && (ltb j (i + suc rounds) && there))
range_step i j rounds here there h = elim (Bool-cases (i == j)) [
  | inl e ↦
      let at = (==_iff i j).0 e in
      let same = h at in
      rw
        (
          e,
          leb_of_lt (suc i) j (omega arith),
          leb_of_le i j (omega arith),
          ltb_of_lt j (i + suc rounds) (omega arith),
          same,
        )
        (ground arith)
  | inr e ↦ rw e (ground arith)
]

set_bits_from-includes :
    (rounds i j : ℕ) (m : BitstringManager)
    → includes j (set_bits_from rounds i m)
      ≡ (leb i j && (ltb j (i + rounds) && is_set (get_bit j m)))
set_bits_from-includes zero i j m = set_bits_none i j m ∙ ground arith
set_bits_from-includes (suc rounds) i j m =
    ap (includes j) (set_bits_from-step rounds i m)
    ∙ includes-if (is_set (get_bit i m)) i j (set_bits_from rounds (suc i) m)
    ∙ ap (λ b. (is_set (get_bit i m) && i == j) || b) (set_bits_from-includes rounds (suc i) j m)
    ∙ range_step i j rounds (is_set (get_bit i m)) (is_set (get_bit j m))
        (ap (λ n. is_set (get_bit n m)))

-- `fromSetBits` where no index is out of range: an index in range is among the bits that
-- `getSetBits` reports exactly when it was among the indices given.
pub get_set_bits-from_set_bits :
    (size j : ℕ) (indices : List ℕ) (m : BitstringManager)
    → from_set_bits size indices ≡ some m
    → j < size
    → includes j (get_set_bits m) ≡ includes j indices
unfolding get_set_bits
get_set_bits-from_set_bits size j indices m made h =
    let (at, sizes) = from_set_bits-get size j indices m made h in
    set_bits_from-includes m.size 0 j m
    ∙ rw (at, leb_of_le 0 j (omega arith), ltb_of_lt j (0 + m.size) (omega arith))
        (set_some (includes j indices))
  where
    set_some : (b : Bool) → is_set (some b) ≡ b
    set_some true = refl
    set_some false = refl
