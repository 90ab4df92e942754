-- ===== src/StatusLists/Bits/Bytes.antt =====
-- One bit of a byte is written and the others are kept: every byte and position, by evaluation.
use Prim.Native.Nat.{bit_and, bit_and-bitwise}
use kya_os_mcp.Common.{
  ℕ, zero, suc, ◌<◌, ◌≡◌, refl, Bool, true, false, ◌&&◌, not, arith, ltb, lt_of_ltb, and_left,
  Bool-cases, inl, inr, ==_iff, and_right, Bool-cases, if◌then◌else◌, nat_eq, ◌==◌,
}
use kya_os_mcp.StatusLists.Bits.{bit_mask, write_bit, read_bit}

-- The test holds at every number under the limit.
everywhere : (ℕ → Bool) → ℕ → Bool
everywhere test zero = true
everywhere test (suc limit) = everywhere test limit && test limit

everywhere-at :
    (test : ℕ → Bool) (limit n : ℕ) → n < limit → everywhere test limit ≡ true → test n ≡ true
unfolding everywhere
everywhere-at test zero n under passed = absurd (omega arith)
everywhere-at test (suc limit) n under passed = elim (Bool-cases (n == limit)) [
  | inl e ↦ rw ((==_iff n limit).0 e) (and_right (everywhere test limit) (test limit) passed)
  | inr e ↦
      everywhere-at test limit n (ground arith)
        (and_left (everywhere test limit) (test limit) passed)
]

abbrev agree : Bool → Bool → Bool
agree true b = b
agree false b = not b

agree_sound : (a b : Bool) → agree a b ≡ true → a ≡ b
agree_sound true b h = ground arith
agree_sound false b h = ground arith

-- What a write of `v` at `i` does to the bit `j` of a byte.
abbrev written : Bool → ℕ → ℕ → ℕ → Bool
written v i j byte =
    agree (read_bit j (write_bit v i byte)) (if i == j then v else read_bit j byte)
    && ltb (write_bit v i byte) 256

abbrev written_everywhere : Bool → Bool
unfolding everywhere
written_everywhere v = everywhere (λ i. everywhere (λ j. everywhere (written v i j) 256) 8) 8

set_table : written_everywhere true ≡ true
unfolding written_everywhere everywhere
set_table = refl

clear_table : written_everywhere false ≡ true
unfolding written_everywhere everywhere
clear_table = refl

table_at :
    (v : Bool) (i j byte : ℕ)
    → written_everywhere v ≡ true
    → i < 8
    → j < 8
    → byte < 256
    → written v i j byte ≡ true
unfolding written_everywhere
table_at v i j byte h i_lt j_lt byte_lt = everywhere-at (written v i j) 256 byte byte_lt (
    everywhere-at (λ j. everywhere (written v i j) 256) 8 j j_lt
      (everywhere-at (λ i. everywhere (λ j. everywhere (written v i j) 256) 8) 8 i i_lt h))

written_at : (v : Bool) (i j byte : ℕ) → i < 8 → j < 8 → byte < 256 → written v i j byte ≡ true
written_at true i j byte i_lt j_lt byte_lt = table_at true i j byte set_table i_lt j_lt byte_lt
written_at false i j byte i_lt j_lt byte_lt = table_at false i j byte clear_table i_lt j_lt byte_lt

-- A bit after a write, in the same byte.
pub read-write :
    (v : Bool) (i j byte : ℕ)
    → i < 8
    → j < 8
    → byte < 256
    → read_bit j (write_bit v i byte) ≡ (if i == j then v else read_bit j byte)
read-write v i j byte i_lt j_lt byte_lt =
    agree_sound (read_bit j (write_bit v i byte)) (if i == j then v else read_bit j byte)
      (and_left _ _ (written_at v i j byte i_lt j_lt byte_lt))

pub write_bit-lt : (v : Bool) (i byte : ℕ) → i < 8 → byte < 256 → write_bit v i byte < 256
write_bit-lt v i byte i_lt byte_lt =
    lt_of_ltb (write_bit v i byte) 256
      (and_right _ _ (written_at v i 0 byte i_lt (omega arith) byte_lt))

pub read_bit-zero : (j : ℕ) → read_bit j 0 ≡ false
read_bit-zero j = rw (zero-bit_and (bit_mask j)) refl
  where
    zero-bit_and : (b : ℕ) → bit_and 0 b ≡ 0
    zero-bit_and b = bit_and-bitwise 0 b
