-- ===== src/StatusLists/Bits.antt =====
-- src/delegation/bitstring.ts and `readStatusBit` of src/utils/statuslist-bits.ts: the bits of a
-- status list, most significant first. `none` stands for a throw.
pub mod Bytes
pub mod Laws
pub mod Sets
use Prim.Native.Nat.{bit_and, bit_or, bit_xor}
use kya_os_mcp.Common.{
  ℕ, zero, suc, ◌+◌, ◌*◌, ◌/◌, ◌%◌, ◌^◌, Bool, true, false, not, List, [], ◌∷◌, Option, none, some,
  ltb, length, get_elem?, if◌then◌else◌, nat_eq, ◌==◌,
}

pub record BitstringManager : Type 0 where
  pub bits : List ℕ
  pub size : ℕ

abbrev pub zeros : ℕ → List ℕ
zeros zero = []
zeros (suc n) = 0 ∷ zeros n

-- The constructor: `Math.ceil(size / 8)` bytes of zeros.
unfoldable pub new_bitstring : ℕ → BitstringManager
new_bitstring size = record { bits = zeros ((size + 7) / 8); size = size }

-- `0x80 >> bitIndex`
abbrev pub bit_mask : ℕ → ℕ
bit_mask bit_index = 128 / 2 ^ bit_index

abbrev pub write_bit : Bool → ℕ → ℕ → ℕ
write_bit value bit_index byte =
    if value
    then bit_or byte (bit_mask bit_index)
    else bit_and byte (bit_xor 255 (bit_mask bit_index))

-- `(byte & (0x80 >> bitIndex)) !== 0`
abbrev pub read_bit : ℕ → ℕ → Bool
read_bit bit_index byte = not (bit_and byte (bit_mask bit_index) == 0)

-- A write to an item of a byte array; nothing out of range.
unfoldable pub update_at : ℕ → (ℕ → ℕ) → List ℕ → List ℕ
update_at i f [] = []
update_at zero f (x ∷ xs) = f x ∷ xs
update_at (suc i) f (x ∷ xs) = x ∷ update_at i f xs

unfoldable pub set_bit : ℕ → Bool → BitstringManager → Option BitstringManager
unfolding update_at
set_bit index value m =
    if ltb index m.size
    then some (record m { bits = update_at (index / 8) (write_bit value (index % 8)) m.bits })
    else none

-- A byte that is not there reads as 0 under `&`.
abbrev pub byte_bit : ℕ → Option ℕ → Bool
byte_bit bit_index none = false
byte_bit bit_index (some byte) = read_bit bit_index byte

unfoldable pub get_bit : ℕ → BitstringManager → Option Bool
get_bit index m =
    if ltb index m.size then some (byte_bit (index % 8) (get_elem? m.bits (index / 8))) else none

-- The loop of `getSetBits` from `i` on, with the rounds left.
unfoldable pub set_bits_from : ℕ → ℕ → BitstringManager → List ℕ
unfolding get_bit
set_bits_from zero i m = []
set_bits_from (suc rounds) i m =
    let rest = set_bits_from rounds (suc i) m in
    elim (get_bit i m) [ some true ↦ i ∷ rest | _ ↦ rest ]

unfoldable pub get_set_bits : BitstringManager → List ℕ
unfolding set_bits_from
get_set_bits m = set_bits_from m.size 0 m

unfoldable pub set_all : List ℕ → Option BitstringManager → Option BitstringManager
unfolding set_bit
set_all indices none = none
set_all [] (some m) = some m
set_all (index ∷ indices) (some m) = set_all indices (set_bit index true m)

unfoldable pub from_set_bits : ℕ → List ℕ → Option BitstringManager
unfolding set_all new_bitstring
from_set_bits size indices = set_all indices (some (new_bitstring size))

-- The manager that `decode` builds around an inflated list.
unfoldable pub of_bytes : List ℕ → BitstringManager
of_bytes bytes = record { bits = bytes; size = length bytes * 8 }

abbrev pub read_byte : ℕ → Option ℕ → Option Bool
read_byte bit_index none = none
read_byte bit_index (some byte) = some (read_bit bit_index byte)

-- `readStatusBit`
unfoldable pub read_status_bit : List ℕ → ℕ → Option Bool
read_status_bit bytes index = read_byte (index % 8) (get_elem? bytes (index / 8))
