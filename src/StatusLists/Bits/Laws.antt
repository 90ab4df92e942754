-- ===== src/StatusLists/Bits/Laws.antt =====
-- Reads after writes of src/delegation/bitstring.ts.
use mathlib.Core.Path.{subst}
use kya_os_mcp.Common.{
  ℕ, zero, suc, ◌+◌, ◌*◌, ◌/◌, ◌%◌, ◌≤◌, ◌<◌, ◌≡◌, refl, sym, ap, ◌∙◌, inl, inr, Bool, true, false,
  List, [], ◌∷◌, none, some, arith, ltb, lt_of_ltb, le_of_ltb, ltb_of_lt, some-injective, length,
  get_elem?, All, Bool-cases, if◌then◌else◌, nat_eq, ◌==◌, ==_iff,
}
use kya_os_mcp.StatusLists.Bits.{
  BitstringManager, zeros, new_bitstring, write_bit, update_at, set_bit, byte_bit, get_bit,
  of_bytes, read_status_bit,
}
use kya_os_mcp.StatusLists.Bits.Bytes.{read-write, write_bit-lt, read_bit-zero}

abbrev pub IsByte : ℕ → Type 0
IsByte n = n < 256

-- As many bytes as the size needs.
pub record IsBitstring (m : BitstringManager) : Type 0 where
  pub enough : length m.bits ≡ (m.size + 7) / 8
  pub are_bytes : All IsByte m.bits

length-update_at : (i : ℕ) (f : ℕ → ℕ) (xs : List ℕ) → length (update_at i f xs) ≡ length xs
unfolding update_at
length-update_at i f [] = refl
length-update_at zero f (x ∷ xs) = refl
length-update_at (suc i) f (x ∷ xs) = ap suc (length-update_at i f xs)

update_at-bytes :
    (i : ℕ) (f : ℕ → ℕ) (xs : List ℕ)
    → ((n : ℕ) → IsByte n → IsByte (f n))
    → All IsByte xs
    → All IsByte (update_at i f xs)
unfolding update_at
update_at-bytes i f [] h k = tt
update_at-bytes zero f (x ∷ xs) h (b, k) = (h x b, k)
update_at-bytes (suc i) f (x ∷ xs) h (b, k) = (b, update_at-bytes i f xs h k)

get_elem?-update_at :
    (i j : ℕ) (f : ℕ → ℕ) (xs : List ℕ)
    → (i == j) ≡ false
    → get_elem? (update_at i f xs) j ≡ get_elem? xs j
unfolding update_at
get_elem?-update_at i j f [] h = refl
get_elem?-update_at zero zero f (x ∷ xs) h = cc
get_elem?-update_at zero (suc j) f (x ∷ xs) h = refl
get_elem?-update_at (suc i) zero f (x ∷ xs) h = refl
get_elem?-update_at (suc i) (suc j) f (x ∷ xs) h = get_elem?-update_at i j f xs (ground arith)

get_elem?-updated :
    (i : ℕ) (f : ℕ → ℕ) (xs : List ℕ)
    → i < length xs
    → All IsByte xs
    → (byte : ℕ) × IsByte byte
      × (get_elem? xs i ≡ some byte)
      × (get_elem? (update_at i f xs) i ≡ some (f byte))
unfolding update_at
get_elem?-updated i f [] h k = absurd (omega arith)
get_elem?-updated zero f (x ∷ xs) h (b, k) = (x, b, refl, refl)
get_elem?-updated (suc i) f (x ∷ xs) h (b, k) = get_elem?-updated i f xs (omega arith) k

zeros-bytes : (n : ℕ) → All IsByte (zeros n)
zeros-bytes zero = tt
zeros-bytes (suc n) = (omega arith, zeros-bytes n)

length-zeros : (n : ℕ) → length (zeros n) ≡ n
length-zeros zero = refl
length-zeros (suc n) = ap suc (length-zeros n)

pub new_bitstring-IsBitstring : (size : ℕ) → IsBitstring (new_bitstring size)
unfolding new_bitstring
new_bitstring-IsBitstring size = record {
  enough = length-zeros ((size + 7) / 8);
  are_bytes = zeros-bytes ((size + 7) / 8);
}

pub zero_bit : (n i j : ℕ) → byte_bit j (get_elem? (zeros n) i) ≡ false
zero_bit zero i j = refl
zero_bit (suc n) zero j = read_bit-zero j
zero_bit (suc n) (suc i) j = zero_bit n i j

-- The write that `set_bit` makes in range.
abbrev pub with_bit : ℕ → Bool → BitstringManager → BitstringManager
unfolding update_at
with_bit index value m = record m {
  bits = update_at (index / 8) (write_bit value (index % 8)) m.bits;
}

pub set_bit-inside :
    (index : ℕ) (value : Bool) (m : BitstringManager)
    → ltb index m.size ≡ true
    → set_bit index value m ≡ some (with_bit index value m)
unfolding set_bit with_bit
set_bit-inside index value m h = rw h refl

pub length-with_bit :
    (index : ℕ) (value : Bool) (m : BitstringManager)
    → length (with_bit index value m).bits ≡ length m.bits
unfolding with_bit update_at
length-with_bit index value m = length-update_at (index / 8) (write_bit value (index % 8)) m.bits

pub with_bit-IsBitstring :
    (index : ℕ) (value : Bool) (m : BitstringManager)
    → IsBitstring m
    → IsBitstring (with_bit index value m)
unfolding with_bit
with_bit-IsBitstring index value m h = record {
  enough = length-update_at (index / 8) (write_bit value (index % 8)) m.bits ∙ h.enough;
  are_bytes =
      update_at-bytes (index / 8) (write_bit value (index % 8)) m.bits
        (λ n b. write_bit-lt value (index % 8) n (omega arith) b) h.are_bytes;
}

same_position : (i j : ℕ) → i / 8 ≡ j / 8 → (i % 8 == j % 8) ≡ (i == j)
same_position i j h = elim (Bool-cases (i == j)) [
  | inl e ↦
      let at = (==_iff i j).0 e in
      let rest : (i % 8 == j % 8) ≡ true = (==_iff (i % 8) (j % 8)).1 (omega arith) in rest ∙ sym e
  | inr e ↦ elim (Bool-cases (i % 8 == j % 8)) [
    | inl r ↦
        let at : i ≡ j = omega (arith, (==_iff (i % 8) (j % 8)).0 r) in
        absurd (let bad = (==_iff i j).1 at in cc)
    | inr r ↦ r ∙ sym e
  ]
]

pub some_if :
    {A : Type 0} (b : Bool) (x y : A) → some (if b then x else y) ≡ (if b then some x else some y)
some_if true x y = refl
some_if false x y = refl

byte_bit-with_bit :
    (i j : ℕ) (value : Bool) (m : BitstringManager)
    → IsBitstring m
    → i < m.size
    → byte_bit (j % 8) (get_elem? (with_bit i value m).bits (j / 8))
      ≡ (if i == j then value else byte_bit (j % 8) (get_elem? m.bits (j / 8)))
unfolding with_bit
byte_bit-with_bit i j value m h i_lt = elim (Bool-cases (i / 8 == j / 8)) [
  | inr apart ↦
      let other : (i == j) ≡ false = elim (Bool-cases (i == j)) [
        | inl e ↦
            let at = (==_iff i j).0 e in
            absurd (let bad = (==_iff (i / 8) (j / 8)).1 (ap (λ n. n / 8) at) in cc)
        | inr e ↦ e
      ] in
      rw (other, get_elem?-update_at (i / 8) (j / 8) (write_bit value (i % 8)) m.bits apart) refl
  | inl e ↦
      let same = (==_iff (i / 8) (j / 8)).0 e in
      let enough = h.enough in
      let (byte, is_byte, before, after) =
        get_elem?-updated (i / 8) (write_bit value (i % 8)) m.bits (omega arith) h.are_bytes in
      let before' = rw same at before in
      let after' = ap (get_elem? (with_bit i value m).bits) (sym same) ∙ after in
      ap (byte_bit (j % 8)) after'
      ∙ read-write value (i % 8) (j % 8) byte (omega arith) (omega arith) is_byte
      ∙ rw (same_position i j same, before') refl
]

pub get_bit-inside :
    (j : ℕ) (m : BitstringManager)
    → ltb j m.size ≡ true
    → get_bit j m ≡ some (byte_bit (j % 8) (get_elem? m.bits (j / 8)))
unfolding get_bit
get_bit-inside j m h = rw h refl

pub of_bytes-IsBitstring : (bytes : List ℕ) → All IsByte bytes → IsBitstring (of_bytes bytes)
unfolding of_bytes
of_bytes-IsBitstring bytes h = record { enough = omega arith; are_bytes = h }

pub of_bytes-length : (bytes : List ℕ) → (of_bytes bytes).size ≡ length bytes * 8
unfolding of_bytes
of_bytes-length bytes = refl

sized : List ℕ → ℕ → BitstringManager
sized bits n = record { bits = bits; size = n }

pub of_bytes-size : (m : BitstringManager) → m.size ≡ length m.bits * 8 → m ≡ of_bytes m.bits
unfolding of_bytes sized
of_bytes-size m h = ap (sized m.bits) h

pub get_bit-lt : (j : ℕ) (m : BitstringManager) (b : Bool) → get_bit j m ≡ some b → j < m.size
unfolding get_bit
get_bit-lt j m b h = elim (Bool-cases (ltb j m.size)) [
  | inl inside ↦ lt_of_ltb j m.size inside
  | inr out ↦ absurd (let bad = rw (out, get_bit) at h in cc)
]

pub get_bit-with_bit :
    (i j : ℕ) (value : Bool) (m : BitstringManager)
    → IsBitstring m
    → i < m.size
    → ltb j m.size ≡ true
    → get_bit j (with_bit i value m) ≡ (if i == j then some value else get_bit j m)
unfolding with_bit
get_bit-with_bit i j value m h i_lt j_lt =
    get_bit-inside j (with_bit i value m) j_lt
    ∙ ap (λ b. some b) (byte_bit-with_bit i j value m h i_lt)
    ∙ some_if (i == j) value (byte_bit (j % 8) (get_elem? m.bits (j / 8)))
    ∙ ap (λ o. if i == j then some value else o) (sym (get_bit-inside j m j_lt))

-- In a bitstring with as many bytes as its size needs: a bit that is set or cleared reads back, and
-- every other index in range reads as before; the result is again such a bitstring, of the same
-- size.
pub get_bit-set_bit :
    (i j : ℕ) (value : Bool) (m n : BitstringManager)
    → IsBitstring m
    → set_bit i value m ≡ some n
    → j < m.size
    → (get_bit j n ≡ (if i == j then some value else get_bit j m))
      × IsBitstring n
      × (n.size ≡ m.size)
unfolding set_bit
get_bit-set_bit i j value m n h wrote j_lt = elim (Bool-cases (ltb i m.size)) [
  | inr out ↦ absurd (let bad = rw (out, set_bit) at wrote in cc)
  | inl inside ↦
      let at : with_bit i value m ≡ n =
        some-injective (sym (set_bit-inside i value m inside) ∙ wrote) in
      (
        ap (get_bit j) (sym at)
            ∙ get_bit-with_bit i j value m h (lt_of_ltb i m.size inside) (ltb_of_lt j m.size j_lt),
        subst IsBitstring at (with_bit-IsBitstring i value m h),
        ap (λ (b : BitstringManager). b.size) (sym at),
      )
]

-- The two readers agree: on a list of bytes, `getBit` of the manager built around it and
-- `readStatusBit` answer alike at every index, and throw at the same ones.
pub get_bit-read_status_bit :
    (bytes : List ℕ) (index : ℕ) → get_bit index (of_bytes bytes) ≡ read_status_bit bytes index
unfolding get_bit of_bytes read_status_bit
get_bit-read_status_bit bytes index = elim (Bool-cases (ltb index (length bytes * 8))) [
  | inl inside ↦
      let lt = lt_of_ltb index (length bytes * 8) inside in
      let (byte, found) = found_at (index / 8) bytes (omega arith) in rw (inside, found) refl
  | inr outside ↦
      let le = le_of_ltb index (length bytes * 8) outside in
      rw (outside, missing_at (index / 8) bytes (omega arith)) refl
]
  where
    found_at : (i : ℕ) (xs : List ℕ) → i < length xs → (x : ℕ) × (get_elem? xs i ≡ some x)
    found_at i [] h = absurd (omega arith)
    found_at zero (x ∷ xs) h = (x, refl)
    found_at (suc i) (x ∷ xs) h = found_at i xs (omega arith)

    missing_at : (i : ℕ) (xs : List ℕ) → length xs ≤ i → get_elem? xs i ≡ none
    missing_at i [] h = refl
    missing_at zero (x ∷ xs) h = absurd (omega arith)
    missing_at (suc i) (x ∷ xs) h = missing_at i xs (omega arith)
