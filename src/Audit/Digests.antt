-- ===== src/Audit/Digests.antt =====
-- src/audit/merkle.ts: `digestBytes`, the bytes of a `sha256:<lowercase-hex>` digest.
use kya_os_mcp.Common.{
  ℕ, ◌+◌, ◌-◌, ◌*◌, ◌<◌, ◌≡◌, refl, inl, inr, ◌&&◌, List, [], ◌∷◌, ◌++◌, Option, none, some, arith,
  leb, length, Bool-cases, if◌then◌else◌, nat_eq, ◌==◌, ==_iff,
}
use kya_os_mcp.Text.{Text}

abbrev pub Bytes : Type 0
Bytes = List ℕ

abbrev pub Digest : Type 0
Digest = Text

-- One of `a-f0-9`, by its value.
unfoldable pub hex_value : ℕ → Option ℕ
hex_value c =
    if leb 48 c && leb c 57
    then some (c - 48)
    else (if leb 97 c && leb c 102 then some (c - 87) else none)

abbrev pub push_byte : ℕ → ℕ → Option Bytes → Option Bytes
push_byte a b none = none
push_byte a b (some bytes) = some ((a * 16 + b) ∷ bytes)

abbrev pub hex_pair : Option ℕ → Option ℕ → Option Bytes → Option Bytes
hex_pair (some a) (some b) rest = push_byte a b rest
hex_pair _ _ rest = none

-- `hex` in pairs; `none` where a code unit is not a lowercase hex digit.
unfoldable pub hex_bytes : Text → Option Bytes
unfolding hex_value
hex_bytes [] = some []
hex_bytes (a ∷ []) = none
hex_bytes (a ∷ b ∷ rest) = hex_pair (hex_value a) (hex_value b) (hex_bytes rest)

-- `value` after a prefix it starts with.
unfoldable pub strip : Text → Text → Option Text
strip [] value = some value
strip (c ∷ p) [] = none
strip (c ∷ p) (d ∷ value) = let rest = strip p value in if c == d then rest else none

abbrev pub algorithm_prefix : Text
algorithm_prefix = 115 ∷ 104 ∷ 97 ∷ 50 ∷ 53 ∷ 54 ∷ 58 ∷ []

-- What follows the prefix is 64 hex digits.
unfoldable of_hex : Option Text → Option Bytes
unfolding hex_bytes
of_hex none = none
of_hex (some hex) = if length hex == 64 then hex_bytes hex else none

-- `digestBytes`; `none` where it throws.
unfoldable pub digest_bytes : Digest → Option Bytes
unfolding strip of_hex
digest_bytes digest = of_hex (strip algorithm_prefix digest)

hex_value-injective : (a b v : ℕ) → hex_value a ≡ some v → hex_value b ≡ some v → a ≡ b
unfolding hex_value
hex_value-injective a b v h k = grind arith

hex_value-lt : (a v : ℕ) → hex_value a ≡ some v → v < 16
unfolding hex_value
hex_value-lt a v h = grind arith

hex_pair-some :
    (o p : Option ℕ) (rest : Option Bytes) (bs : Bytes)
    → hex_pair o p rest ≡ some bs
    → (a : ℕ) × (b : ℕ) × (tail : Bytes) × (o ≡ some a)
      × (p ≡ some b)
      × (rest ≡ some tail)
      × (bs ≡ (a * 16 + b) ∷ tail)
hex_pair-some (some a) (some b) (some tail) bs h = (a, b, tail, refl, refl, refl, cc)
hex_pair-some (some a) (some b) none bs h = absurd (cc)
hex_pair-some (some a) none rest bs h = absurd (cc)
hex_pair-some none p rest bs h = absurd (cc)

hex_bytes-injective :
    (s t : Text) (bs : Bytes) → hex_bytes s ≡ some bs → hex_bytes t ≡ some bs → s ≡ t
unfolding hex_bytes
hex_bytes-injective [] [] bs h k = refl
hex_bytes-injective [] (b ∷ []) bs h k = cc
hex_bytes-injective (a ∷ []) t bs h k = cc
hex_bytes-injective (a ∷ a' ∷ s) (b ∷ []) bs h k = cc
hex_bytes-injective [] (b ∷ b' ∷ t) bs h k =
    let (v, w, tail, p, q, r, e) = hex_pair-some (hex_value b) (hex_value b') (hex_bytes t) bs k in
    cc
hex_bytes-injective (a ∷ a' ∷ s) [] bs h k =
    let (v, w, tail, p, q, r, e) = hex_pair-some (hex_value a) (hex_value a') (hex_bytes s) bs h in
    cc
hex_bytes-injective (a ∷ a' ∷ s) (b ∷ b' ∷ t) bs h k =
    let (v, w, tail, p, q, r, e) = hex_pair-some (hex_value a) (hex_value a') (hex_bytes s) bs h in
    let (v', w', tail', p', q', r', e') =
      hex_pair-some (hex_value b) (hex_value b') (hex_bytes t) bs k in
    let same : v * 16 + w ≡ v' * 16 + w' = cc in
    let rest : tail ≡ tail' = cc in
    let low = hex_value-lt a' w q in
    let low' = hex_value-lt b' w' q' in
    let high : v ≡ v' = omega arith in
    let last : w ≡ w' = omega arith in
    let first = hex_value-injective a b v p (rw (high) (p')) in
    let second = hex_value-injective a' b' w q (rw (last) (q')) in
    let ih = hex_bytes-injective s t tail r (rw (rest) (r')) in cc

hex_bytes-length : (s : Text) (bs : Bytes) → hex_bytes s ≡ some bs → length s ≡ 2 * length bs
unfolding hex_bytes
hex_bytes-length [] bs h = let e : bs ≡ [] = cc in rw e refl
hex_bytes-length (a ∷ []) bs h = cc
hex_bytes-length (a ∷ a' ∷ s) bs h =
    let (v, w, tail, p, q, r, e) = hex_pair-some (hex_value a) (hex_value a') (hex_bytes s) bs h in
    rw e (omega (arith, hex_bytes-length s tail r))

strip-some : (p d s : Text) → strip p d ≡ some s → d ≡ p ++ s
unfolding strip
strip-some [] d s h = cc
strip-some (c ∷ p) [] s h = cc
strip-some (c ∷ p) (b ∷ d) s h = elim (Bool-cases (c == b)) [
  | inl e ↦ let at = (==_iff c b).0 e in let rest = strip-some p d s (rw e at h) in cc
  | inr e ↦ absurd (let bad = rw e at h in cc)
]

of_hex-some :
    (o : Option Text) (bs : Bytes)
    → of_hex o ≡ some bs
    → (s : Text) × (o ≡ some s) × (length s ≡ 64) × (hex_bytes s ≡ some bs)
unfolding of_hex
of_hex-some none bs h = absurd (cc)
of_hex-some (some s) bs h = elim (Bool-cases (length s == 64)) [
  | inl e ↦ (s, refl, (==_iff (length s) 64).0 e, rw (e, of_hex) at h)
  | inr e ↦ absurd (let bad = rw (e, of_hex) at h in cc)
]

digest_bytes-some :
    (d : Digest) (bs : Bytes)
    → digest_bytes d ≡ some bs
    → (s : Text) × (d ≡ algorithm_prefix ++ s) × (length s ≡ 64) × (hex_bytes s ≡ some bs)
unfolding digest_bytes
digest_bytes-some d bs h =
    let (s, found, size, read) = of_hex-some (strip algorithm_prefix d) bs h in
    (s, strip-some algorithm_prefix d s found, size, read)

-- Two digests with the same bytes are the same digest.
pub digest_bytes-injective :
    (d e : Digest) (bs : Bytes) → digest_bytes d ≡ some bs → digest_bytes e ≡ some bs → d ≡ e
digest_bytes-injective d e bs h k =
    let (s, at, size, read) = digest_bytes-some d bs h in
    let (t, at', size', read') = digest_bytes-some e bs k in
    let same = hex_bytes-injective s t bs read read' in cc

pub digest_bytes-length : (d : Digest) (bs : Bytes) → digest_bytes d ≡ some bs → length bs ≡ 32
digest_bytes-length d bs h =
    let (s, at, size, read) = digest_bytes-some d bs h in omega (arith, hex_bytes-length s bs read)
