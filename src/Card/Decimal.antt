-- ===== src/Card/Decimal.antt =====
-- `decimalParts` and `decimalLte` of src/card/delegation.ts: amounts written as decimals.
pub mod Order
use kya_os_mcp.Common.{
  ℕ, ◌+◌, ◌-◌, ◌*◌, max, Bool, true, false, ◌&&◌, ◌||◌, List, [], ◌∷◌, ◌++◌, Option, none, some,
  leb, ◌==◌, nat_eq, if◌then◌else◌, length, all, zero, suc,
}
use kya_os_mcp.Text.{Text}

abbrev pub is_digit : ℕ → Bool
is_digit c = leb b'0' c && leb c b'9'

-- White space and line ends, as `trim` drops them.
abbrev pub is_space : ℕ → Bool
is_space c =
    (leb 9 c && leb c 13)
    || (c == 32
        || (c == 160
            || (c == 0x1680
                || ((leb 0x2000 c && leb c 0x200a)
                    || (c == 0x2028
                        || (c == 0x2029
                            || (c == 0x202f || (c == 0x205f || (c == 0x3000 || c == 0xfeff)))))))))

unfoldable pub trim_start : Text → Text
trim_start [] = []
trim_start (c ∷ t) = let rest = trim_start t in if is_space c then rest else c ∷ t

-- A text with what stands after its last character that is no space left out.
unfoldable pub trim_end : Text → Text
trim_end [] = []
trim_end (c ∷ t) = elim (trim_end t) [
  | [] ↦ if is_space c then [] else c ∷ []
  | ◌∷◌ d rest ↦ c ∷ d ∷ rest
]

pub record DecimalParts : Type 0 where
  pub whole : Text
  pub fraction : Text

-- The digits ahead, and the rest.
unfoldable pub span_digits : Text → Text × Text
span_digits [] = ([], [])
span_digits (c ∷ t) =
    let rest = span_digits t in if is_digit c then (c ∷ rest.0, rest.1) else ([], c ∷ t)

-- What stands after the whole digits: nothing, or a point and at least one digit.
unfoldable pub fraction_of : Text → Option Text
fraction_of [] = some []
fraction_of (c ∷ []) = none
fraction_of (c ∷ d ∷ t) = if c == b'.' && all is_digit (d ∷ t) then some (d ∷ t) else none

abbrev with_whole : Text → Option Text → Option DecimalParts
with_whole [] o = none
with_whole (c ∷ whole) none = none
with_whole (c ∷ whole) (some fraction) = some (record { whole = c ∷ whole; fraction = fraction })

unfoldable pub decimal_parts : Text → Option DecimalParts
unfolding trim_start trim_end span_digits fraction_of
decimal_parts dec =
    let parts = span_digits (trim_start (trim_end dec)) in with_whole parts.0 (fraction_of parts.1)

-- `padEnd(scale, '0')`: the zeros that are added.
unfoldable pub zeros : ℕ → Text
zeros zero = []
zeros (suc n) = b'0' ∷ zeros n

-- `BigInt` of digits, after those that were read.
unfoldable pub big_int : ℕ → Text → ℕ
big_int acc [] = acc
big_int acc (c ∷ t) = big_int (10 * acc + (c - b'0')) t

unfoldable pub scaled : ℕ → DecimalParts → ℕ
unfolding zeros big_int
scaled scale d = big_int 0 (d.whole ++ (d.fraction ++ zeros (scale - length d.fraction)))

abbrev parts_lte : Option DecimalParts → Option DecimalParts → Bool
unfolding scaled
parts_lte (some c) (some p) =
    let scale = max (length c.fraction) (length p.fraction) in leb (scaled scale c) (scaled scale p)
parts_lte _ _ = false

unfoldable pub decimal_lte : Text → Text → Bool
unfolding decimal_parts parts_lte
decimal_lte child parent = parts_lte (decimal_parts child) (decimal_parts parent)
