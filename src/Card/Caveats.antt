-- ===== src/Card/Caveats.antt =====
-- The caveats of a capability of src/card/delegation.ts: objects with a `type`, whose other members
-- depend on it. `Date.parse` (epoch milliseconds) and `JSON.stringify` are parameters.
pub mod Order
use kya_os_mcp.Common.{
  ℕ, Bool, true, false, ◌&&◌, ◌||◌, List, Option, none, some, leb, ◌==◌, nat_eq, list_eq, option_eq,
  if◌then◌else◌, any, keep_if, not,
}
use kya_os_mcp.Text.{Text, codes}
use kya_os_mcp.Card.Json.{Json, Fields, member, deep_equal}
use kya_os_mcp.Card.Decimal.{decimal_lte}

-- `JSON.stringify` and `Date.parse`, `none` for a date that cannot be read.
pub record Platform : Type 0 where
  pub stringify : Json → Text
  pub parse_date : Text → Option ℕ

abbrev pub Caveat : Type 0
Caveat = Fields

-- A member that is a string.
abbrev text_of : Option Json → Option Text
text_of (some (Json.text t)) = some t
text_of _ = none

abbrev pub text_member : Text → Caveat → Option Text
text_member key c = text_of (member key c)

abbrev pub caveat_type : Caveat → Option Text
caveat_type c = text_member (codes "type") c

abbrev pub date : Caveat → Option Text
date c = text_member (codes "date") c

abbrev pub limit : Caveat → Option Text
limit c = text_member (codes "limit") c

abbrev pub currency : Caveat → Option Text
currency c = text_member (codes "currency") c

abbrev pub valid_until_type : Option Text
valid_until_type = some (codes "ValidUntil")

abbrev pub max_amount_type : Option Text
max_amount_type = some (codes "MaxAmount")

-- Both are there and in relation.
abbrev pub both_are : (Text → Text → Bool) → Option Text → Option Text → Bool
both_are r (some a) (some b) = r a b
both_are r _ _ = false

abbrev pub both_dates : Option ℕ → Option ℕ → Bool
both_dates (some c) (some p) = leb c p
both_dates _ _ = false

abbrev is_undefined : Option Text → Bool
is_undefined none = true
is_undefined (some t) = false

-- A parent without a currency allows any.
unfoldable pub currency_narrows : Option Text → Option Text → Bool
currency_narrows parent child = is_undefined parent || parent == child

module _ (platform : Platform) where
  unfoldable pub date_lte : Text → Text → Bool
  date_lte child parent = both_dates (platform.parse_date child) (platform.parse_date parent)

  unfoldable pub caveat_narrows : Caveat → Caveat → Bool
  unfolding date_lte currency_narrows decimal_lte deep_equal
  caveat_narrows parent child =
      if not (caveat_type parent == caveat_type child)
      then false
      else (if caveat_type parent == valid_until_type
          then both_are date_lte (date child) (date parent)
          else (if caveat_type parent == max_amount_type
              then currency_narrows (currency parent) (currency child)
                && both_are decimal_lte (limit child) (limit parent)
              else deep_equal platform.stringify (Json.object parent) (Json.object child)))
