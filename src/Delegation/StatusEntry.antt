-- ===== src/Delegation/StatusEntry.antt =====
-- src/delegation/delegation-status-entry.ts and `parseStatusListIndex` of
-- src/utils/statuslist-bits.ts: the status list entry of a graph node.
use Prim.Native.Char.{Char, code}
use kya_os_mcp.Common.{
  [], ℕ, ◌+◌, ◌-◌, ◌*◌, Bool, true, ◌&&◌, ◌||◌, not, Option, none, some, String, ◌==◌, string_eq,
  nat_eq, leb, if◌then◌else◌,
}
use kya_os_mcp.Delegation.Graph.{CredentialStatus, DelegationNode}

abbrev is_digit : Char → Bool
is_digit c = leb 48 (code c) && leb (code c) 57

-- A line terminator, which `.` does not match.
abbrev is_line_end : Char → Bool
is_line_end c = code c == 10 || (code c == 13 || (code c == 8232 || code c == 8233))

unfoldable pub all_digits : String → Bool
all_digits String.[] = true
all_digits (String.◌∷◌ c s) = is_digit c && all_digits s

unfoldable pub one_line : String → Bool
one_line String.[] = true
one_line (String.◌∷◌ c s) = not (is_line_end c) && one_line s

abbrev cons_left : Char → Option (String × String) → Option (String × String)
cons_left c none = none
cons_left c (some (l, r)) = some (String.◌∷◌ c l, r)

-- The parts before and after the last `#`.
unfoldable pub split_last : String → Option (String × String)
split_last String.[] = none
split_last (String.◌∷◌ c s) =
    let rest = split_last s in
    elim rest [
      | some parts ↦ cons_left c (some parts)
      | none ↦ if code c == 35 then some (String.[], s) else none
    ]

-- `STATUS_ENTRY_ID.exec`: `^(.+)#(\d+)$`
unfoldable pub match_entry_id : String → Option (String × String)
unfolding split_last all_digits one_line
match_entry_id id = elim (split_last id) [
  | none ↦ none
  | some (list, index) ↦
      if not (list == "") && (one_line list && (not (index == "") && all_digits index))
      then some (list, index)
      else none
]

-- The value of a row of digits, after those read before it.
unfoldable pub digits_value : ℕ → String → ℕ
digits_value v String.[] = v
digits_value v (String.◌∷◌ c s) = digits_value (v * 10 + (code c - 48)) s

abbrev pub max_safe_integer : ℕ
max_safe_integer = 9007199254740991

-- `parseStatusListIndex`; `none` where it throws.
unfoldable pub parse_status_list_index : String → Option ℕ
unfolding all_digits digits_value
parse_status_list_index raw =
    if not (raw == "") && all_digits raw
    then (if leb (digits_value 0 raw) max_safe_integer then some (digits_value 0 raw) else none)
    else none

-- `String(n)` of a parsed index: its digits without leading zeros.
unfoldable pub canonical_digits : String → String
canonical_digits String.[] = String.[]
canonical_digits (String.◌∷◌ c s) =
    let rest = canonical_digits s in if code c == 48 && not (s == "") then rest else String.◌∷◌ c s

pub data EntryReading : Type 0 where
  no_entry bad_index : EntryReading
  entry : CredentialStatus → EntryReading

-- `parseCredentialStatusId`
unfoldable pub parse_credential_status_id : String → EntryReading
unfolding match_entry_id parse_status_list_index canonical_digits
parse_credential_status_id id = elim (match_entry_id id) [
  | none ↦ no_entry
  | some (list, index) ↦ elim (parse_status_list_index index) [
    | none ↦ bad_index
    | some _ ↦ entry (record {
      id = some id;
      entry_type = "StatusList2021Entry";
      status_purpose = "revocation";
      status_list_index = canonical_digits index;
      status_list_credential = list;
      other_members = [];
    })
  ]
]

unfoldable pub status_id_entry : Option String → EntryReading
unfolding parse_credential_status_id
status_id_entry none = no_entry
status_id_entry (some id) = if id == "" then no_entry else parse_credential_status_id id

unfoldable pub node_status_entry : DelegationNode → EntryReading
unfolding status_id_entry
node_status_entry node = elim node.credential_status [
  | some status ↦ entry status
  | none ↦ status_id_entry node.credential_status_id
]
