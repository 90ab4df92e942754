-- ===== src/StatusLists/Manager/Checks.antt =====
-- What `checkStatus` of src/delegation/statuslist-manager.ts answers.
use kya_os_mcp.Common.{
  ℕ, ◌≡◌, refl, sym, ap, ◌∙◌, inl, inr, Bool, List, Option, none, some, String, ok, bind-ok,
  require-ok, ok_injective, Bool-cases, nat_eq, string_eq, ◌==◌, ==_iff, ==_refl,
}
use kya_os_mcp.Delegation.Graph.{CredentialStatus}
use kya_os_mcp.Delegation.StatusEntry.{parse_status_list_index}
use kya_os_mcp.StatusLists.Bits.{get_bit, of_bytes, read_status_bit}
use kya_os_mcp.StatusLists.Bits.Laws.{get_bit-read_status_bit}
use kya_os_mcp.StatusLists.Payload.{decode_status_list_payload}
use kya_os_mcp.StatusLists.Storage.{StatusListCredential, MemoryStatusListStorage, get_status_list}
use kya_os_mcp.StatusLists.Manager.{
  out_of_range, assert_status_purpose, StatusList2021Manager, decode, check_status,
}

assert_status_purpose-ok :
    (purpose : Option String) (wanted : String)
    → assert_status_purpose purpose wanted ≡ ok tt
    → purpose ≡ some wanted
unfolding assert_status_purpose
assert_status_purpose-ok none wanted h = absurd (cc)
assert_status_purpose-ok (some purpose) wanted h = elim (Bool-cases (purpose == wanted)) [
  | inl e ↦ ap some ((==_iff purpose wanted).0 e)
  | inr e ↦ absurd (let bad = rw (e, assert_status_purpose) at h in cc)
]

module _ {P : Type 0} (manager : StatusList2021Manager P) where
  -- A check that answered: the list it read, and the bit.
  pub record Checked (status : CredentialStatus) (storage : MemoryStatusListStorage P) (bit : Bool)
      : Type 0 where
    pub list : StatusListCredential P
    pub bytes : List ℕ
    pub index : ℕ
    pub stored : get_status_list status.status_list_credential storage ≡ some list
    pub purpose : list.status_purpose ≡ some status.status_purpose
    pub decoded : decode_status_list_payload manager.codec list.encoded_list ≡ some bytes
    pub parsed : parse_status_list_index status.status_list_index ≡ some index
    pub read : get_bit index (of_bytes bytes) ≡ some bit

  pub check_status-Checked :
      (status : CredentialStatus) (storage : MemoryStatusListStorage P) (bit : Bool)
      → check_status manager status storage ≡ ok bit
      → Checked status storage bit
  unfolding check_status decode
  check_status-Checked status storage bit h =
      let (list, found, h1) = bind-ok _ _ bit h in
      let (parity, same, h2) = bind-ok _ _ bit h1 in
      let (bitstring, opened, h3) = bind-ok _ _ bit h2 in
      let (index, parsed, h4) = bind-ok _ _ bit h3 in
      let (bytes, inflated, made) = bind-ok _ _ bitstring opened in
      record {
        list = list;
        bytes = bytes;
        index = index;
        stored = require-ok _ _ list found;
        purpose = assert_status_purpose-ok list.status_purpose status.status_purpose same;
        decoded = require-ok _ _ bytes inflated;
        parsed = require-ok _ _ index parsed;
        read =
            ap (get_bit index) (ok_injective made)
            ∙ require-ok (out_of_range index) (get_bit index bitstring) bit h4;
      }

  pub Checked-check_status :
      (status : CredentialStatus) (storage : MemoryStatusListStorage P) (bit : Bool)
      → Checked status storage bit
      → check_status manager status storage ≡ ok bit
  unfolding check_status decode assert_status_purpose
  Checked-check_status status storage bit c =
      rw (c.stored, c.purpose, ==_refl status.status_purpose, c.decoded, c.parsed, c.read) refl

  -- `checkStatus` answers only from a list of the entry's own purpose that is stored under its
  -- address and can be read, for an index that is in the list: what it answers is the bit there.
  pub check_status-answers :
      (status : CredentialStatus) (storage : MemoryStatusListStorage P) (bit : Bool)
      → check_status manager status storage ≡ ok bit
      → (list : StatusListCredential P) × (bytes : List ℕ) × (index : ℕ) × (get_status_list
            status.status_list_credential storage
          ≡ some list)
        × (list.status_purpose ≡ some status.status_purpose)
        × (decode_status_list_payload manager.codec list.encoded_list ≡ some bytes)
        × (parse_status_list_index status.status_list_index ≡ some index)
        × (read_status_bit bytes index ≡ some bit)
  check_status-answers status storage bit h =
      let c = check_status-Checked status storage bit h in
      (
        c.list,
        c.bytes,
        c.index,
        c.stored,
        c.purpose,
        c.decoded,
        c.parsed,
        sym (get_bit-read_status_bit c.bytes c.index) ∙ c.read,
      )
