-- ===== src/StatusLists/Manager.antt =====
-- src/delegation/statuslist-manager.ts and src/utils/statuslist-purpose.ts: the manager on its
-- storage. A call runs as one step, as the per-list lock makes it. The codec, canonical JSON and
-- the signing function are parameters; `none` stands for a throw of theirs.
pub mod Checks
mod Written
pub mod Updates
use kya_os_mcp.Common.{
  ℕ, ◌*◌, Bool, true, false, not, List, [], ◌∷◌, Option, none, some, String, Result, ok, err, ◌>>=◌,
  require, leb, length, if◌then◌else◌, string_eq, ◌==◌,
}
use kya_os_mcp.Text.{Text}
use kya_os_mcp.Delegation.Graph.{CredentialStatus}
use kya_os_mcp.Delegation.StatusEntry.{parse_status_list_index}
use kya_os_mcp.Delegation.Revocation.{StatusLists}
use kya_os_mcp.StatusLists.Bits.{
  BitstringManager, new_bitstring, set_bit, get_bit, get_set_bits, of_bytes,
}
use kya_os_mcp.StatusLists.Payload.{Codec, encode_status_list_payload, decode_status_list_payload}
use kya_os_mcp.StatusLists.Storage.{
  StatusListCredential, MemoryStatusListStorage, get_status_list, set_status_list, allocate_index,
}

pub data StatusListError : Type 0 where
  not_found : String → StatusListError
  no_purpose : String → StatusListError
  purpose_mismatch : String → String → StatusListError
  unreadable : StatusListError
  invalid_index : String → StatusListError
  out_of_range : ℕ → StatusListError
  not_encoded : StatusListError
  not_signed : StatusListError
  list_full : String → ℕ → ℕ → StatusListError

-- `assertStatusPurpose`
unfoldable pub assert_status_purpose : Option String → String → Result {0, 0} StatusListError Unit
assert_status_purpose none wanted = err (no_purpose wanted)
assert_status_purpose (some purpose) wanted =
    if purpose == wanted then ok tt else err (purpose_mismatch purpose wanted)

-- What a manager is constructed with.
pub record StatusList2021Manager (P : Type 0) : Type 0 where
  pub codec : Codec
  pub did : String
  pub key_id : String
  pub canonicalize_json : StatusListCredential P → Text
  pub signing_function : Text → String → String → Option P
  pub default_list_size : ℕ

module _ {P : Type 0} (manager : StatusList2021Manager P) where
  abbrev Storage : Type 0
  Storage = MemoryStatusListStorage P

  -- `BitstringManager.decode`
  unfoldable pub decode : Text → Result StatusListError BitstringManager
  unfolding decode_status_list_payload of_bytes
  decode encoded_list = do
    bytes ← require unreadable (decode_status_list_payload manager.codec encoded_list)
    ok (of_bytes bytes)

  -- The credential without its proof is signed, and carries the new proof.
  unfoldable pub signed : StatusListCredential P → Result StatusListError (StatusListCredential P)
  signed credential = do
    proof ← require not_signed (
        manager.signing_function (manager.canonicalize_json (record credential { proof = none }))
          manager.did manager.key_id)
    ok (record credential { proof = some proof })

  -- `doUpdateStatus` up to the write.
  unfoldable pub updated_list :
      CredentialStatus → Bool → Storage → Result StatusListError (StatusListCredential P)
  unfolding get_status_list decode parse_status_list_index set_bit encode_status_list_payload signed
  updated_list status revoked storage = do
    list ←
        require (not_found status.status_list_credential)
          (get_status_list status.status_list_credential storage)
    bitstring ← decode list.encoded_list
    index ←
        require (invalid_index status.status_list_index)
          (parse_status_list_index status.status_list_index)
    changed ← require (out_of_range index) (set_bit index revoked bitstring)
    encoded ← require not_encoded (encode_status_list_payload manager.codec changed.bits)
    signed (record list { encoded_list = encoded })

  unfoldable pub stored :
      String
      → Storage
      → Result StatusListError (StatusListCredential P)
      → Storage × Option StatusListError
  unfolding set_status_list
  stored id storage (ok credential) = (set_status_list id credential storage, none)
  stored id storage (err e) = (storage, some e)

  -- `updateStatus`
  unfoldable pub update_status :
      CredentialStatus → Bool → Storage → Storage × Option StatusListError
  unfolding updated_list stored
  update_status status revoked storage =
      stored status.status_list_credential storage (updated_list status revoked storage)

  unfoldable pub check_status : CredentialStatus → Storage → Result StatusListError Bool
  unfolding get_status_list assert_status_purpose decode parse_status_list_index get_bit
  check_status status storage = do
    list ←
        require (not_found status.status_list_credential)
          (get_status_list status.status_list_credential storage)
    parity ← assert_status_purpose list.status_purpose status.status_purpose
    bitstring ← decode list.encoded_list
    index ←
        require (invalid_index status.status_list_index)
          (parse_status_list_index status.status_list_index)
    require (out_of_range index) (get_bit index bitstring)

  unfoldable pub get_revoked_indices : String → Storage → Result StatusListError (List ℕ)
  unfolding get_status_list decode get_set_bits
  get_revoked_indices id storage = elim (get_status_list id storage) [
    | none ↦ ok []
    | some list ↦ do bitstring ← decode list.encoded_list; ok (get_set_bits bitstring)
  ]

  -- The manager as revocation uses it.
  abbrev pub manager_lists : StatusLists Storage StatusListError
  unfolding update_status check_status
  manager_lists = record { update_status = update_status; check_status = check_status }
