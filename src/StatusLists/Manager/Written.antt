-- ===== src/StatusLists/Manager/Written.antt =====
-- What `updateStatus` of src/delegation/statuslist-manager.ts writes.
use kya_os_mcp.Common.{
  ℕ, ◌≡◌, refl, sym, ap, ◌∙◌, inl, inr, Bool, List, none, some, String, ok, bind-ok, require-ok,
  ok_injective, Result-cases, Option-cases, if◌then◌else◌, nat_eq, string_eq, ◌==◌,
}
use kya_os_mcp.Common.Map.{get-set}
use kya_os_mcp.Text.{Text}
use kya_os_mcp.Delegation.Graph.{CredentialStatus}
use kya_os_mcp.Delegation.StatusEntry.{parse_status_list_index}
use kya_os_mcp.StatusLists.Bits.{BitstringManager, set_bit, of_bytes}
use kya_os_mcp.StatusLists.Payload.{encode_status_list_payload, decode_status_list_payload}
use kya_os_mcp.StatusLists.Storage.{
  StatusListCredential, MemoryStatusListStorage, get_status_list, set_status_list,
}
use kya_os_mcp.StatusLists.Manager.{
  StatusList2021Manager, decode, signed, stored, updated_list, update_status,
}

module _ {P : Type 0} (manager : StatusList2021Manager P) where
  -- An update that was written: the list it read, and the one that took its place.
  pub record Written (status : CredentialStatus) (value : Bool)
      (storage : MemoryStatusListStorage P) (after : MemoryStatusListStorage P) : Type 0 where
    pub list : StatusListCredential P
    pub bytes : List ℕ
    pub index : ℕ
    pub changed : BitstringManager
    pub encoded : Text
    pub proof : P
    pub stored : get_status_list status.status_list_credential storage ≡ some list
    pub decoded : decode_status_list_payload manager.codec list.encoded_list ≡ some bytes
    pub parsed : parse_status_list_index status.status_list_index ≡ some index
    pub made : set_bit index value (of_bytes bytes) ≡ some changed
    pub written : encode_status_list_payload manager.codec changed.bits ≡ some encoded
    pub result :
        after
        ≡ set_status_list status.status_list_credential
            (record list { encoded_list = encoded; proof = some proof })
            storage

  signed-proof :
      (list credential : StatusListCredential P)
      → signed manager list ≡ ok credential
      → (proof : P) × (credential ≡ record list { proof = some proof })
  unfolding signed
  signed-proof list credential h =
      elim (Option-cases (
        manager.signing_function (manager.canonicalize_json (record list { proof = none }))
          manager.did manager.key_id)) [
            | inl failed ↦ absurd (let bad = rw (failed, signed) at h in cc)
            | inr (proof, made) ↦ (proof, sym (ok_injective (rw (made, signed) at h)))
          ]

  update_status-done :
      (status : CredentialStatus) (value : Bool) (storage : MemoryStatusListStorage P)
      (credential : StatusListCredential P)
      → updated_list manager status value storage ≡ ok credential
      → (update_status manager status value storage).0
        ≡ set_status_list status.status_list_credential credential storage
  unfolding update_status stored
  update_status-done status value storage credential h = rw h refl

  pub update_status-Written :
      (status : CredentialStatus) (value : Bool) (storage : MemoryStatusListStorage P)
      → (update_status manager status value storage).1 ≡ none
      → Written status value storage (update_status manager status value storage).0
  unfolding update_status updated_list decode signed stored
  update_status-Written status value storage h =
      elim (Result-cases (updated_list manager status value storage)) [
        | inr (e, failed) ↦ absurd (let bad = rw (failed, update_status) at h in cc)
        | inl (credential, done) ↦
            let (list, found, h1) = bind-ok _ _ credential done in
            let (bitstring, opened, h2) = bind-ok _ _ credential h1 in
            let (index, parsed, h3) = bind-ok _ _ credential h2 in
            let (changed, made, h4) = bind-ok _ _ credential h3 in
            let (encoded, written, h5) = bind-ok _ _ credential h4 in
            let (proof, proved) =
              signed-proof (record list { encoded_list = encoded }) credential h5 in
            let (bytes, inflated, whole) = bind-ok _ _ bitstring opened in
            record {
              list = list;
              bytes = bytes;
              index = index;
              changed = changed;
              encoded = encoded;
              proof = proof;
              stored = require-ok _ _ list found;
              decoded = require-ok _ _ bytes inflated;
              parsed = require-ok _ _ index parsed;
              made = ap (set_bit index value) (ok_injective whole) ∙ require-ok _ _ changed made;
              written = require-ok _ _ encoded written;
              result =
                  update_status-done status value storage credential done
                  ∙ ap
                      (λ (c : StatusListCredential P).
                        set_status_list status.status_list_credential c storage)
                      proved;
            }
      ]

  pub signed-total :
      (list : StatusListCredential P)
      → ((text : Text)
          → (proof : P) × (manager.signing_function text manager.did manager.key_id ≡ some proof))
      → (credential : StatusListCredential P) × (signed manager list ≡ ok credential)
  unfolding signed
  signed-total list signs =
      let (proof, made) = signs (manager.canonicalize_json (record list { proof = none })) in
      (record list { proof = some proof }, rw made refl)

  pub update_status-silent :
      (status : CredentialStatus) (value : Bool) (storage : MemoryStatusListStorage P)
      (list : StatusListCredential P) (bytes : List ℕ) (index : ℕ) (changed : BitstringManager)
      (encoded : Text) (credential : StatusListCredential P)
      → get_status_list status.status_list_credential storage ≡ some list
      → decode_status_list_payload manager.codec list.encoded_list ≡ some bytes
      → parse_status_list_index status.status_list_index ≡ some index
      → set_bit index value (of_bytes bytes) ≡ some changed
      → encode_status_list_payload manager.codec changed.bits ≡ some encoded
      → signed manager (record list { encoded_list = encoded }) ≡ ok credential
      → (update_status manager status value storage).1 ≡ none
  unfolding update_status updated_list decode stored
  update_status-silent status value storage list bytes index changed encoded credential stored_at
        decoded parsed made written proved =
      rw (stored_at, decoded, parsed, made, written, proved) refl

  -- The list stored under an address after a write.
  pub get-set_status_list :
      (id other : String) (credential : StatusListCredential P)
      (storage : MemoryStatusListStorage P)
      → get_status_list other (set_status_list id credential storage)
        ≡ (if id == other then some credential else get_status_list other storage)
  unfolding get_status_list set_status_list
  get-set_status_list id other credential storage = get-set id other credential storage.status_lists
