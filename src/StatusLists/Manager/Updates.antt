-- ===== src/StatusLists/Manager/Updates.antt =====
-- How `updateStatus` of src/delegation/statuslist-manager.ts changes what `checkStatus` answers.
use kya_os_mcp.Common.{
  ℕ, ◌*◌, ◌≤◌, ◌≡◌, refl, sym, ap, ◌∙◌, inl, inr, Bool, true, ◌&&◌, List, none, some,
  some-injective, ok, arith, ltb_of_lt, length, All, Bool-cases, if◌then◌else◌, nat_eq, string_eq,
  ◌==◌, ==_iff, ==_refl,
}
use kya_os_mcp.Text.{Text}
use kya_os_mcp.Delegation.Graph.{CredentialStatus}
use kya_os_mcp.Delegation.StatusEntry.{parse_status_list_index}
use kya_os_mcp.StatusLists.Bits.{BitstringManager, set_bit, get_bit, of_bytes}
use kya_os_mcp.StatusLists.Bits.Laws.{
  IsByte, some_if, get_bit-lt, of_bytes-size, of_bytes-length, of_bytes-IsBitstring, set_bit-inside,
  with_bit, with_bit-IsBitstring, length-with_bit, get_bit-set_bit,
}
use kya_os_mcp.StatusLists.Payload.{
  is_gzip, max_status_list_bytes, encode_status_list_payload, decode_status_list_payload, IsCodec,
  decode-encode, decoded-bounds, encode-total,
}
use kya_os_mcp.StatusLists.Storage.{StatusListCredential, MemoryStatusListStorage, get_status_list}
use kya_os_mcp.StatusLists.Manager.{StatusList2021Manager, update_status, check_status}
use kya_os_mcp.StatusLists.Manager.Checks.{check_status-Checked, Checked-check_status}
use kya_os_mcp.StatusLists.Manager.Written.{
  update_status-Written, signed-total, update_status-silent, get-set_status_list,
}

module _ {P : Type 0} (manager : StatusList2021Manager P) where
  module _ (is_codec : IsCodec manager.codec) where
    -- The bit of a list that was changed and encoded, after it is decoded again.
    rewritten :
        (bytes : List ℕ) (changed : BitstringManager) (i j : ℕ) (value before : Bool)
        (encoded : Text)
        → length bytes ≤ max_status_list_bytes
        → All IsByte bytes
        → set_bit i value (of_bytes bytes) ≡ some changed
        → encode_status_list_payload manager.codec changed.bits ≡ some encoded
        → get_bit j (of_bytes bytes) ≡ some before
        → (get_bit j (of_bytes changed.bits) ≡ some (if i == j then value else before))
          × (decode_status_list_payload manager.codec encoded ≡ some changed.bits)
    rewritten bytes changed i j value before encoded small are_bytes made written read =
        let start = of_bytes-IsBitstring bytes are_bytes in
        let (bit, is_bitstring, sizes) =
          get_bit-set_bit i j value (of_bytes bytes) changed start made
            (get_bit-lt j (of_bytes bytes) before read) in
        let enough = is_bitstring.enough in
        let length_of = of_bytes-length bytes in
        let size : changed.size ≡ length changed.bits * 8 = omega arith in
        let same : changed ≡ of_bytes changed.bits = of_bytes-size changed size in
        (
          ap (get_bit j) (sym same)
              ∙ bit
              ∙ ap (λ o. if i == j then some value else o) read
              ∙ sym (some_if (i == j) value before),
          decode-encode manager.codec changed.bits encoded is_codec (omega arith) written,
        )

    -- Where the codec undoes what it does on lists of at most 16 MiB, after an update that did not
    -- throw: an entry that could be checked before can be checked, and reads as the value written if
    -- it is the same index of the same list, as before otherwise.
    pub check_status-update_status :
        (status other : CredentialStatus) (value before : Bool)
        (storage : MemoryStatusListStorage P) (i j : ℕ)
        → (update_status manager status value storage).1 ≡ none
        → parse_status_list_index status.status_list_index ≡ some i
        → parse_status_list_index other.status_list_index ≡ some j
        → check_status manager other storage ≡ ok before
        → check_status manager other (update_status manager status value storage).0
          ≡ ok (
              if status.status_list_credential == other.status_list_credential && i == j
              then value
              else before)
    check_status-update_status status other value before storage i j done parsed parsed' checked =
        let w = update_status-Written manager status value storage done in
        let c = check_status-Checked manager other storage before checked in
        let index : w.index ≡ i = some-injective (sym w.parsed ∙ parsed) in
        let index' : c.index ≡ j = some-injective (sym c.parsed ∙ parsed') in
        let written : StatusListCredential P = record (w.list) {
          encoded_list = w.encoded;
          proof = some w.proof;
        } in
        let found =
          get-set_status_list manager status.status_list_credential other.status_list_credential
            written storage in
        ap (check_status manager other) w.result
        ∙ elim (Bool-cases (status.status_list_credential == other.status_list_credential)) [
          | inr apart ↦ rw apart (
              Checked-check_status manager other _ before (record {
                list = c.list;
                bytes = c.bytes;
                index = c.index;
                stored = found ∙ rw apart (c.stored);
                purpose = c.purpose;
                decoded = c.decoded;
                parsed = c.parsed;
                read = c.read;
              }))
          | inl same ↦
              let address =
                (==_iff status.status_list_credential other.status_list_credential).0 same in
              let list : w.list ≡ c.list =
                some-injective
                  (sym w.stored ∙ ap (λ a. get_status_list a storage) address ∙ c.stored) in
              let bytes : w.bytes ≡ c.bytes = some-injective (
                sym w.decoded
                ∙ ap
                    (λ (l : StatusListCredential P).
                      decode_status_list_payload manager.codec l.encoded_list)
                    list
                ∙ c.decoded) in
              let (small, are_bytes) =
                decoded-bounds manager.codec w.list.encoded_list w.bytes is_codec w.decoded in
              let (bit, decoded) =
                rewritten w.bytes w.changed w.index c.index value before w.encoded small are_bytes
                  w.made w.written (ap (λ b. get_bit c.index (of_bytes b)) bytes ∙ c.read) in
              rw (same, sym index, sym index')
                (Checked-check_status manager other _ _ (record {
                  list = written;
                  bytes = w.changed.bits;
                  index = c.index;
                  stored = found ∙ rw same refl;
                  purpose = ap (λ (l : StatusListCredential P). l.status_purpose) list ∙ c.purpose;
                  decoded = decoded;
                  parsed = c.parsed;
                  read = bit;
                }))
        ]

    -- Where the codec compresses every list of at most 16 MiB to GZIP and undoes that, and every text
    -- is signed: an entry that can be checked can be revoked and reinstated. The update does not
    -- throw, and the check then answers with the value written.
    pub update_status-takes_effect :
        (status : CredentialStatus) (value before : Bool) (storage : MemoryStatusListStorage P)
        → ((bits : List ℕ)
            → All IsByte bits
            → length bits ≤ max_status_list_bytes
            → (c : List ℕ) × (manager.codec.compress bits ≡ some c) × (is_gzip c ≡ true))
        → ((text : Text)
            → (proof : P) × (manager.signing_function text manager.did manager.key_id ≡ some proof))
        → check_status manager status storage ≡ ok before
        → ((update_status manager status value storage).1 ≡ none)
          × (check_status manager status (update_status manager status value storage).0 ≡ ok value)
    unfolding of_bytes
    update_status-takes_effect status value before storage compresses signs checked =
        let c = check_status-Checked manager status storage before checked in
        let (small, are_bytes) =
          decoded-bounds manager.codec c.list.encoded_list c.bytes is_codec c.decoded in
        let lt = get_bit-lt c.index (of_bytes c.bytes) before c.read in
        let made =
          set_bit-inside c.index value (of_bytes c.bytes)
            (ltb_of_lt c.index (of_bytes c.bytes).size lt) in
        let is_bitstring =
          with_bit-IsBitstring c.index value (of_bytes c.bytes)
            (of_bytes-IsBitstring c.bytes are_bytes) in
        let (encoded, written) =
          encode-total manager.codec (with_bit c.index value (of_bytes c.bytes)).bits (
            compresses (with_bit c.index value (of_bytes c.bytes)).bits is_bitstring.are_bytes (
              let e = length-with_bit c.index value (of_bytes c.bytes) in
              let l = of_bytes-length c.bytes in omega arith)) in
        let (credential, proved) =
          signed-total manager (record (c.list) { encoded_list = encoded }) signs in
        let silent =
          update_status-silent manager status value storage c.list c.bytes c.index
            (with_bit c.index value (of_bytes c.bytes)) encoded credential c.stored c.decoded
            c.parsed made written proved in
        (
          silent,
          check_status-update_status status status value before storage c.index c.index silent
                c.parsed c.parsed checked
              ∙ rw (==_refl status.status_list_credential, ==_refl c.index) refl,
        )
