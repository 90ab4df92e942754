-- ===== src/StatusLists/Tests.antt =====
-- A status list of sixteen entries, with a codec that puts the GZIP magic before the bytes.
use kya_os_mcp.Common.{
  ℕ, ◌≤◌, ◌&&◌, leb, leb_of_le, ◌≡◌, refl, sym, ap, ◌∙◌, inl, inr, Bool, true, false, List, [], ◌∷◌,
  Option, none, some, some-injective, String, ok, arith, ltb, lt_of_ltb, ltb_of_lt, and_left,
  and_right, length, all, All, Bool-cases, if◌then◌else◌, nat_eq, list_eq, ◌==◌, ==_iff,
}
use kya_os_mcp.Delegation.Graph.{CredentialStatus}
use kya_os_mcp.Delegation.StatusEntry.{parse_status_list_index}
use kya_os_mcp.StatusLists.Bits.{set_bit, get_bit}
use kya_os_mcp.StatusLists.Bits.Laws.{IsByte, IsBitstring, get_bit-set_bit}
use kya_os_mcp.StatusLists.Payload.{Codec, IsCodec, max_status_list_bytes}
use kya_os_mcp.StatusLists.Storage.{StatusListCredential, MemoryStatusListStorage}
use kya_os_mcp.StatusLists.Manager.{StatusList2021Manager, update_status, check_status}
use kya_os_mcp.StatusLists.Manager.Updates.{check_status-update_status, update_status-takes_effect}

abbrev small : List ℕ → Bool
small bits = all (λ n. ltb n 256) bits

unfoldable zip : List ℕ → Option (List ℕ)
zip bits = if small bits then some (31 ∷ 139 ∷ bits) else none

unfoldable unzip : List ℕ → Option (List ℕ)
unzip [] = none
unzip (a ∷ []) = none
unzip (a ∷ b ∷ bits) =
    if small bits && leb (length bits) max_status_list_bytes then some bits else none

abbrev codec : Codec
unfolding zip unzip
codec = record {
  compress = zip;
  decompress = unzip;
  base64url_encode = λ bytes. bytes;
  base64url_decode = λ text. some text;
}

zip-some : (bits c : List ℕ) → zip bits ≡ some c → (small bits ≡ true) × (c ≡ 31 ∷ 139 ∷ bits)
unfolding zip
zip-some bits c h = elim (Bool-cases (small bits)) [
  | inl e ↦ (e, sym (some-injective (rw (e, zip) at h)))
  | inr e ↦ absurd (let bad = rw (e, zip) at h in cc)
]

small-bytes : (bits : List ℕ) → small bits ≡ true → All IsByte bits
small-bytes [] h = tt
small-bytes (n ∷ bits) h = (lt_of_ltb n 256 (and_left _ _ h), small-bytes bits (and_right _ _ h))

bytes-small : (bits : List ℕ) → All IsByte bits → small bits ≡ true
bytes-small [] h = refl
bytes-small (n ∷ bits) (b, h) = rw (ltb_of_lt n 256 b, bytes-small bits h) refl

unzip-bytes : (c bits : List ℕ) → unzip c ≡ some bits → All IsByte bits
unfolding unzip
unzip-bytes [] bits h = absurd (cc)
unzip-bytes (a ∷ []) bits h = absurd (cc)
unzip-bytes (a ∷ b ∷ rest) bits h =
    elim (Bool-cases (small rest && leb (length rest) max_status_list_bytes)) [
      | inl e ↦
          let same = some-injective (rw (e, unzip) at h) in
          rw (sym same) (small-bytes rest (and_left _ _ e))
      | inr e ↦ absurd (let bad = rw (e, unzip) at h in cc)
    ]

codec-IsCodec : IsCodec codec
unfolding codec
codec-IsCodec = record {
  inflates = inflates;
  shrinks = λ bits c le h. shrinks bits c h;
  are_bytes = unzip-bytes;
  decodes = λ bytes. refl;
}
  where
    inflates :
        (bits c : List ℕ)
        → length bits ≤ max_status_list_bytes
        → zip bits ≡ some c
        → unzip c ≡ some bits
    inflates bits c le h =
        let (e, at) = zip-some bits c h in
        rw (at, unzip, e, leb_of_le (length bits) max_status_list_bytes le) refl

    shrinks : (bits c : List ℕ) → zip bits ≡ some c → (bits == c) ≡ false
    shrinks bits c h = elim (Bool-cases (bits == c)) [
      | inr e ↦ e
      | inl e ↦
          let (_, at) = zip-some bits c h in
          let same = (==_iff bits c).0 e in
          let lengths = ap length (same ∙ at) in absurd (omega arith)
    ]

abbrev manager : StatusList2021Manager String
unfolding codec
manager = record {
  codec = codec;
  did = "did:key:issuer";
  key_id = "key-1";
  canonicalize_json = λ credential. credential.encoded_list;
  signing_function = λ text did key_id. some "signature";
  default_list_size = 16;
}

abbrev list : StatusListCredential String
list = record {
  id = "list";
  issuer = "did:key:issuer";
  status_purpose = some "revocation";
  encoded_list = 117 ∷ 31 ∷ 139 ∷ 0 ∷ 0 ∷ [];
  proof = none;
}

abbrev storage : MemoryStatusListStorage String
storage = record {
  status_lists = ("list", list) ∷ [];
  versions = ("list", list ∷ []) ∷ [];
  index_counters = [];
}

abbrev entry_of : String → CredentialStatus
entry_of index = record {
  id = none;
  entry_type = "StatusList2021Entry";
  status_purpose = "revocation";
  status_list_index = index;
  status_list_credential = "list";
  other_members = [];
}

zipped : (bits : List ℕ) → All IsByte bits → zip bits ≡ some (31 ∷ 139 ∷ bits)
unfolding zip
zipped bits h = rw (bytes-small bits h) refl

clear_before : check_status manager (entry_of "5") storage ≡ ok false
unfolding check_status manager
clear_before = refl

other_before : check_status manager (entry_of "12") storage ≡ ok false
unfolding check_status manager
other_before = refl

written : (update_status manager (entry_of "5") true storage).1 ≡ none
unfolding update_status manager
written = refl

five : parse_status_list_index "5" ≡ some 5
unfolding parse_status_list_index
five = refl

twelve : parse_status_list_index "12" ≡ some 12
unfolding parse_status_list_index
twelve = refl

update_status-takes_effect_example :
    ((update_status manager (entry_of "5") true storage).1 ≡ none)
    × (check_status manager (entry_of "5") (update_status manager (entry_of "5") true storage).0
        ≡ ok true)
unfolding manager
update_status-takes_effect_example =
    update_status-takes_effect manager codec-IsCodec (entry_of "5") true false storage
      (λ bits h le. (31 ∷ 139 ∷ bits, zipped bits h, refl)) (λ text. ("signature", refl))
      clear_before

check_status-update_status_example :
    check_status manager (entry_of "12") (update_status manager (entry_of "5") true storage).0
    ≡ ok false
unfolding manager
check_status-update_status_example =
    check_status-update_status manager codec-IsCodec (entry_of "5") (entry_of "12") true false
      storage 5 12 written five twelve other_before

cleared :
    set_bit 12 false (record { bits = 4 ∷ 8 ∷ []; size = 16 })
    ≡ some (record { bits = 4 ∷ 0 ∷ []; size = 16 })
unfolding set_bit
cleared = refl

get_bit-set_bit_example :
    (get_bit 12 (record { bits = 4 ∷ 0 ∷ []; size = 16 }) ≡ some false)
    × IsBitstring (record { bits = 4 ∷ 0 ∷ []; size = 16 })
    × ◌≡◌ {A = ℕ} 16 16
get_bit-set_bit_example =
    get_bit-set_bit 12 12 false (record { bits = 4 ∷ 8 ∷ []; size = 16 })
      (record { bits = 4 ∷ 0 ∷ []; size = 16 })
      (record { enough = refl; are_bytes = (omega arith, (omega arith, tt)) }) cleared (omega arith)
