-- ===== src/StatusLists/Payload.antt =====
-- src/utils/statuslist-bits.ts: the `encodedList` of a status list. The compression and base64url
-- calls are parameters; `none` stands for a throw.
use kya_os_mcp.Common.{
  ℕ, ◌≤◌, ◌≡◌, refl, sym, ap, ◌∙◌, inl, inr, Bool, true, false, ◌&&◌, List, [], ◌∷◌, Option, none,
  some, leb, leb_of_le, le_of_leb, All, ◌<◌, length, get_elem?, Bool-cases, Option-cases,
  some-injective, if◌then◌else◌, nat_eq, list_eq, option_eq, ◌==◌,
}
use kya_os_mcp.Text.{Text}

-- What is called to compress and inflate, and to write and read base64url.
pub record Codec : Type 0 where
  pub compress : List ℕ → Option (List ℕ)
  pub decompress : List ℕ → Option (List ℕ)
  pub base64url_encode : List ℕ → Text
  pub base64url_decode : Text → Option (List ℕ)

abbrev pub max_status_list_bytes : ℕ
max_status_list_bytes = 16777216

-- The code unit of `u`.
abbrev pub multibase_base64url : ℕ
multibase_base64url = 117

abbrev pub is_gzip : List ℕ → Bool
is_gzip bytes = get_elem? bytes 0 == some 31 && get_elem? bytes 1 == some 139

-- `sameBytes`: the two lists have one length and the same items.
abbrev pub same_bytes : List ℕ → List ℕ → Bool
same_bytes a b = a == b

-- The encoded list without its multibase prefix.
unfoldable pub payload_of : Text → Text
payload_of [] = []
payload_of (c ∷ rest) = if c == multibase_base64url then rest else c ∷ rest

unfoldable pub checked_inflation : List ℕ → Option (List ℕ) → Option (List ℕ)
checked_inflation compressed none = none
checked_inflation compressed (some inflated) =
    if same_bytes inflated compressed
    then none
    else (if leb (length inflated) max_status_list_bytes then some inflated else none)

module _ (codec : Codec) where
  unfoldable pub encode_status_list_payload : List ℕ → Option Text
  encode_status_list_payload bits = elim (codec.compress bits) [
    | none ↦ none
    | some compressed ↦
        if is_gzip compressed
        then some (multibase_base64url ∷ codec.base64url_encode compressed)
        else none
  ]

  unfoldable pub inflate_payload : Option (List ℕ) → Option (List ℕ)
  unfolding checked_inflation
  inflate_payload none = none
  inflate_payload (some compressed) =
      if is_gzip compressed
      then checked_inflation compressed (codec.decompress compressed)
      else none

  unfoldable pub decode_status_list_payload : Text → Option (List ℕ)
  unfolding payload_of inflate_payload
  decode_status_list_payload encoded_list =
      inflate_payload (codec.base64url_decode (payload_of encoded_list))

  -- Up to the 16 MiB that inflation accepts, GZIP undoes what it does and no list is its own
  -- compression; base64url undoes what it does.
  pub record IsCodec : Type 0 where
    pub inflates :
        (bits compressed : List ℕ)
        → length bits ≤ max_status_list_bytes
        → codec.compress bits ≡ some compressed
        → codec.decompress compressed ≡ some bits
    pub shrinks :
        (bits compressed : List ℕ)
        → length bits ≤ max_status_list_bytes
        → codec.compress bits ≡ some compressed
        → same_bytes bits compressed ≡ false
    pub are_bytes :
        (compressed bits : List ℕ)
        → codec.decompress compressed ≡ some bits
        → All (λ n. n < 256) bits
    pub decodes :
        (bytes : List ℕ) → codec.base64url_decode (codec.base64url_encode bytes) ≡ some bytes

  inflated-bounds :
      (o : Option (List ℕ)) (bits : List ℕ)
      → IsCodec
      → inflate_payload o ≡ some bits
      → (length bits ≤ max_status_list_bytes) × All (λ n. n < 256) bits
  unfolding inflate_payload checked_inflation
  inflated-bounds none bits is h = absurd (cc)
  inflated-bounds (some compressed) bits is h = elim (Bool-cases (is_gzip compressed)) [
    | inr plain ↦ absurd (let bad = rw (plain, inflate_payload) at h in cc)
    | inl gzip ↦ elim (Option-cases (codec.decompress compressed)) [
      | inl failed ↦ absurd (let bad = rw (gzip, failed, inflate_payload) at h in cc)
      | inr (inflated, at) ↦ elim (Bool-cases (same_bytes inflated compressed)) [
        | inl same ↦ absurd (let bad = rw (gzip, at, same, inflate_payload) at h in cc)
        | inr apart ↦ elim (Bool-cases (leb (length inflated) max_status_list_bytes)) [
          | inr big ↦ absurd (let bad = rw (gzip, at, apart, big, inflate_payload) at h in cc)
          | inl small ↦
              let same = some-injective (rw (gzip, at, apart, small, inflate_payload) at h) in
              (
                rw (sym same) (le_of_leb (length inflated) max_status_list_bytes small),
                is.are_bytes compressed bits (at ∙ ap some same),
              )
        ]
      ]
    ]
  ]

  -- What decoding has checked of a list that it returns.
  pub decoded-bounds :
      (encoded : Text) (bits : List ℕ)
      → IsCodec
      → decode_status_list_payload encoded ≡ some bits
      → (length bits ≤ max_status_list_bytes) × All (λ n. n < 256) bits
  unfolding decode_status_list_payload
  decoded-bounds encoded bits is h =
      inflated-bounds (codec.base64url_decode (payload_of encoded)) bits is h

  -- With a codec that undoes what it does: a list of at most 16 MiB that is encoded decodes to
  -- itself.
  pub decode-encode :
      (bits : List ℕ) (encoded : Text)
      → IsCodec
      → length bits ≤ max_status_list_bytes
      → encode_status_list_payload bits ≡ some encoded
      → decode_status_list_payload encoded ≡ some bits
  unfolding encode_status_list_payload decode_status_list_payload
  decode-encode bits encoded is small made = elim (Option-cases (codec.compress bits)) [
    | inl failed ↦ absurd (let bad = rw (failed, encode_status_list_payload) at made in cc)
    | inr (compressed, at) ↦ elim (Bool-cases (is_gzip compressed)) [
      | inr plain ↦ absurd (let bad = rw (at, plain, encode_status_list_payload) at made in cc)
      | inl gzip ↦
          let written : multibase_base64url ∷ codec.base64url_encode compressed ≡ encoded =
            some-injective (rw (at, gzip, encode_status_list_payload) at made) in
          rw (sym written) (
            ap inflate_payload (is.decodes compressed)
            ∙ rw
                (
                  gzip,
                  is.inflates bits compressed small at,
                  is.shrinks bits compressed small at,
                  leb_of_le (length bits) max_status_list_bytes small,
                )
                refl)
    ]
  ]

  pub encode-total :
      (bits : List ℕ)
      → (c : List ℕ) × (codec.compress bits ≡ some c) × (is_gzip c ≡ true)
      → (encoded : Text) × (encode_status_list_payload bits ≡ some encoded)
  unfolding encode_status_list_payload
  encode-total bits (c, at, gzip) = (
    multibase_base64url ∷ codec.base64url_encode c,
    rw (at, gzip, encode_status_list_payload) refl,
  )
