-- ===== src/Replay/Admission/Fallback.antt =====
-- The fallback of `admitNonce`, on the provider of src/providers/memory.ts without its `consume`.
use kya_os_mcp.Common.{
  ℕ, ◌<◌, ◌≡◌, refl, ◌∙◌, Option, some, true, false, Bool, String, arith, none, inl, inr,
  Bool-cases, leb, if◌then◌else◌,
}
use kya_os_mcp.Common.Map.{get}
use kya_os_mcp.Replay.Expiry.{is_live, is_later}
use kya_os_mcp.Replay.Provider.{
  Key, key_eq, NonceCache, consume, has, has_entry, add, Admission, admitted, replayed, bad_ttl,
}
use kya_os_mcp.Replay.Admission.{
  NonceStore, Answered, admit_nonce, check_nonce_store, has_then_add, then_add,
}

-- A lifetime of zero rejects.
unfoldable pub answer_of : NonceCache × Admission → Answered NonceCache Bool
answer_of (c, admitted) = (c, some true)
answer_of (c, replayed) = (c, some false)
answer_of (c, bad_ttl) = (c, none)

-- The provider at a time, with `consume` or as one written before it existed.
unfoldable pub memory_store : ℕ → Bool → NonceStore NonceCache
unfolding answer_of consume has add
memory_store now atomic = record {
  consume =
      if atomic
      then some (λ nonce ttl agent c. answer_of (consume now (agent, nonce) ttl c))
      else none;
  has = λ nonce agent c. let (after, b) = has now (agent, nonce) c in (after, some b);
  add = λ nonce ttl agent c. (add now (agent, nonce) ttl c, some tt);
}

has-is_live : (now : ℕ) (key : Key) (c : NonceCache) → (has now key c).1 ≡ is_live key now c.nonces
unfolding has is_live
has-is_live now key c = entry (get key c.nonces)
  where
    entry : (o : Option ℕ) → (has_entry now key c o).1 ≡ is_later now o
    entry none = refl
    entry (some expiry) = ground arith

-- In sequence, a provider that only has `has` and `add` gives the answer of one with `consume`, for
-- any positive lifetime.
pub fallback-answer :
    (now : ℕ) (nonce : String) (agent : Option String) (ttl : ℕ) (c : NonceCache)
    → 0 < ttl
    → (admit_nonce false (memory_store now false) nonce ttl agent c).1
      ≡ (admit_nonce false (memory_store now true) nonce ttl agent c).1
unfolding admit_nonce memory_store answer_of check_nonce_store has_then_add then_add consume
fallback-answer now nonce agent ttl c positive =
    let some_ttl : leb ttl 0 ≡ false = ground arith in
    elim (Bool-cases (is_live (agent, nonce) now c.nonces)) [
      | inl live ↦
          let seen = has-is_live now (agent, nonce) c ∙ live in
          rw (seen, some_ttl, live, consume, has_then_add) refl
      | inr new ↦
          let unseen = has-is_live now (agent, nonce) c ∙ new in
          rw (unseen, some_ttl, new, consume, has_then_add) refl
    ]
