-- ===== src/Replay/Admission.antt =====
-- src/providers/nonce-admission.ts and src/providers/nonce-retention.ts: how a verifier admits a
-- nonce through a store, and for how long it asks the store to remember it.
pub mod Window
pub mod Fallback
use kya_os_mcp.Common.{
  ℕ, ◌+◌, ◌-◌, ◌/◌, max, Bool, true, false, Option, none, some, String, if◌then◌else◌,
}

-- A call that rejects leaves no answer.
abbrev pub Answered : Type 0 → Type 0 → Type 0
Answered S A = S × Option A

-- `NonceAdmissionStore`, over the store's own state.
pub record NonceStore (S : Type 0) : Type 0 where
  pub consume : Option (String → ℕ → Option String → S → Answered S Bool)
  pub has : String → Option String → S → Answered S Bool
  pub add : String → ℕ → Option String → S → Answered S Unit

module _ {S : Type 0} where
  -- `checkNonceStore`, without its warning: false where it throws.
  unfoldable pub check_nonce_store : Bool → NonceStore S → Bool
  check_nonce_store require_atomic store = elim store.consume [
    | some _ ↦ true
    | none ↦ if require_atomic then false else true
  ]

  unfoldable pub then_add : Answered S Unit → Answered S Bool
  then_add (s, none) = (s, none)
  then_add (s, some _) = (s, some true)

  -- `has()`, then `add()`
  unfoldable pub has_then_add :
      NonceStore S → String → ℕ → Option String → Answered S Bool → Answered S Bool
  unfolding then_add
  has_then_add store nonce ttl agent (s, none) = (s, none)
  has_then_add store nonce ttl agent (s, some true) = (s, some false)
  has_then_add store nonce ttl agent (s, some false) = then_add (store.add nonce ttl agent s)

  unfoldable pub admit_nonce :
      Bool → NonceStore S → String → ℕ → Option String → S → Answered S Bool
  unfolding check_nonce_store has_then_add
  admit_nonce require_atomic store nonce ttl agent s = elim store.consume [
    | some consume ↦ consume nonce ttl agent s
    | none ↦
        if check_nonce_store require_atomic store
        then has_then_add store nonce ttl agent (store.has nonce agent s)
        else (s, none)
  ]

-- `nonceRetentionSeconds` on whole seconds, where it does not throw: rounding up
-- `valid_until + 1 - now_ms / 1000` rounds the division down.
unfoldable pub nonce_retention_seconds : ℕ → ℕ → ℕ → ℕ
nonce_retention_seconds configured_ttl valid_until now_ms =
    max 1 (max configured_ttl (valid_until + 1 - now_ms / 1000))
