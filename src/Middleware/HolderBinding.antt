-- ===== src/Middleware/HolderBinding.antt =====
-- `assertHolderBinding` of src/delegation/holder-binding.ts. The key that a DID encodes and the proof
-- verifier are parameters.
use kya_os_mcp.Common.{
  Bool, true, false, not, Option, none, some, String, ◌==◌, string_eq, option_eq, if◌then◌else◌,
  List, includes,
}

-- The members of a proof's `meta` that are read ahead of its signature.
pub record Meta : Type 0 where
  pub did : Option String
  pub audience : String

-- A proof that was presented; `none` where it has no `meta`.
pub record DetachedProof : Type 0 where
  pub meta : Option Meta
  pub jws : String

pub data HolderBindingStatus : Type 0 where
  bound unbound not_applicable : HolderBindingStatus

-- The key of `extractPublicKeyFromDidKey`, `none` for a DID that encodes none.
abbrev pub KeyOf : Type 0
KeyOf = String → Option String

-- The verifier accepts a proof under a key for the request at hand.
abbrev pub ProofVerifier : Type 0
ProofVerifier = DetachedProof → String → Bool

abbrev pub is_key : Option String → Bool
is_key none = false
is_key (some key) = true

unfoldable pub is_holder_binding_applicable : KeyOf → String → Bool
is_holder_binding_applicable public_key_of subject = is_key (public_key_of subject)

-- The tests after the key was read.
abbrev pub bound_by :
    ProofVerifier
    → DetachedProof
    → String
    → List String
    → String
    → Option Meta
    → HolderBindingStatus
bound_by verify_proof proof subject audiences key none = unbound
bound_by verify_proof proof subject audiences key (some meta) =
    if not (meta.did == some subject)
    then unbound
    else (if not (includes meta.audience audiences)
        then unbound
        else (if verify_proof proof key then bound else unbound))

-- With the audiences expected.
unfoldable pub assert_holder_binding :
    KeyOf → ProofVerifier → DetachedProof → String → List String → HolderBindingStatus
assert_holder_binding public_key_of verify_proof proof subject audiences =
    elim (public_key_of subject) [
      | none ↦ not_applicable
      | some key ↦ bound_by verify_proof proof subject audiences key proof.meta
    ]

abbrev pub is_bound : HolderBindingStatus → Bool
is_bound bound = true
is_bound _ = false
