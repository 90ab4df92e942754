-- ===== src/Delegation/Credential.antt =====
-- The delegation credential of src/types/protocol.ts, as far as src/delegation/chain-enforcement.ts
-- and src/delegation/scope-matcher.ts read it, with src/delegation/audience-validator.ts and
-- `credentialIssuerDid` of src/delegation/vc-jwt-verify.ts.
use kya_os_mcp.Common.{
  ℕ, Bool, true, false, not, List, Option, none, some, String, ◌==◌, string_eq, includes,
}
use kya_os_mcp.Text.{Text}
use kya_os_mcp.Delegation.Scope.{ScopeEntry}

-- `constraints.audience`: absent, one DID or several.
pub data Audience : Type 0 where
  unbound : Audience
  one : String → Audience
  many : List String → Audience

-- The `issuer` member: a string, an object with or without a string `id`, or anything else.
pub data Issuer : Type 0 where
  bare : String → Issuer
  object : Option String → Issuer
  unreadable : Issuer

-- A credential whose `credentialSubject.delegation` is an object. `subject_id` is
-- `credentialSubject.id`, which the grants go by, and `subject_did` the `subjectDid` of the delegation,
-- which the chain goes by; nothing in the code makes the two equal. Without `constraints`, which
-- `has_constraints` tells, the fields that are read of them are empty.
pub record Credential : Type 0 where
  pub id : String
  pub issuer_did : String
  pub subject_id : String
  pub subject_did : String
  pub parent_id : Option String
  pub scopes : List Text
  pub has_constraints : Bool
  pub constraint_scopes : List Text
  pub crisp : List ScopeEntry
  pub audience : Audience
  pub issuer : Issuer
  pub has_status : Bool
  pub expiration_date : Option String
  pub not_after : Option ℕ

-- A value in a boolean position: the empty string counts as absent.
abbrev pub is_set : Option String → Bool
is_set none = false
is_set (some s) = not (s == "")

unfoldable pub credential_issuer_did : Issuer → Option String
credential_issuer_did (bare did) = some did
credential_issuer_did (object (some did)) = some did
credential_issuer_did (object none) = none
credential_issuer_did unreadable = none

-- `!delegation.constraints.audience`, negated
abbrev pub has_audience : Audience → Bool
has_audience unbound = false
has_audience (one did) = not (did == "")
has_audience (many dids) = true

abbrev pub names_server : Audience → String → Bool
names_server unbound server = true
names_server (one did) server = did == server
names_server (many dids) server = includes server dids

unfoldable pub verify_delegation_audience : Audience → String → Bool
verify_delegation_audience audience server = elim (has_audience audience) [
  | false ↦ true
  | true ↦ names_server audience server
]
