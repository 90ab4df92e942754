-- ===== src/Middleware/Grants.antt =====
-- `createGrantResolution` of src/middleware/with-kya-os.grants.ts over the memory grant store: the
-- retry of a call without its delegation. The delegation check, the proof verifier, `JSON.parse`, the
-- hash of a grant's key and the readings of the clock are parameters.
pub mod Authorized
pub mod Sound
pub mod Written
pub mod Retry
use kya_os_mcp.Common.{
  ℕ, Bool, true, false, ◌&&◌, ◌||◌, not, List, [], ◌∷◌, ◌++◌, Option, none, some, String, leb, ◌==◌,
  string_eq, option_eq, list_eq, nat_eq, if◌then◌else◌, includes, add_item,
}
use kya_os_mcp.Text.{Text, codes, sort_texts, join_texts}
use kya_os_mcp.Delegation.Credential.{Credential}
use kya_os_mcp.Delegation.Authority.{Satisfaction, scope_satisfies, get_delegation_scopes, add_all}
use kya_os_mcp.Stores.GrantStore.{
  Grant, Grants, GrantStatus, active, is_past, is_marked_active, get_by_agent, get_by_session, bind,
}
use kya_os_mcp.Middleware.HolderBinding.{
  Meta, DetachedProof, KeyOf, ProofVerifier, is_holder_binding_applicable, assert_holder_binding,
  is_bound,
}

pub data HolderBindingMode : Type 0 where
  off warn enforce : HolderBindingMode

-- The original wire form, or the signed object.
pub data Evidence : Type 0 where
  jwt : String → Evidence
  object : Credential → Evidence

-- A valid answer of `verifyDelegation`: the credential, and its subject's controller.
pub record Verified : Type 0 where
  pub vc : Credential
  pub controller : Option String

-- The `_kyaos_proof` argument of a call.
pub data ProofArg : Type 0 where
  absent : ProofArg
  as_text : String → ProofArg
  as_value : DetachedProof → ProofArg

-- `verify_delegation` answers `none` where the delegation is not valid or the check throws.
pub record GrantDeps : Type 0 where
  pub identity_did : String
  pub holder_binding_mode : HolderBindingMode
  pub public_key_of : KeyOf
  pub holder_binding_verifier : Option ProofVerifier
  pub verify_delegation : Evidence → Option Verified
  pub regex_test : Text → Text → Bool
  pub parse_proof : String → Option DetachedProof
  pub hash_id : Text → String

pub record ResolvedGrant : Type 0 where
  pub grant : Grant
  pub delegated_scopes : List Text

-- The evidence that a grant retains.
unfoldable pub evidence_of : Option String → Option Credential → Option Evidence
evidence_of (some token) credential = some (jwt token)
evidence_of none (some credential) = some (object credential)
evidence_of none none = none

abbrev pub is_satisfied : Option Satisfaction → Bool
is_satisfied none = false
is_satisfied (some s) = s.satisfied

abbrev pub is_enforced : HolderBindingMode → Bool
is_enforced enforce = true
is_enforced _ = false

-- A grant bound to a session is usable from that session only.
abbrev pub is_portable : String → Option String → Grant → Bool
is_portable agent session grant =
    grant.agent_did == agent && (grant.session_id == none || grant.session_id == session)

abbrev pub claimed_did : Option Meta → Option String
claimed_did none = none
claimed_did (some meta) = meta.did

abbrev session_text : Option String → Text
session_text none = []
session_text (some session) = codes session

-- Whether the next call could resolve a grant at all.
abbrev pub is_unresolvable : HolderBindingMode → Option String → Bool
is_unresolvable off none = true
is_unresolvable _ _ = false

module _ (deps : GrantDeps) where
  -- The tests of a check's answer.
  unfoldable pub checked_grant : Grant → String → Verified → Option ResolvedGrant
  unfolding scope_satisfies
  checked_grant grant scope check =
      if not (check.vc.subject_id == grant.agent_did)
        || (not (check.controller == grant.user_did)
            || not (is_satisfied (scope_satisfies deps.regex_test (codes scope) check.vc)))
      then none
      else some (record { grant = grant; delegated_scopes = get_delegation_scopes check.vc })

  abbrev pub after_check : Grant → String → Option Verified → Option ResolvedGrant
  after_check grant scope none = none
  after_check grant scope (some check) = checked_grant grant scope check

  abbrev pub after_evidence : Grant → String → Option Evidence → Option ResolvedGrant
  after_evidence grant scope none = none
  after_evidence grant scope (some evidence) =
      after_check grant scope (deps.verify_delegation evidence)

  unfoldable pub authorize_grant : ℕ → Grant → String → Option ResolvedGrant
  unfolding checked_grant evidence_of
  authorize_grant now grant scope =
      if not (is_marked_active grant.status) || not (includes (codes scope) grant.scopes)
      then none
      else (if is_past now grant.expires_at
          then none
          else after_evidence grant scope
              (evidence_of grant.credential_jwt grant.delegation_credential))

  -- The loop over the grants that a read returned: the first that is usable here and authorized.
  -- Each is checked at a time of its own.
  unfoldable pub first_authorized :
      (Grant → ℕ) → (Grant → Bool) → String → List Grant → Option ResolvedGrant
  unfolding authorize_grant
  first_authorized check_at usable scope [] = none
  first_authorized check_at usable scope (grant ∷ grants) =
      let rest = first_authorized check_at usable scope grants in
      if usable grant
      then elim (authorize_grant (check_at grant) grant scope) [ none ↦ rest | some r ↦ some r ]
      else rest

  abbrev pub for_agent :
      ProofVerifier
      → DetachedProof
      → Option String
      → ℕ
      → (Grant → ℕ)
      → Option String
      → String
      → Grants
      → Option ResolvedGrant
  for_agent verifier proof none now check_at session scope grants = none
  for_agent verifier proof (some agent) now check_at session scope grants =
      if not (is_holder_binding_applicable deps.public_key_of agent)
      then none
      else (if is_bound
            (assert_holder_binding deps.public_key_of verifier proof agent (deps.identity_did ∷ []))
          then first_authorized check_at (is_portable agent session) scope
              (get_by_agent now agent (codes scope ∷ []) grants)
          else none)

  abbrev pub parsed_proof : ProofArg → Option DetachedProof
  parsed_proof absent = none
  parsed_proof (as_text t) = deps.parse_proof t
  parsed_proof (as_value proof) = some proof

  abbrev pub with_proof :
      Option ProofVerifier
      → Option DetachedProof
      → ℕ
      → (Grant → ℕ)
      → Option String
      → String
      → Grants
      → Option ResolvedGrant
  with_proof none proof now check_at session scope grants = none
  with_proof (some verifier) none now check_at session scope grants = none
  with_proof (some verifier) (some proof) now check_at session scope grants =
      for_agent verifier proof (claimed_did proof.meta) now check_at session scope grants

  unfoldable pub resolve_agent_grant :
      ℕ → (Grant → ℕ) → ProofArg → Option String → String → Grants → Option ResolvedGrant
  unfolding first_authorized get_by_agent is_holder_binding_applicable assert_holder_binding
  resolve_agent_grant now check_at proof session scope grants =
      with_proof deps.holder_binding_verifier (parsed_proof proof) now check_at session scope grants

  -- Under `enforce` a session alone resolves no grant of an agent whose key can be bound.
  unfoldable pub is_sessions : String → Grant → Bool
  unfolding is_holder_binding_applicable
  is_sessions session grant =
      grant.session_id == some session
      && not (
          is_enforced deps.holder_binding_mode
          && is_holder_binding_applicable deps.public_key_of grant.agent_did)

  abbrev pub resolve_session_grant :
      ℕ → (Grant → ℕ) → Option String → String → Grants → Option ResolvedGrant
  unfolding first_authorized is_sessions get_by_session
  resolve_session_grant now check_at none scope grants = none
  resolve_session_grant now check_at (some session) scope grants =
      if session == ""
      then none
      else first_authorized check_at (is_sessions session) scope
          (get_by_session now session (codes scope ∷ []) grants)

  -- The two reads of the store each have their time.
  unfoldable pub resolve_existing_grant :
      ℕ → ℕ → (Grant → ℕ) → ProofArg → Option String → String → Grants → Option ResolvedGrant
  unfolding resolve_agent_grant resolve_session_grant
  resolve_existing_grant agent_now session_now check_at proof session scope grants =
      elim (resolve_agent_grant agent_now check_at proof session scope grants) [
        | none ↦ resolve_session_grant session_now check_at session scope grants
        | some r ↦ some r
      ]

  unfoldable pub grant_id : String → Option String → List Text → String
  unfolding sort_texts join_texts
  grant_id agent session scopes =
      deps.hash_id
        (codes agent ++ (b'|' ∷ session_text session ++ b'|' ∷ join_texts b',' (sort_texts scopes)))

  -- The grant of a delegation that was verified, of its JWT where it came as one.
  unfoldable pub new_grant :
      Verified → Option String → Option String → String → Option ℕ → ℕ → Grant
  unfolding grant_id
  new_grant check token session scope expires_at now =
      let scopes = add_all (codes scope ∷ []) (get_delegation_scopes check.vc) in
      record {
        id = grant_id check.vc.subject_id session scopes;
        agent_did = check.vc.subject_id;
        user_did = check.controller;
        scopes = scopes;
        session_id = session;
        credential_jwt = token;
        delegation_credential = elim token [ none ↦ some check.vc | some t ↦ none ];
        issued_at = now;
        expires_at = expires_at;
        status = active;
        revocation_reason = none;
      }

  unfoldable pub bind_grant_on_success :
      Verified → Option String → Option String → String → Option ℕ → ℕ → Grants → Grants
  unfolding new_grant bind
  bind_grant_on_success check token session scope expires_at now grants =
      if check.vc.subject_id == "" || is_unresolvable deps.holder_binding_mode session
      then grants
      else bind (new_grant check token session scope expires_at now) grants
