-- ===== src/Middleware/Tests.antt =====
-- A grant that is bound and resolved again.
use kya_os_mcp.Common.{◌≡◌, ◌⊎◌, refl, true, false, [], ◌∷◌, none, some, string_eq, Any}
use kya_os_mcp.Text.{codes}
use kya_os_mcp.Common.Map.{values, set}
use kya_os_mcp.Delegation.Credential.{Credential, unbound, bare}
use kya_os_mcp.Delegation.Authority.{scope_satisfies, flat_scopes, get_delegation_scopes, add_all}
use kya_os_mcp.Stores.GrantStore.{
  Grants, bind, get_by_session, active_grants, is_active, covers_scopes,
}
use kya_os_mcp.Middleware.HolderBinding.{is_holder_binding_applicable}
use kya_os_mcp.Middleware.Grants.{
  GrantDeps, ResolvedGrant, Verified, absent, off, checked_grant, evidence_of, authorize_grant,
  is_satisfied, first_authorized, resolve_agent_grant, is_sessions, resolve_existing_grant,
  grant_id, new_grant, bind_grant_on_success,
}
use kya_os_mcp.Middleware.Grants.Authorized.{IsAuthorized}
use kya_os_mcp.Middleware.Grants.Sound.{IsHolders, resolve_existing_grant_sound}
use kya_os_mcp.Middleware.Grants.Retry.{bound_grant_resolves}

abbrev delegation : Credential
delegation = record {
  id = "vc_1";
  issuer_did = "did:user";
  subject_id = "did:agent";
  subject_did = "did:agent-key";
  parent_id = none;
  scopes = codes "files:read" ∷ [];
  has_constraints = true;
  constraint_scopes = [];
  crisp = [];
  audience = unbound;
  issuer = bare "did:user";
  has_status = false;
  expiration_date = none;
  not_after = none;
}

abbrev check : Verified
check = record { vc = delegation; controller = some "did:user" }

abbrev deps : GrantDeps
deps = record {
  identity_did = "did:server";
  holder_binding_mode = off;
  public_key_of = λ agent. none;
  holder_binding_verifier = none;
  verify_delegation = λ evidence. some check;
  regex_test = λ pattern value. false;
  parse_proof = λ text. none;
  hash_id = λ key. "grant_1";
}

abbrev no_grants : Grants
no_grants = []

abbrev bound_grants : Grants
unfolding bind_grant_on_success new_grant add_all get_delegation_scopes
bound_grants =
    bind_grant_on_success deps check none (some "session_1") "files:read" (some 100) 5 no_grants

abbrev resolved : ResolvedGrant
unfolding new_grant
resolved = record {
  grant = new_grant deps check none (some "session_1") "files:read" (some 100) 5;
  delegated_scopes = codes "files:read" ∷ [];
}

resolved_again :
    resolve_existing_grant deps 10 11
      (λ grant. 12)
      absent
      (some "session_1")
      "files:read"
      bound_grants
    ≡ some resolved
unfolding bind_grant_on_success new_grant resolve_existing_grant resolve_agent_grant
    first_authorized is_sessions get_by_session active_grants is_active covers_scopes
    authorize_grant checked_grant evidence_of scope_satisfies get_delegation_scopes add_all bind set
    grant_id flat_scopes is_holder_binding_applicable
resolved_again = refl

resolve_existing_grant_sound_example :
    Any (λ g. g ≡ resolved.grant) (values bound_grants)
    × IsAuthorized deps 12 "files:read" resolved
    × IsHolders deps absent (some "session_1") resolved.grant
resolve_existing_grant_sound_example =
    resolve_existing_grant_sound deps 10 11 (λ grant. 12) absent (some "session_1") "files:read"
      bound_grants resolved resolved_again

covers_files :
    is_satisfied (scope_satisfies (λ pattern value. false) (codes "files:read") delegation) ≡ true
unfolding scope_satisfies get_delegation_scopes flat_scopes add_all
covers_files = refl

bound_grant_resolves_example :
    (r : ResolvedGrant) × (resolve_existing_grant deps 10 11
        (λ grant. 12)
        absent
        (some "session_1")
        "files:read"
        bound_grants
      ≡ some r)
    × ((new_grant deps check none (some "session_1") "files:read" (some 100) 5 ≡ r.grant)
        ⊎ Any (λ g. g ≡ r.grant) (values no_grants))
    × IsAuthorized deps 12 "files:read" r
    × IsHolders deps absent (some "session_1") r.grant
unfolding bound_grants bind_grant_on_success
bound_grant_resolves_example =
    bound_grant_resolves deps check none "session_1" "files:read" (some 100) 5 10 11 (λ grant. 12)
      absent no_grants refl refl refl refl covers_files refl (λ grant. refl)
