-- ===== src/Delegation/Tests/Chains.antt =====
-- A chain of a root and one re-delegation.
use kya_os_mcp.Common.{◌≡◌, refl, inl, true, false, List, [], ◌∷◌, none, some}
use kya_os_mcp.Text.{codes}
use kya_os_mcp.Delegation.Credential.{Credential}
use kya_os_mcp.Delegation.Authority.{scope_authority}
use kya_os_mcp.Delegation.Authority.Narrowing.{Grants}
use kya_os_mcp.Delegation.Chain.{Presented, Deps, done, throws, validate_delegation_chain}
use kya_os_mcp.Delegation.Chain.Guarantees.{
  IsAccepted, validate_delegation_chain-IsAccepted, accepted-narrows,
}
use kya_os_mcp.Delegation.Chain.Lifetime.{AllKept, accepted-AllKept}
use kya_os_mcp.Delegation.Chain.Errors.{validate_delegation_chain-throws}
use kya_os_mcp.Delegation.Tests.Scopes.{no_regex, parent, child}

-- Every credential verifies, nothing is revoked, and the resolver returns `chain`.
abbrev deps_of : List Presented → Deps
deps_of chain = record {
  server_did = "did:s";
  verify = λ skip c. some true;
  resolve_delegation_chain = some (λ leaf. some chain);
  status_list_configured = true;
  revocation_checker = some (λ id. some (record { revoked = false; revoked_ancestor = none }));
  trusted_root_issuers = some ("did:a" ∷ []);
  max_chain_length = some (some 2);
  parse_date = λ date. none;
  regex_test = no_regex;
}

abbrev deps : Deps
deps = deps_of (some parent ∷ some child ∷ [])

validate_delegation_chain-IsAccepted_example : IsAccepted deps false child (some 10000)
unfolding kya_os_mcp.Delegation.Authority.add_all kya_os_mcp.Delegation.Authority.flat_scopes
    kya_os_mcp.Delegation.Authority.get_delegation_scopes
    kya_os_mcp.Delegation.Authority.validate_scope_attenuation
    kya_os_mcp.Delegation.Authority.widened_matchers kya_os_mcp.Delegation.Authority.widened_scopes
    kya_os_mcp.Delegation.Chain.all_but_last kya_os_mcp.Delegation.Chain.check_chain
    kya_os_mcp.Delegation.Chain.check_child kya_os_mcp.Delegation.Chain.check_credential
    kya_os_mcp.Delegation.Chain.check_limit kya_os_mcp.Delegation.Chain.check_link
    kya_os_mcp.Delegation.Chain.check_revocations kya_os_mcp.Delegation.Chain.check_revoked
    kya_os_mcp.Delegation.Chain.check_root kya_os_mcp.Delegation.Chain.earliest
    kya_os_mcp.Delegation.Chain.expiry_deadline kya_os_mcp.Delegation.Chain.find_leaf
    kya_os_mcp.Delegation.Chain.fit_chain kya_os_mcp.Delegation.Chain.place_leaf
    kya_os_mcp.Delegation.Chain.resolve_ancestors kya_os_mcp.Delegation.Chain.resolve_with
    kya_os_mcp.Delegation.Chain.tighten kya_os_mcp.Delegation.Credential.credential_issuer_did
    kya_os_mcp.Delegation.Credential.verify_delegation_audience
    kya_os_mcp.Delegation.Scope.authority_contains kya_os_mcp.Delegation.Scope.base_of
    kya_os_mcp.Delegation.Scope.containment kya_os_mcp.Delegation.Scope.granted
    kya_os_mcp.Delegation.Scope.group_body kya_os_mcp.Delegation.Scope.has_dot_segment
    kya_os_mcp.Delegation.Scope.holds_for kya_os_mcp.Delegation.Scope.is_dotted_path
    kya_os_mcp.Delegation.Scope.match_scope kya_os_mcp.Delegation.Scope.matcher_beq
    kya_os_mcp.Delegation.Scope.matcher_name kya_os_mcp.Delegation.Scope.nested_quantifier
    kya_os_mcp.Delegation.Scope.path_base kya_os_mcp.Delegation.Scope.prefix_base
    kya_os_mcp.Delegation.Scope.quantified_after kya_os_mcp.Delegation.Scope.scope_contains
    kya_os_mcp.Delegation.Scope.strip_slashes kya_os_mcp.Text.drop_last kya_os_mcp.Text.ends_with
    kya_os_mcp.Text.push_head kya_os_mcp.Text.split_at kya_os_mcp.Text.starts_with scope_authority
    validate_delegation_chain
validate_delegation_chain-IsAccepted_example =
    validate_delegation_chain-IsAccepted deps false child (some 10000) [] refl

accepted-narrows_example : Grants no_regex (scope_authority parent) (codes "db/users/1")
unfolding kya_os_mcp.Delegation.Authority.add_all kya_os_mcp.Delegation.Authority.flat_scopes
    kya_os_mcp.Delegation.Authority.get_delegation_scopes
    kya_os_mcp.Delegation.Authority.validate_scope_attenuation
    kya_os_mcp.Delegation.Authority.widened_matchers kya_os_mcp.Delegation.Authority.widened_scopes
    kya_os_mcp.Delegation.Chain.all_but_last kya_os_mcp.Delegation.Chain.check_chain
    kya_os_mcp.Delegation.Chain.check_child kya_os_mcp.Delegation.Chain.check_credential
    kya_os_mcp.Delegation.Chain.check_limit kya_os_mcp.Delegation.Chain.check_link
    kya_os_mcp.Delegation.Chain.check_revocations kya_os_mcp.Delegation.Chain.check_revoked
    kya_os_mcp.Delegation.Chain.check_root kya_os_mcp.Delegation.Chain.earliest
    kya_os_mcp.Delegation.Chain.expiry_deadline kya_os_mcp.Delegation.Chain.find_leaf
    kya_os_mcp.Delegation.Chain.fit_chain kya_os_mcp.Delegation.Chain.place_leaf
    kya_os_mcp.Delegation.Chain.resolve_ancestors kya_os_mcp.Delegation.Chain.resolve_with
    kya_os_mcp.Delegation.Chain.tighten kya_os_mcp.Delegation.Credential.credential_issuer_did
    kya_os_mcp.Delegation.Credential.verify_delegation_audience
    kya_os_mcp.Delegation.Scope.authority_contains kya_os_mcp.Delegation.Scope.base_of
    kya_os_mcp.Delegation.Scope.containment kya_os_mcp.Delegation.Scope.granted
    kya_os_mcp.Delegation.Scope.group_body kya_os_mcp.Delegation.Scope.has_dot_segment
    kya_os_mcp.Delegation.Scope.holds_for kya_os_mcp.Delegation.Scope.is_dotted_path
    kya_os_mcp.Delegation.Scope.match_scope kya_os_mcp.Delegation.Scope.matcher_beq
    kya_os_mcp.Delegation.Scope.matcher_name kya_os_mcp.Delegation.Scope.nested_quantifier
    kya_os_mcp.Delegation.Scope.path_base kya_os_mcp.Delegation.Scope.prefix_base
    kya_os_mcp.Delegation.Scope.quantified_after kya_os_mcp.Delegation.Scope.scope_contains
    kya_os_mcp.Delegation.Scope.strip_slashes kya_os_mcp.Text.drop_last kya_os_mcp.Text.ends_with
    kya_os_mcp.Text.push_head kya_os_mcp.Text.split_at kya_os_mcp.Text.starts_with scope_authority
    validate_delegation_chain
accepted-narrows_example =
    accepted-narrows deps false child (some 10000) [] (some parent ∷ []) (codes "db/users/1") refl
      refl refl ((tt, tt), tt) refl (inl refl)

accepted-AllKept_example : AllKept deps (some 10000) (some parent ∷ []) child
unfolding kya_os_mcp.Delegation.Authority.add_all kya_os_mcp.Delegation.Authority.flat_scopes
    kya_os_mcp.Delegation.Authority.get_delegation_scopes
    kya_os_mcp.Delegation.Authority.validate_scope_attenuation
    kya_os_mcp.Delegation.Authority.widened_matchers kya_os_mcp.Delegation.Authority.widened_scopes
    kya_os_mcp.Delegation.Chain.all_but_last kya_os_mcp.Delegation.Chain.check_chain
    kya_os_mcp.Delegation.Chain.check_child kya_os_mcp.Delegation.Chain.check_credential
    kya_os_mcp.Delegation.Chain.check_limit kya_os_mcp.Delegation.Chain.check_link
    kya_os_mcp.Delegation.Chain.check_revocations kya_os_mcp.Delegation.Chain.check_revoked
    kya_os_mcp.Delegation.Chain.check_root kya_os_mcp.Delegation.Chain.earliest
    kya_os_mcp.Delegation.Chain.expiry_deadline kya_os_mcp.Delegation.Chain.find_leaf
    kya_os_mcp.Delegation.Chain.fit_chain kya_os_mcp.Delegation.Chain.place_leaf
    kya_os_mcp.Delegation.Chain.resolve_ancestors kya_os_mcp.Delegation.Chain.resolve_with
    kya_os_mcp.Delegation.Chain.tighten kya_os_mcp.Delegation.Credential.credential_issuer_did
    kya_os_mcp.Delegation.Credential.verify_delegation_audience
    kya_os_mcp.Delegation.Scope.authority_contains kya_os_mcp.Delegation.Scope.base_of
    kya_os_mcp.Delegation.Scope.containment kya_os_mcp.Delegation.Scope.granted
    kya_os_mcp.Delegation.Scope.group_body kya_os_mcp.Delegation.Scope.has_dot_segment
    kya_os_mcp.Delegation.Scope.holds_for kya_os_mcp.Delegation.Scope.is_dotted_path
    kya_os_mcp.Delegation.Scope.match_scope kya_os_mcp.Delegation.Scope.matcher_beq
    kya_os_mcp.Delegation.Scope.matcher_name kya_os_mcp.Delegation.Scope.nested_quantifier
    kya_os_mcp.Delegation.Scope.path_base kya_os_mcp.Delegation.Scope.prefix_base
    kya_os_mcp.Delegation.Scope.quantified_after kya_os_mcp.Delegation.Scope.scope_contains
    kya_os_mcp.Delegation.Scope.strip_slashes kya_os_mcp.Text.drop_last kya_os_mcp.Text.ends_with
    kya_os_mcp.Text.push_head kya_os_mcp.Text.split_at kya_os_mcp.Text.starts_with scope_authority
    validate_delegation_chain
accepted-AllKept_example =
    accepted-AllKept deps false child (some 10000) [] (some parent ∷ []) refl refl

validate_delegation_chain-throws_example :
    validate_delegation_chain (deps_of (some parent ∷ none ∷ [])) false (some child) ≡ throws
validate_delegation_chain-throws_example =
    validate_delegation_chain-throws (deps_of (some parent ∷ none ∷ [])) false child
      (λ leaf. some (some parent ∷ none ∷ [])) (parent ∷ []) [] refl refl refl refl (refl, tt)
