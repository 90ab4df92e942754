-- ===== src/Delegation/Tests/Scopes.antt =====
-- Scope patterns and authorities.
use kya_os_mcp.Common.{◌≡◌, refl, inl, Bool, true, false, [], ◌∷◌, none, some, String}
use kya_os_mcp.Text.{Text, codes, starts_with, ends_with, drop_last, split_at, push_head}
use kya_os_mcp.Delegation.Scope.{
  CrispScope, prefix, path_prefix, exact, match_scope, scope_contains, slash, path_base,
  has_dot_segment, prefix_base, strip_slashes, granted, containment, base_of, holds_for,
  is_dotted_path, matcher_beq, matcher_name, authority_contains,
}
use kya_os_mcp.Delegation.Scope.Containment.{scope_contains_sound}
use kya_os_mcp.Delegation.Scope.DotSegments.{contained-prefix_escapes}
use kya_os_mcp.Delegation.Credential.{Credential, unbound, one, bare}
use kya_os_mcp.Delegation.Authority.{
  scope_authority, flat_scopes, get_delegation_scopes, add_all, validate_scope_attenuation,
  widened_matchers, widened_scopes,
}
use kya_os_mcp.Delegation.Authority.Narrowing.{Grants}
use kya_os_mcp.Delegation.Authority.Attenuation.{attenuation_narrows}

abbrev pub no_regex : Text → Text → Bool
no_regex pattern value = false

abbrev pub crisp : String → CrispScope
crisp resource = record { resource = codes resource; matcher = path_prefix }

abbrev db_users_1 : Text
db_users_1 = codes "db/users/1"

abbrev pub parent : Credential
parent = record {
  id = "root";
  issuer_did = "did:a";
  subject_id = "did:b";
  subject_did = "did:b";
  parent_id = none;
  scopes = [];
  has_constraints = true;
  constraint_scopes = [];
  crisp = some (crisp "db") ∷ [];
  audience = unbound;
  issuer = bare "did:a";
  has_status = false;
  expiration_date = none;
  not_after = some 20;
}

abbrev pub child : Credential
child = record {
  id = "leaf";
  issuer_did = "did:b";
  subject_id = "did:c";
  subject_did = "did:c";
  parent_id = some "root";
  scopes = [];
  has_constraints = true;
  constraint_scopes = [];
  crisp = some (crisp "db/users") ∷ [];
  audience = one "did:s";
  issuer = bare "did:b";
  has_status = false;
  expiration_date = none;
  not_after = some 10;
}

scope_contains_sound_example : match_scope no_regex (codes "db") path_prefix db_users_1 ≡ true
unfolding scope_contains match_scope base_of containment ends_with has_dot_segment holds_for
    is_dotted_path matcher_beq path_base prefix_base split_at starts_with strip_slashes
scope_contains_sound_example =
    scope_contains_sound no_regex (crisp "db") (crisp "db/users") db_users_1 (inl (λ e. cc)) refl
      refl

contained-prefix_escapes_example :
    (scope_contains no_regex
        (record { resource = codes "db"; matcher = path_prefix })
        (record { resource = codes "db/"; matcher = prefix })
      ≡ true)
    × (match_scope no_regex (codes "db/") prefix (codes "db/../x") ≡ true)
    × (match_scope no_regex (codes "db") path_prefix (codes "db/../x") ≡ false)
unfolding path_base has_dot_segment ends_with prefix_base split_at strip_slashes
contained-prefix_escapes_example =
    contained-prefix_escapes no_regex (codes "db") (codes "x") refl (λ e. cc) refl

attenuation_narrows_example : Grants no_regex (scope_authority parent) db_users_1
unfolding scope_authority validate_scope_attenuation add_all authority_contains base_of containment
    drop_last ends_with flat_scopes get_delegation_scopes granted has_dot_segment holds_for
    is_dotted_path kya_os_mcp.Delegation.Scope.group_body
    kya_os_mcp.Delegation.Scope.nested_quantifier kya_os_mcp.Delegation.Scope.quantified_after
    match_scope matcher_beq matcher_name path_base prefix_base push_head scope_contains split_at
    starts_with strip_slashes widened_matchers widened_scopes
attenuation_narrows_example =
    attenuation_narrows no_regex parent child db_users_1 refl (tt, tt) refl refl (inl refl)
