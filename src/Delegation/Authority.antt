-- ===== src/Delegation/Authority.antt =====
-- The authority of a credential: `flatScopes`, `crispScopes`, `scopeAuthority` and `scopeSatisfies`
-- of src/delegation/scope-matcher.ts, with `getDelegationScopes` and `validateScopeAttenuation` of
-- src/delegation/chain-enforcement.ts.
pub mod Narrowing
pub mod Attenuation
use kya_os_mcp.Common.{
  ℕ, Bool, true, false, ◌&&◌, not, List, [], ◌∷◌, ◌++◌, map, Option, none, some, ◌==◌, nat_eq,
  list_eq, if◌then◌else◌, keep_if, includes, add_item,
}
use kya_os_mcp.Text.{Text}
use kya_os_mcp.Delegation.Scope.{
  exact, CrispScope, ScopeEntry, is_exact, match_scope, authority_contains,
}
use kya_os_mcp.Delegation.Credential.{Credential}

-- `flatScopes`: delegation.scopes, then constraints.scopes
unfoldable pub flat_scopes : Credential → List Text
flat_scopes c = c.scopes ++ c.constraint_scopes

-- A flat scope, as an `exact` matcher.
abbrev pub exact_entry : Text → ScopeEntry
exact_entry resource = some (record { resource = resource; matcher = exact })

unfoldable pub scope_authority : Credential → List ScopeEntry
unfolding flat_scopes
scope_authority c = map exact_entry (flat_scopes c) ++ c.crisp

-- `for (const scope of items) scopes.add(scope)`
unfoldable pub add_all : List Text → List Text → List Text
add_all acc [] = acc
add_all acc (s ∷ items) = add_all (add_item s acc) items

-- The set of both lists, in insertion order.
unfoldable pub get_delegation_scopes : Credential → List Text
unfolding add_all
get_delegation_scopes c = add_all (add_all [] c.scopes) c.constraint_scopes

-- The outcome of `validateScopeAttenuation`, with what its reason lists.
pub data AttenuationResult : Type 0 where
  narrows : AttenuationResult
  omits_scopes : AttenuationResult
  widens_matchers : List ScopeEntry → AttenuationResult
  widens_scopes : List Text → AttenuationResult

abbrev pub is_nil {ℓ} : {A : Type ℓ} → List A → Bool
is_nil [] = true
is_nil (a ∷ l) = false

pub record Satisfaction : Type 0 where
  pub satisfied : Bool
  pub used_non_exact_matcher : Bool

module _ (regex_test : Text → Text → Bool) where
  unfoldable pub widened_matchers : Credential → Credential → List ScopeEntry
  unfolding scope_authority
  widened_matchers parent child =
      keep_if (λ s. not (authority_contains regex_test (scope_authority parent) s)) child.crisp

  unfoldable pub widened_scopes : Credential → Credential → List Text
  unfolding scope_authority get_delegation_scopes
  widened_scopes parent child =
      keep_if (λ s. not (authority_contains regex_test (scope_authority parent) (exact_entry s)))
        (get_delegation_scopes child)

  unfoldable pub validate_scope_attenuation : Credential → Credential → AttenuationResult
  unfolding widened_matchers widened_scopes
  validate_scope_attenuation parent child =
      if is_nil (scope_authority parent)
      then narrows
      else if is_nil (get_delegation_scopes child) && is_nil child.crisp
      then omits_scopes
      else if not (is_nil (widened_matchers parent child))
      then widens_matchers (widened_matchers parent child)
      else if not (is_nil (widened_scopes parent child))
      then widens_scopes (widened_scopes parent child)
      else narrows

  -- The loop over the CRISP entries. `none` stands for an entry that is no scope, where the code
  -- goes by JavaScript's coercions and may throw.
  unfoldable pub crisp_satisfies : Text → List ScopeEntry → Option Satisfaction
  crisp_satisfies required [] = some (record { satisfied = false; used_non_exact_matcher = false })
  crisp_satisfies required (none ∷ entries) = none
  crisp_satisfies required (some cs ∷ entries) =
      let rest = crisp_satisfies required entries in
      if match_scope regex_test cs.resource cs.matcher required
      then some (record { satisfied = true; used_non_exact_matcher = not (is_exact cs.matcher) })
      else rest

  unfoldable pub scope_satisfies : Text → Credential → Option Satisfaction
  unfolding crisp_satisfies flat_scopes
  scope_satisfies required c =
      if includes required (flat_scopes c)
      then some (record { satisfied = true; used_non_exact_matcher = false })
      else crisp_satisfies required c.crisp
