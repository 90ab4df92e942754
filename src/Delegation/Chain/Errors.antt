-- ===== src/Delegation/Chain/Errors.antt =====
-- A case in which `validateDelegationChain` throws.
use kya_os_mcp.Common.{
  ◌≡◌, refl, ap, ◌∙◌, if◌then◌else◌, Bool, true, false, List, [], ◌∷◌, ◌++◌, map, Option, none,
  some, String, ◌==◌, string_eq, All,
}
use kya_os_mcp.Delegation.Credential.{Credential, is_set}
use kya_os_mcp.Delegation.Chain.{
  Presented, Deps, done, throws, breaks, find_leaf, place_leaf, fit_chain, resolve_with,
  resolve_ancestors, validate_delegation_chain,
}

find_leaf-breaks :
    (id : String) (before : List Credential) (after : List Presented)
    → All (λ c. (c.id == id) ≡ false) before
    → find_leaf id (map some before ++ none ∷ after) ≡ breaks
unfolding find_leaf
find_leaf-breaks id [] after h = refl
find_leaf-breaks id (c ∷ []) after (apart, h) = rw apart
find_leaf-breaks id (c ∷ d ∷ before) after (apart, h) =
    rw apart (find_leaf-breaks id (d ∷ before) after h)

fit_chain-breaks :
    (id : String) (before : List Credential) (after : List Presented)
    → All (λ c. (c.id == id) ≡ false) before
    → fit_chain id (some (map some before ++ none ∷ after)) ≡ throws
unfolding fit_chain place_leaf
fit_chain-breaks id [] after h = rw (find_leaf-breaks id [] after h)
fit_chain-breaks id (c ∷ before) after h = rw (find_leaf-breaks id (c ∷ before) after h)

resolve_ancestors-throws :
    (deps : Deps) (leaf : Credential) (resolve : Credential → Option (List Presented))
    (before : List Credential) (after : List Presented)
    → is_set leaf.parent_id ≡ true
    → deps.resolve_delegation_chain ≡ some resolve
    → resolve leaf ≡ some (map some before ++ none ∷ after)
    → All (λ c. (c.id == leaf.id) ≡ false) before
    → resolve_ancestors deps leaf ≡ throws
unfolding resolve_ancestors
resolve_ancestors-throws deps leaf resolve before after delegated wired resolved others =
    ap (λ b. if b then resolve_with deps.resolve_delegation_chain leaf else done []) delegated
    ∙ ap (λ r. resolve_with r leaf) wired
    ∙ ap (fit_chain leaf.id) resolved
    ∙ fit_chain-breaks leaf.id before after others

-- A resolver that returns an entry with no delegation, ahead of any entry with the leaf's id, makes
-- the validation of a re-delegated leaf that has its constraints throw, whatever the other parameters are.
pub validate_delegation_chain-throws :
    (deps : Deps) (skip : Bool) (leaf : Credential) (resolve : Credential → Option (List Presented))
    (before : List Credential) (after : List Presented)
    → leaf.has_constraints ≡ true
    → is_set leaf.parent_id ≡ true
    → deps.resolve_delegation_chain ≡ some resolve
    → resolve leaf ≡ some (map some before ++ none ∷ after)
    → All (λ c. (c.id == leaf.id) ≡ false) before
    → validate_delegation_chain deps skip (some leaf) ≡ throws
unfolding validate_delegation_chain
validate_delegation_chain-throws deps skip leaf resolve before after formed delegated wired resolved
      others =
    rw (
      resolve_ancestors-throws deps leaf resolve before after delegated wired resolved others,
      formed,
    )
