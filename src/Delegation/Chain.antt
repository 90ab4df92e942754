-- ===== src/Delegation/Chain.antt =====
-- src/delegation/chain-enforcement.ts, `validateDelegationChain`: the checks of a delegation chain,
-- root to leaf. The per-credential verifier, the chain resolver, the revocation checker and
-- `Date.parse` are parameters; an answer `none` of one of the first three is a rejected promise.
pub mod Soundness
pub mod Guarantees
pub mod Lifetime
pub mod Errors
use kya_os_mcp.Common.{
  ℕ, zero, suc, ◌+◌, ◌*◌, ◌<◌, min, ◌≡◌, Bool, true, false, ◌&&◌, ◌||◌, not, List, [], ◌∷◌, ◌++◌,
  Option, none, some, String, ltb, ◌==◌, nat_eq, string_eq, option_eq, if◌then◌else◌, includes,
  length,
}
use kya_os_mcp.Text.{Text}
use kya_os_mcp.Delegation.Scope.{ScopeEntry}
use kya_os_mcp.Delegation.Credential.{
  Credential, Audience, Issuer, is_set, has_audience, credential_issuer_did,
  verify_delegation_audience,
}
use kya_os_mcp.Delegation.Authority.{
  AttenuationResult, narrows, omits_scopes, widens_matchers, widens_scopes,
  validate_scope_attenuation,
}

-- An untrusted credential: one that is `none` lacks `credentialSubject.delegation`.
abbrev pub Presented : Type 0
Presented = Option Credential

-- The answer of the revocation checker.
pub record Revocation : Type 0 where
  pub revoked : Bool
  pub revoked_ancestor : Option String

-- `ChainEnforcementDeps`, with `Date.parse` (milliseconds, `none` for an unreadable date) and the
-- regular-expression test of the scope matchers.
pub record Deps : Type 0 where
  pub server_did : String
  pub verify : Bool → Credential → Option Bool
  pub resolve_delegation_chain : Option (Credential → Option (List Presented))
  pub status_list_configured : Bool
  pub revocation_checker : Option (String → Option Revocation)
  pub trusted_root_issuers : Option (List String)
  -- `some none` is a value that is no positive integer for another reason than being 0.
  pub max_chain_length : Option (Option ℕ)
  pub parse_date : String → Option ℕ
  pub regex_test : Text → Text → Bool

-- Why a chain is rejected, one constructor for each `return { valid: false, … }`.
pub data Reason : Type 0 where
  malformed_leaf no_resolver resolution_failed empty_chain leaf_not_last : Reason
  bad_limit too_long circular status_unconfigured unverified wrong_audience : Reason
  no_audience incomplete untrusted_root wrong_parent wrong_issuer wrong_signer : Reason
  not_attenuated : AttenuationResult → Reason
  wrong_leaf revocation_failed : Reason
  revoked : Option String → Reason

-- `throws` is a TypeError or a rejected promise that nothing catches.
pub data Outcome {ℓ} (A : Type ℓ) : Type ℓ where
  done : A → Outcome A
  reject : Reason → Outcome A
  throws : Outcome A

infixl 5 ◌>>=◌ ◌>>◌
abbrev pub ◌>>=◌ {ℓ κ} : {A : Type ℓ} {B : Type κ} → Outcome A → (A → Outcome B) → Outcome B
done a >>= f = f a
reject r >>= f = reject r
throws >>= f = throws

abbrev pub ◌>>◌ {ℓ} : {B : Type ℓ} → Outcome (Unit {0}) → Outcome B → Outcome B
m >> k = m >>= λ _. k

abbrev pub require : Bool → Reason → Outcome (Unit {0})
require true r = done tt
require false r = reject r

-- `findIndex` by the leaf's id, with what stands behind the hit; a malformed entry before it throws.
pub data Found : Type 0 where
  missing breaks : Found
  found_last found_inside : Found

unfoldable pub find_leaf : String → List Presented → Found
find_leaf id [] = missing
find_leaf id (none ∷ chain) = breaks
find_leaf id (some c ∷ []) = if c.id == id then found_last else missing
find_leaf id (some c ∷ next ∷ chain) =
    let rest = find_leaf id (next ∷ chain) in if c.id == id then found_inside else rest

-- `slice(0, -1)`
unfoldable pub all_but_last {ℓ} : {A : Type ℓ} → List A → List A
all_but_last [] = []
all_but_last (c ∷ []) = []
all_but_last (c ∷ d ∷ chain) = c ∷ all_but_last (d ∷ chain)

-- The ancestors of the leaf, root first: the chain without the presented leaf at its end.
unfoldable pub place_leaf : List Presented → Found → Outcome (List Presented)
unfolding all_but_last
place_leaf chain missing = done chain
place_leaf chain found_last = done (all_but_last chain)
place_leaf chain found_inside = reject leaf_not_last
place_leaf chain breaks = throws

unfoldable pub fit_chain : String → Option (List Presented) → Outcome (List Presented)
fit_chain id none = reject resolution_failed
fit_chain id (some []) = reject empty_chain
fit_chain id (some (p ∷ chain)) = place_leaf (p ∷ chain) (find_leaf id (p ∷ chain))

unfoldable pub resolve_with :
    Option (Credential → Option (List Presented)) → Credential → Outcome (List Presented)
resolve_with none leaf = reject no_resolver
resolve_with (some resolve) leaf = fit_chain leaf.id (resolve leaf)

unfoldable pub resolve_ancestors : Deps → Credential → Outcome (List Presented)
unfolding find_leaf place_leaf fit_chain resolve_with
resolve_ancestors deps leaf =
    if is_set leaf.parent_id then resolve_with deps.resolve_delegation_chain leaf else done []

-- The `maxChainLength` test on a chain of `size` credentials.
unfoldable pub check_limit : Option (Option ℕ) → ℕ → Outcome (Unit {0})
check_limit none size = done tt
check_limit (some none) size = reject bad_limit
check_limit (some (some limit)) size = do
  require (ltb 0 limit) bad_limit
  require (not (ltb limit size)) too_long

-- `Math.min(expiresAt ?? deadline, deadline)`, for a deadline that is there and finite
unfoldable pub earliest : Option ℕ → Option ℕ → Option ℕ
earliest expires none = expires
earliest none (some deadline) = some deadline
earliest (some e) (some deadline) = some (min e deadline)

-- The variables of the loop over the chain.
pub record Walk : Type 0 where
  pub seen_ids : List String
  pub expires_at : Option ℕ
  pub warnings : List String
  pub previous : Option Credential

abbrev pub start : Walk
start = record { seen_ids = []; expires_at = none; warnings = []; previous = none }

abbrev pub verified : Option Bool → Outcome (Unit {0})
verified none = throws
verified (some true) = done tt
verified (some false) = reject unverified

-- Reading a member of absent constraints throws.
abbrev pub constrained : Bool → Outcome (Unit {0})
constrained false = throws
constrained true = done tt

abbrev pub attenuated : AttenuationResult → Outcome (Unit {0})
attenuated narrows = done tt
attenuated omits_scopes = reject (not_attenuated omits_scopes)
attenuated (widens_matchers l) = reject (not_attenuated (widens_matchers l))
attenuated (widens_scopes l) = reject (not_attenuated (widens_scopes l))

-- The id that a rejection names, if it is an ancestor's.
abbrev pub ancestor_named : Option String → String → String → Option String
ancestor_named (some ancestor) id leaf = some ancestor
ancestor_named none id leaf = if id == leaf then none else some id

unfoldable pub check_revoked :
    (String → Option Revocation) → List String → String → Outcome (Unit {0})
check_revoked ask [] leaf = done tt
check_revoked ask (id ∷ ids) leaf =
    let rest = check_revoked ask ids leaf in
    elim (ask id) [
      | none ↦ reject revocation_failed
      | some r ↦
          if r.revoked then reject (revoked (ancestor_named r.revoked_ancestor id leaf)) else rest
    ]

abbrev pub presented_ids : List Presented → List String
presented_ids [] = []
presented_ids (none ∷ ancestors) = presented_ids ancestors
presented_ids (some c ∷ ancestors) = c.id ∷ presented_ids ancestors

-- Every id of the verified chain is asked about, root first, if there is a checker.
unfoldable pub check_revocations :
    Option (String → Option Revocation) → List Presented → Credential → Outcome (Unit {0})
check_revocations none ancestors leaf = done tt
check_revocations (some ask) ancestors leaf =
    check_revoked ask (presented_ids ancestors ++ leaf.id ∷ []) leaf.id

module _ (deps : Deps) where
  -- `credential.expirationDate ? Date.parse(…) : undefined`, if finite
  unfoldable pub expiry_deadline : Option String → Option ℕ
  expiry_deadline none = none
  expiry_deadline (some date) = if date == "" then none else deps.parse_date date

  abbrev pub seconds_deadline : Option ℕ → Option ℕ
  seconds_deadline none = none
  seconds_deadline (some t) = some (t * 1000)

  unfoldable pub tighten : Option ℕ → Credential → Option ℕ
  unfolding earliest expiry_deadline
  tighten expires c =
      earliest (earliest expires (expiry_deadline c.expiration_date)) (seconds_deadline c.not_after)

  abbrev pub is_trusted : Option (List String) → Option String → Bool
  is_trusted none signer = true
  is_trusted (some trusted) none = false
  is_trusted (some trusted) (some did) = includes did trusted

  -- The root: no parent, a trusted signer; a warning where `issuerDid` is not the signer.
  unfoldable pub check_root : Walk → Credential → Outcome Walk
  check_root w c = do
    require (not (is_set c.parent_id)) incomplete
    let signer = credential_issuer_did c.issuer
    require (is_trusted deps.trusted_root_issuers signer) untrusted_root
    done (record w {
      warnings = if signer == some c.issuer_did then w.warnings else w.warnings ++ c.id ∷ [];
      previous = some c;
    })

  -- A re-delegation: linked to its parent, issued and signed by the parent's subject, attenuated.
  unfoldable pub check_child : Walk → Credential → Credential → Outcome Walk
  check_child w parent c = do
    require (c.parent_id == some parent.id) wrong_parent
    require (c.issuer_did == parent.subject_did) wrong_issuer
    require (credential_issuer_did c.issuer == some parent.subject_did) wrong_signer
    attenuated (validate_scope_attenuation deps.regex_test parent c)
    done (record w { previous = some c })

  unfoldable pub check_link : Walk → Credential → Outcome Walk
  unfolding check_root check_child
  check_link w c = elim w.previous [ none ↦ check_root w c | some parent ↦ check_child w parent c ]

  -- One round of the loop; `skip` is set for the presented leaf alone.
  unfoldable pub check_credential : Bool → Walk → Credential → Outcome Walk
  check_credential skip w c = do
    require (not (includes c.id w.seen_ids)) circular
    require (not (c.has_status && not deps.status_list_configured)) status_unconfigured
    verified (deps.verify skip c)
    constrained c.has_constraints
    require (verify_delegation_audience c.audience deps.server_did) wrong_audience
    require (not (is_set c.parent_id && not (has_audience c.audience))) no_audience
    check_link
        (record w { seen_ids = w.seen_ids ++ c.id ∷ []; expires_at = tighten w.expires_at c }) c

  -- The loop: the ancestors, then the leaf.
  unfoldable pub check_chain : Bool → Walk → List Presented → Credential → Outcome Walk
  check_chain skip w [] leaf = check_credential skip w leaf
  check_chain skip w (none ∷ ancestors) leaf = throws
  check_chain skip w (some c ∷ ancestors) leaf =
      check_credential false w c >>= λ w'. check_chain skip w' ancestors leaf

  -- A valid chain: the earliest expiry and the warnings, by the ids of their credentials.
  unfoldable pub validate_delegation_chain : Bool → Presented → Outcome (Option ℕ × List String)
  validate_delegation_chain skip none = reject malformed_leaf
  validate_delegation_chain skip (some leaf) = do
    require leaf.has_constraints malformed_leaf
    ancestors ← resolve_ancestors deps leaf
    check_limit deps.max_chain_length (suc (length ancestors))
    w ← check_chain skip start ancestors leaf
    require (leaf.id == leaf.id) wrong_leaf
    check_revocations deps.revocation_checker ancestors leaf
    done (w.expires_at, w.warnings)
