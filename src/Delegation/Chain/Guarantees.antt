-- ===== src/Delegation/Chain/Guarantees.antt =====
-- What `validateDelegationChain` guarantees of the chain as a whole.
use kya_os_mcp.Common.{
  ℕ, suc, ◌≤◌, ◌≡◌, sym, ap, ◌∙◌, inl, inr, Bool, false, List, [], ◌∷◌, ◌++◌, Option, none, some,
  String, arith, ◌==◌, string_eq, option_eq, All, length, Bool-cases, Option-cases,
}
use mathlib.Core.Path.{subst}
use kya_os_mcp.Text.{Text}
use kya_os_mcp.Delegation.Scope.{has_dot_segment, granted}
use kya_os_mcp.Delegation.Credential.{Credential}
use kya_os_mcp.Delegation.Authority.{scope_authority, is_nil}
use kya_os_mcp.Delegation.Authority.Narrowing.{IsPlain, Grants}
use kya_os_mcp.Delegation.Authority.Attenuation.{attenuation_narrows, attenuation-IsRestricted}
use kya_os_mcp.Delegation.Chain.{
  Presented, Deps, Revocation, Outcome, done, start, require, resolve_ancestors, check_limit,
  check_chain, check_revoked, check_revocations, presented_ids, validate_delegation_chain,
}
use kya_os_mcp.Delegation.Chain.Soundness.{>>=-eq-done, IsChain, chain_expiry, check_chain_sound}

-- The length of the chain keeps to the limit, where one is set.
abbrev pub IsWithin : Option (Option ℕ) → ℕ → Type 0
IsWithin none size = Unit
IsWithin (some none) size = ⊥
IsWithin (some (some limit)) size = size ≤ limit

-- The checker, where there is one, calls no credential of the chain revoked.
abbrev pub IsUnrevoked : Option (String → Option Revocation) → List String → Type 0
IsUnrevoked none ids = Unit
IsUnrevoked (some ask) ids =
    All (λ id. (r : Revocation) × (ask id ≡ some r) × (r.revoked ≡ false)) ids

check_limit_sound :
    (limit : Option (Option ℕ)) (size : ℕ) → check_limit limit size ≡ done tt → IsWithin limit size
unfolding check_limit
check_limit_sound none size h = tt
check_limit_sound (some none) size h = cc
check_limit_sound (some (some limit)) size h = ground arith

check_revoked_sound :
    (ask : String → Option Revocation) (ids : List String) (leaf : String)
    → check_revoked ask ids leaf ≡ done tt
    → IsUnrevoked (some ask) ids
unfolding check_revoked
check_revoked_sound ask [] leaf h = tt
check_revoked_sound ask (id ∷ ids) leaf h = elim (Option-cases (ask id)) [
  | inl failed ↦ absurd (ground arith)
  | inr (r, answered) ↦ elim (Bool-cases r.revoked) [
    | inl is_revoked ↦ absurd (ground arith)
    | inr live ↦ ((r, answered, live), check_revoked_sound ask ids leaf (ground arith))
  ]
]

-- The ids of a chain, root first.
abbrev pub chain_ids : List Presented → Credential → List String
chain_ids ancestors leaf = presented_ids ancestors ++ leaf.id ∷ []

check_revocations_sound :
    (checker : Option (String → Option Revocation)) (ancestors : List Presented) (leaf : Credential)
    → check_revocations checker ancestors leaf ≡ done tt
    → IsUnrevoked checker (chain_ids ancestors leaf)
unfolding check_revocations
check_revocations_sound none ancestors leaf h = tt
check_revocations_sound (some ask) ancestors leaf h =
    check_revoked_sound ask (chain_ids ancestors leaf) leaf.id h

done_first :
    {A B : Type 0} (a c : A) (b d : B)
    → ◌≡◌ {A = Outcome (A × B)} (done (a, b)) (done (c, d))
    → a ≡ c
done_first a c b d h = cc

done_injective : {A : Type 0} {a b : A} → ◌≡◌ {A = Outcome A} (done a) (done b) → a ≡ b
done_injective h = cc

module _ (deps : Deps) where
  -- An accepted leaf stands at the end of a chain from a root that the resolver gave, each
  -- credential of it verified, bound to the server and linked to its parent, with no id twice, no
  -- longer than the limit, none of them revoked; the expiry is that of the chain.
  pub record IsAccepted (skip : Bool) (leaf : Credential) (expires : Option ℕ) : Type 0 where
    pub ancestors : List Presented
    pub resolved : resolve_ancestors deps leaf ≡ done ancestors
    pub chain : IsChain deps skip none [] ancestors leaf
    pub within : IsWithin deps.max_chain_length (suc (length ancestors))
    pub unrevoked : IsUnrevoked deps.revocation_checker (chain_ids ancestors leaf)
    pub expiry : expires ≡ chain_expiry deps none ancestors leaf

  -- Where `validateDelegationChain` accepts a leaf, the chain that it stands in is one of
  -- credentials that are each verified, bound to the server and linked to the one before, from a
  -- trusted root, none twice, none revoked as far as a checker is there to say, and no longer than
  -- the limit; and the expiry is that of this chain.
  pub validate_delegation_chain-IsAccepted :
      (skip : Bool) (leaf : Credential) (expires : Option ℕ) (warnings : List String)
      → validate_delegation_chain deps skip (some leaf) ≡ done (expires, warnings)
      → IsAccepted skip leaf expires
  unfolding validate_delegation_chain
  validate_delegation_chain-IsAccepted skip leaf expires warnings h =
      let (_, _, h₀) = >>=-eq-done (require leaf.has_constraints _) _ h in
      let (ancestors, resolved, h₁) = >>=-eq-done (resolve_ancestors deps leaf) _ h₀ in
      let (_, within, h₂) =
        >>=-eq-done (check_limit deps.max_chain_length (suc (length ancestors))) _ h₁ in
      let (w, walked, h₃) = >>=-eq-done (check_chain deps skip start ancestors leaf) _ h₂ in
      let (_, _, h₄) = >>=-eq-done (require (leaf.id == leaf.id) _) _ h₃ in
      let (_, unrevoked, h₅) =
        >>=-eq-done (check_revocations deps.revocation_checker ancestors leaf) _ h₄ in
      let (chain, expiry) = check_chain_sound deps skip start w ancestors leaf walked in
      record {
        ancestors = ancestors;
        resolved = resolved;
        chain = chain;
        within = check_limit_sound deps.max_chain_length (suc (length ancestors)) within;
        unrevoked = check_revocations_sound deps.revocation_checker ancestors leaf unrevoked;
        expiry = sym (done_first w.expires_at expires w.warnings warnings h₅) ∙ expiry;
      }

  -- The matcher names in a credential's authority are plain.
  abbrev pub HasPlainNames : Credential → Type 0
  HasPlainNames c = All (λ s. IsPlain s.matcher) (granted (scope_authority c))

  abbrev pub AllPlain : List Presented → Type 0
  AllPlain [] = Unit
  AllPlain (none ∷ ancestors) = AllPlain ancestors
  AllPlain (some c ∷ ancestors) = HasPlainNames c × AllPlain ancestors

  chain_narrows_from :
      (skip : Bool) (parent : Credential) (seen : List String) (ancestors : List Presented)
      (leaf : Credential) (v : Text)
      → IsChain deps skip (some parent) seen ancestors leaf
      → is_nil (scope_authority parent) ≡ false
      → HasPlainNames parent
      → AllPlain ancestors
      → has_dot_segment v ≡ false
      → Grants deps.regex_test (scope_authority leaf) v
      → Grants deps.regex_test (scope_authority parent) v
  chain_narrows_from skip parent seen [] leaf v (_, link, _) restricted plain others d g =
      attenuation_narrows deps.regex_test parent leaf v restricted plain d link.3 g
  chain_narrows_from skip parent seen (none ∷ ancestors) leaf v chain restricted plain others d g =
      absurd chain
  chain_narrows_from skip parent seen (some c ∷ ancestors) leaf v (_, link, _, chain) restricted
        plain (p, others) d g =
      attenuation_narrows deps.regex_test parent c v restricted plain d link.3 (
        chain_narrows_from skip c (seen ++ c.id ∷ []) ancestors leaf v chain
          (attenuation-IsRestricted deps.regex_test parent c restricted link.3) p others d g)

  -- The root of an accepted chain.
  abbrev pub root_of : List Presented → Credential → Credential
  root_of [] leaf = leaf
  root_of (none ∷ ancestors) leaf = root_of ancestors leaf
  root_of (some c ∷ ancestors) leaf = c

  chain_narrows :
      (skip : Bool) (ancestors : List Presented) (leaf : Credential) (v : Text)
      → IsChain deps skip none [] ancestors leaf
      → is_nil (scope_authority (root_of ancestors leaf)) ≡ false
      → AllPlain ancestors
      → has_dot_segment v ≡ false
      → Grants deps.regex_test (scope_authority leaf) v
      → Grants deps.regex_test (scope_authority (root_of ancestors leaf)) v
  chain_narrows skip [] leaf v chain restricted plain d g = g
  chain_narrows skip (none ∷ ancestors) leaf v chain restricted plain d g = absurd chain
  chain_narrows skip (some c ∷ ancestors) leaf v (_, _, _, chain) restricted (p, others) d g =
      chain_narrows_from skip c (c.id ∷ []) ancestors leaf v chain restricted p others d g

  -- An accepted leaf whose ancestors are those that were resolved: the chain is the one they form.
  pub accepted-IsChain :
      (skip : Bool) (leaf : Credential) (expires : Option ℕ) (ancestors : List Presented)
      → IsAccepted skip leaf expires
      → resolve_ancestors deps leaf ≡ done ancestors
      → IsChain deps skip none [] ancestors leaf × (expires ≡ chain_expiry deps none ancestors leaf)
  accepted-IsChain skip leaf expires ancestors a h =
      let same : a.ancestors ≡ ancestors = done_injective (sym a.resolved ∙ h) in
      (
        subst (λ l. IsChain deps skip none [] l leaf) same a.chain,
        a.expiry ∙ ap (λ l. chain_expiry deps none l leaf) same,
      )

  -- Authority only shrinks along an accepted chain: every value without a dot segment that the
  -- leaf's authority grants, the authority of the chain's root grants, if the root is restricted
  -- to scopes at all and the ancestors' matcher names are plain.
  pub accepted-narrows :
      (skip : Bool) (leaf : Credential) (expires : Option ℕ) (warnings : List String)
      (ancestors : List Presented) (v : Text)
      → validate_delegation_chain deps skip (some leaf) ≡ done (expires, warnings)
      → resolve_ancestors deps leaf ≡ done ancestors
      → is_nil (scope_authority (root_of ancestors leaf)) ≡ false
      → AllPlain ancestors
      → has_dot_segment v ≡ false
      → Grants deps.regex_test (scope_authority leaf) v
      → Grants deps.regex_test (scope_authority (root_of ancestors leaf)) v
  accepted-narrows skip leaf expires warnings ancestors v valid resolved =
      let a = validate_delegation_chain-IsAccepted skip leaf expires warnings valid in
      chain_narrows skip ancestors leaf v
        (accepted-IsChain skip leaf expires ancestors a resolved).0
