-- ===== src/Card/Delegation/Evaluation.antt =====
-- What `evaluateDelegationChain` of src/card/delegation.ts adds: the statuses of a chain that stands.
use kya_os_mcp.Common.{
  ℕ, suc, Option, none, some, false, [], ◌≡◌, refl, sym, ◌∙◌, ◌↔◌, inl, inr, true, ◌&&◌, List, ◌∷◌,
  Bool-cases, and_left, and_right,
}
use kya_os_mcp.Card.Caveats.{Platform}
use kya_os_mcp.Card.Revocation.{
  BitstringStatusListEntry, BitstringRevocationChecker, evaluate_revocation_chain,
}
use kya_os_mcp.Card.Revocation.Walk.{
  AllLive, AllFresh, evaluate_revocation_chain-ok, AllLive→evaluate_revocation_chain,
  evaluate_revocation_chain-fresh,
}
use kya_os_mcp.Card.Delegation.{
  DelegationCredential, DelegationChainContext, status_entries, validate_delegation_chain,
  evaluate_delegation_chain,
}

-- Of a chain from a hop on, no credential's own status is revoked; the statuses are asked for in
-- the order of the chain, and counted.
abbrev pub AllUnrevoked : BitstringRevocationChecker → ℕ → List DelegationCredential → Type 0
AllUnrevoked check hop [] = Unit
AllUnrevoked check hop (vc ∷ chain) = elim vc.credential_status [
  | none ↦ AllUnrevoked check hop chain
  | some e ↦ ((check hop e).revoked ≡ false) × AllUnrevoked check (suc hop) chain
]

AllLive-AllUnrevoked :
    (check : BitstringRevocationChecker) (hop : ℕ) (chain : List DelegationCredential)
    → AllLive check hop (status_entries chain) ↔ AllUnrevoked check hop chain
unfolding status_entries
AllLive-AllUnrevoked check hop [] = ((λ h. h), (λ h. h))
AllLive-AllUnrevoked check hop (vc ∷ chain) =
    by_status vc.credential_status (AllLive-AllUnrevoked check hop chain)
      (AllLive-AllUnrevoked check (suc hop) chain)
  where
    by_status :
        (o : Option BitstringStatusListEntry)
        → AllLive check hop (status_entries chain) ↔ AllUnrevoked check hop chain
        → AllLive check (suc hop) (status_entries chain) ↔ AllUnrevoked check (suc hop) chain
        → AllLive check hop
            (elim o [ none ↦ status_entries chain | some e ↦ e ∷ status_entries chain ])
          ↔ (elim o [
            | none ↦ AllUnrevoked check hop chain
            | some e ↦ ((check hop e).revoked ≡ false) × AllUnrevoked check (suc hop) chain
          ])
    by_status none same next = same
    by_status (some e) same (to, from) =
        ((λ (live, rest). (live, to rest)), (λ (live, rest). (live, from rest)))

module _ (platform : Platform) (chain : List DelegationCredential)
    (check : BitstringRevocationChecker) (ctx : DelegationChainContext) where
  evaluated-ok : (evaluate_delegation_chain platform chain check ctx).0.ok ≡ (
      (validate_delegation_chain platform chain ctx).ok
      && (evaluate_revocation_chain (status_entries chain) check).ok)
  unfolding evaluate_delegation_chain
  evaluated-ok = elim (Bool-cases (validate_delegation_chain platform chain ctx).ok) [
    | inl fine ↦ rw (fine, evaluate_delegation_chain) refl
    | inr refused ↦ rw (refused, evaluate_delegation_chain) refused
  ]

  evaluated-fresh : (evaluate_delegation_chain platform chain check ctx).1 ≡ (
      (validate_delegation_chain platform chain ctx).ok
      && (evaluate_revocation_chain (status_entries chain) check).fresh)
  unfolding evaluate_delegation_chain
  evaluated-fresh = elim (Bool-cases (validate_delegation_chain platform chain ctx).ok) [
    | inl fine ↦ rw (fine, evaluate_delegation_chain) refl
    | inr refused ↦ rw (refused, evaluate_delegation_chain) refl
  ]

  -- A chain is evaluated as valid exactly when its structure is and, for each of its credentials that
  -- carries a status, the checker, asked in the order of the chain, does not answer that it is revoked.
  pub evaluate_delegation_chain_iff :
      ((evaluate_delegation_chain platform chain check ctx).0.ok ≡ true)
      ↔ (((validate_delegation_chain platform chain ctx).ok ≡ true) × AllUnrevoked check 0 chain)
  evaluate_delegation_chain_iff = (
    (λ h.
        let both = sym evaluated-ok ∙ h in
        (
          and_left _ _ both,
          (AllLive-AllUnrevoked check 0 chain).0
              (evaluate_revocation_chain-ok check (status_entries chain) (and_right _ _ both)),
        )),
    (λ (fine, unrevoked).
        let live = (AllLive-AllUnrevoked check 0 chain).1 unrevoked in
        evaluated-ok
        ∙ rw (fine, AllLive→evaluate_revocation_chain check (status_entries chain) live) refl),
  )

  -- It is evaluated as fresh only if its structure is valid, it carries at least one status, and each
  -- of them was read from a live list.
  pub evaluate_delegation_chain_fresh :
      (evaluate_delegation_chain platform chain check ctx).1 ≡ true
      → ((validate_delegation_chain platform chain ctx).ok ≡ true)
        × ((first : BitstringStatusListEntry) × (rest : List BitstringStatusListEntry)
            × (status_entries chain ≡ first ∷ rest)
            × AllFresh check 0 (status_entries chain))
  evaluate_delegation_chain_fresh h =
      let both = sym evaluated-fresh ∙ h in
      (
        and_left _ _ both,
        evaluate_revocation_chain-fresh check (status_entries chain) (and_right _ _ both),
      )
