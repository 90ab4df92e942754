-- ===== src/Delegation/Chain/Soundness.antt =====
-- What an accepted delegation chain guarantees, credential by credential.
use kya_os_mcp.Common.{
  ℕ, ◌≡◌, refl, ap, ◌∙◌, ◌⊎◌, Bool, true, false, List, [], ◌∷◌, ◌++◌, Option, none, some, String,
  arith, string_eq, option_eq, ==_iff, includes,
}
use mathlib.Core.Path.{subst}
use kya_os_mcp.Delegation.Credential.{
  Credential, is_set, has_audience, credential_issuer_did, verify_delegation_audience,
}
use kya_os_mcp.Delegation.Authority.{narrows, validate_scope_attenuation}
use kya_os_mcp.Delegation.Chain.{
  Presented, Deps, Outcome, done, reject, throws, Walk, ◌>>=◌, tighten, is_trusted, check_root,
  check_child, check_link, check_credential, check_chain,
}

module _ {ℓ κ} {A : Type ℓ} {B : Type κ} where
  pub >>=-eq-done :
      (m : Outcome A) (f : A → Outcome B) {b : B}
      → (m >>= f) ≡ done b
      → (a : A) × (m ≡ done a) × (f a ≡ done b)
  >>=-eq-done (done a) f h = (a, refl, h)
  >>=-eq-done (reject r) f h = cc
  >>=-eq-done throws f h = cc

module _ (deps : Deps) where
  -- How a credential hangs on the one before it.
  abbrev pub IsLinked : Option Credential → Credential → Type 0
  IsLinked none c =
      (is_set c.parent_id ≡ false)
      × (is_trusted deps deps.trusted_root_issuers (credential_issuer_did c.issuer) ≡ true)
  IsLinked (some parent) c =
      (c.parent_id ≡ some parent.id)
      × (c.issuer_did ≡ parent.subject_did)
      × (credential_issuer_did c.issuer ≡ some parent.subject_did)
      × (validate_scope_attenuation deps.regex_test parent c ≡ narrows)

  -- What is asked of each credential by itself.
  pub record IsSound (skip : Bool) (c : Credential) : Type 0 where
    pub verified : deps.verify skip c ≡ some true
    pub status : (c.has_status ≡ false) ⊎ (deps.status_list_configured ≡ true)
    pub formed : c.has_constraints ≡ true
    pub audience : verify_delegation_audience c.audience deps.server_did ≡ true
    pub bound : (is_set c.parent_id ≡ false) ⊎ (has_audience c.audience ≡ true)

  check_root_sound :
      (w w' : Walk) (c : Credential)
      → check_root deps w c ≡ done w'
      → IsLinked none c
        × (w'.seen_ids ≡ w.seen_ids)
        × (w'.expires_at ≡ w.expires_at)
        × (w'.previous ≡ some c)
  unfolding check_root
  check_root_sound w w' c h = ground arith

  check_child_sound :
      (w w' : Walk) (parent c : Credential)
      → check_child deps w parent c ≡ done w'
      → IsLinked (some parent) c
        × (w'.seen_ids ≡ w.seen_ids)
        × (w'.expires_at ≡ w.expires_at)
        × (w'.previous ≡ some c)
  unfolding check_child
  check_child_sound w w' parent c h = ground (
    arith,
    ==_iff c.parent_id (some parent.id),
    ==_iff c.issuer_did parent.subject_did,
    ==_iff (credential_issuer_did c.issuer) (some parent.subject_did),
  )

  check_link_sound :
      (w w' : Walk) (c : Credential)
      → check_link deps w c ≡ done w'
      → IsLinked w.previous c
        × (w'.seen_ids ≡ w.seen_ids)
        × (w'.expires_at ≡ w.expires_at)
        × (w'.previous ≡ some c)
  unfolding check_link
  check_link_sound w w' c = go w.previous
    where
      go :
          (previous : Option Credential)
          → elim previous [ none ↦ check_root deps w c | some parent ↦ check_child deps w parent c ]
            ≡ done w'
          → IsLinked previous c
            × (w'.seen_ids ≡ w.seen_ids)
            × (w'.expires_at ≡ w.expires_at)
            × (w'.previous ≡ some c)
      go none h = check_root_sound w w' c h
      go (some parent) h = check_child_sound w w' parent c h

  abbrev entered : Walk → Credential → Walk
  entered w c = record w {
    seen_ids = w.seen_ids ++ c.id ∷ [];
    expires_at = tighten deps w.expires_at c;
  }

  check_credential_parts :
      (skip : Bool) (w w' : Walk) (c : Credential)
      → check_credential deps skip w c ≡ done w'
      → IsSound skip c
        × (includes c.id w.seen_ids ≡ false)
        × (check_link deps (entered w c) c ≡ done w')
  unfolding check_credential
  check_credential_parts skip w w' c h = ground arith

  check_credential-IsSound :
      (skip : Bool) (w w' : Walk) (c : Credential)
      → check_credential deps skip w c ≡ done w'
      → IsSound skip c
        × IsLinked w.previous c
        × (includes c.id w.seen_ids ≡ false)
        × (w'.seen_ids ≡ w.seen_ids ++ c.id ∷ [])
        × (w'.expires_at ≡ tighten deps w.expires_at c)
        × (w'.previous ≡ some c)
  check_credential-IsSound skip w w' c h =
      let (sound, fresh, linked) = check_credential_parts skip w w' c h in
      let (link, ids, expires, previous) = check_link_sound (entered w c) w' c linked in
      (sound, link, fresh, ids, expires, previous)

  -- The chain from `previous` on, root side first: every credential is sound and linked to the one
  -- before it, no id repeats one of `seen`, and only the leaf may skip its signature.
  abbrev pub IsChain : Bool → Option Credential → List String → List Presented → Credential → Type 0
  IsChain skip previous seen [] leaf =
      IsSound skip leaf × IsLinked previous leaf × (includes leaf.id seen ≡ false)
  IsChain skip previous seen (none ∷ ancestors) leaf = ⊥
  IsChain skip previous seen (some c ∷ ancestors) leaf =
      IsSound false c
      × IsLinked previous c
      × (includes c.id seen ≡ false)
      × IsChain skip (some c) (seen ++ c.id ∷ []) ancestors leaf

  -- The expiry after the chain.
  abbrev pub chain_expiry : Option ℕ → List Presented → Credential → Option ℕ
  chain_expiry expires [] leaf = tighten deps expires leaf
  chain_expiry expires (none ∷ ancestors) leaf = chain_expiry expires ancestors leaf
  chain_expiry expires (some c ∷ ancestors) leaf =
      chain_expiry (tighten deps expires c) ancestors leaf

  pub check_chain_sound :
      (skip : Bool) (w w' : Walk) (ancestors : List Presented) (leaf : Credential)
      → check_chain deps skip w ancestors leaf ≡ done w'
      → IsChain skip w.previous w.seen_ids ancestors leaf
        × (w'.expires_at ≡ chain_expiry w.expires_at ancestors leaf)
  unfolding check_chain
  check_chain_sound skip w w' [] leaf h =
      let (sound, link, fresh, _, expires, _) = check_credential-IsSound skip w w' leaf h in
      ((sound, link, fresh), expires)
  check_chain_sound skip w w' (none ∷ ancestors) leaf h = absurd (cc)
  check_chain_sound skip w w' (some c ∷ ancestors) leaf h =
      let (v, first, later) = >>=-eq-done (check_credential deps false w c) _ h in
      let (sound, link, fresh, ids, expires, previous) =
        check_credential-IsSound false w v c first in
      let (rest, total) = check_chain_sound skip v w' ancestors leaf later in
      let chained =
        subst (λ p. IsChain skip p (w.seen_ids ++ c.id ∷ []) ancestors leaf) previous
          (subst (λ s. IsChain skip v.previous s ancestors leaf) ids rest) in
      ((sound, link, fresh, chained), total ∙ ap (λ e. chain_expiry e ancestors leaf) expires)
