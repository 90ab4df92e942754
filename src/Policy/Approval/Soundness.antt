-- ===== src/Policy/Approval/Soundness.antt =====
-- A satisfied quorum has enough distinct approvers, each with a valid grant.
use kya_os_mcp.Common.{
  ◌≤◌, ◌<◌, ◌≡◌, refl, sym, ap, ◌∙◌, inl, inr, Bool, true, false, List, [], ◌∷◌, ◌++◌, Option, some,
  String, string_eq, arith, ==_iff, Bool-cases, Option-cases, All, All-append, Any, Any-map,
  includes, includes-append, add_item, length, leb,
}
use mathlib.Core.Path.{subst}
use kya_os_mcp.Policy.Approval.{
  ApprovalGrant, ApprovalDecision, approve, deny, Quorum, QuorumResult, is_allowed, is_eligible,
  collect, conclude, verify_approval_quorum,
}

-- No item is there twice.
abbrev pub IsDistinct : List String → Type 0
IsDistinct [] = Unit
IsDistinct (x ∷ xs) = (includes x xs ≡ false) × IsDistinct xs

pub add_last-IsDistinct :
    (a : String) (xs : List String)
    → includes a xs ≡ false
    → IsDistinct xs
    → IsDistinct (xs ++ a ∷ [])
add_last-IsDistinct a [] h d = (refl, tt)
add_last-IsDistinct a (x ∷ xs) h (fresh, d) = (
  includes-append x xs (a ∷ []) ∙ ground (arith, ==_iff a x, ==_iff x a),
  add_last-IsDistinct a xs (ground arith) d,
)

module _ (is_valid_signature : ApprovalGrant → Option Bool) (hashes : List String)
    (quorum : Quorum) where
  -- The grant counts: an approval over one of the hashes, by an allowed approver, validly signed.
  abbrev pub Counts : ApprovalGrant → Type 0
  Counts g =
      (g.decision ≡ approve)
      × (includes g.request_hash hashes ≡ true)
      × (is_allowed quorum.approvers g.approver_did ≡ true)
      × (is_valid_signature g ≡ some true)

  -- A grant of the approver that counts.
  abbrev pub HasGrant : List ApprovalGrant → String → Type 0
  HasGrant grants did = Any (λ g. (g.approver_did ≡ did) × Counts g) grants

  record IsCollected (grants : List ApprovalGrant) (approvers : List String) : Type 0 where
    distinct : IsDistinct approvers
    granted : All (HasGrant grants) approvers

  eligible-Counts :
      (g : ApprovalGrant)
      → is_eligible hashes quorum g ≡ true
      → is_valid_signature g ≡ some true
      → Counts g
  unfolding is_eligible
  eligible-Counts g h signed = by_decision g.decision refl
    where
      by_decision : (d : ApprovalDecision) → g.decision ≡ d → Counts g
      by_decision approve e = (e, ground arith, ground arith, signed)
      by_decision deny e = absurd (let bad = rw (e, is_eligible) at h in cc)

  add_item-IsCollected :
      (all : List ApprovalGrant) (did : String) (approvers : List String)
      → HasGrant all did
      → IsCollected all approvers
      → IsCollected all (add_item did approvers)
  add_item-IsCollected all did approvers h c = elim (Bool-cases (includes did approvers)) [
    | inl there ↦ rw there c
    | inr new ↦ rw new (record {
      distinct = add_last-IsDistinct did approvers new c.distinct;
      granted = All-append (HasGrant all) approvers (did ∷ []) c.granted (h, tt);
    })
  ]

  collect-IsCollected :
      (all grants : List ApprovalGrant) (approvers found : List String)
      → ((g : ApprovalGrant) → Any (λ x. x ≡ g) grants → Any (λ x. x ≡ g) all)
      → IsCollected all approvers
      → collect is_valid_signature hashes quorum grants approvers ≡ some found
      → IsCollected all found
  unfolding collect
  collect-IsCollected all [] approvers found sub c h = subst (IsCollected all) (cc) c
  collect-IsCollected all (g ∷ grants) approvers found sub c h =
      elim (Bool-cases (is_eligible hashes quorum g)) [
        | inr skip ↦
            collect-IsCollected all grants approvers found (λ x a. sub x (inr a)) c
              (rw (skip, collect) at h)
        | inl eligible ↦ elim (Option-cases (is_valid_signature g)) [
          | inl rejected ↦ absurd (let bad = rw (eligible, rejected, collect) at h in cc)
          | inr (valid, checked) ↦ elim (Bool-cases valid) [
            | inr invalid ↦
                let e = checked ∙ ap some invalid in
                collect-IsCollected all grants approvers found (λ x a. sub x (inr a)) c
                  (rw (eligible, e, collect) at h)
            | inl signed ↦
                let e = checked ∙ ap some signed in
                let counts = eligible-Counts g eligible e in
                let own : HasGrant all g.approver_did =
                  Any-map all
                    (λ x same. (ap (λ y. y.approver_did) same, subst Counts (sym same) counts))
                    (sub g (inl refl)) in
                collect-IsCollected all grants (add_item g.approver_did approvers) found
                  (λ x a. sub x (inr a)) (add_item-IsCollected all g.approver_did approvers own c)
                  (rw (eligible, e, collect) at h)
          ]
        ]
      ]

  -- A satisfied quorum names at least as many approvers as it asks for, and at least one, each of
  -- them once and each with a grant that counts.
  pub verify_approval_quorum_sound :
      (grants : List ApprovalGrant) (r : QuorumResult)
      → verify_approval_quorum is_valid_signature grants hashes quorum ≡ some r
      → r.satisfied ≡ true
      → (0 < quorum.n)
        × (quorum.n ≤ length r.approvers)
        × IsDistinct r.approvers
        × All (HasGrant grants) r.approvers
  unfolding verify_approval_quorum conclude
  verify_approval_quorum_sound grants r h s = elim (Bool-cases (leb quorum.n 0)) [
    | inl bad_quorum ↦ let e = rw (bad_quorum, verify_approval_quorum) at h in absurd (cc)
    | inr positive ↦ elim (Option-cases (collect is_valid_signature hashes quorum grants [])) [
      | inl rejected ↦ absurd (let bad = rw (positive, rejected, verify_approval_quorum) at h in cc)
      | inr (found, collected) ↦
          let e = rw (positive, collected, verify_approval_quorum) at h in
          let same : conclude is_valid_signature quorum found ≡ r = cc in
          let c =
            collect-IsCollected grants grants [] found (λ g a. a)
              (record { distinct = tt; granted = tt }) collected in
          let approvers : found ≡ r.approvers = ap (λ x. x.approvers) same in
          let enough : leb quorum.n (length found) ≡ true = ap (λ x. x.satisfied) same ∙ s in
          (
            ground arith,
            subst (λ l. quorum.n ≤ length l) approvers (ground arith),
            subst IsDistinct approvers c.distinct,
            subst (All (HasGrant grants)) approvers c.granted,
          )
    ]
  ]
