-- ===== src/Policy/Tests.antt =====
-- A quorum of two and a dangerous action.
use kya_os_mcp.Common.{
  ◌≤◌, ◌<◌, ◌≡◌, refl, ◌⊎◌, Bool, true, false, List, [], ◌∷◌, Option, none, some, String, string_eq,
  All, length,
}
use kya_os_mcp.Policy.Approval.{
  ApprovalGrant, approve, deny, Quorum, QuorumResult, verify_approval_quorum,
}
use kya_os_mcp.Policy.Approval.Soundness.{IsDistinct, HasGrant, verify_approval_quorum_sound}
use kya_os_mcp.Policy.Engine.{
  irreversible, high, PolicyContext, DefaultPolicyConfig, quorum_size, evaluate,
}
use kya_os_mcp.Policy.Engine.Decisions.{IsClassified, IsSafe, IsApproved, evaluate-allow}

abbrev grant : String → ApprovalGrant
grant did = record {
  approval_request_id = "r";
  approver_did = did;
  request_hash = "h";
  decision = approve;
  ts = 0;
  signature = "s";
}

-- The same approver twice, and another.
abbrev grants : List ApprovalGrant
grants = grant "did:a" ∷ grant "did:a" ∷ grant "did:b" ∷ []

abbrev all_signed : ApprovalGrant → Option Bool
all_signed g = some true

abbrev two : Quorum
two = record { n = 2; approvers = [] }

abbrev result : QuorumResult
result = record { satisfied = true; reason = none; approvers = "did:a" ∷ "did:b" ∷ [] }

-- One approver twice is one approver.
one_is_not_two :
    verify_approval_quorum all_signed (grant "did:a" ∷ grant "did:a" ∷ []) ("h" ∷ []) two
    ≡ some (record {
      satisfied = false;
      reason = some (kya_os_mcp.Policy.Approval.quorum_not_met 1 2);
      approvers = "did:a" ∷ [];
    })
unfolding verify_approval_quorum
one_is_not_two = refl

verify_approval_quorum_sound_example :
    (0 < 2)
    × (2 ≤ length result.approvers)
    × IsDistinct result.approvers
    × All (HasGrant all_signed ("h" ∷ []) two grants) result.approvers
unfolding verify_approval_quorum
verify_approval_quorum_sound_example =
    verify_approval_quorum_sound all_signed ("h" ∷ []) two grants result refl refl

abbrev cfg : DefaultPolicyConfig
cfg = record { step_up_quorum = some 2; step_up_approvers = none }

abbrev context : PolicyContext
context = record {
  scope_matched = true;
  human_approvals = "did:a" ∷ "did:a" ∷ "did:b" ∷ [];
  reversibility = irreversible;
  severity = high;
}

evaluate-allow_example :
    (context.scope_matched ≡ true)
    × IsClassified context
    × (IsSafe context
        ⊎ ((dids : List String) × (IsApproved cfg context.human_approvals dids
              × (quorum_size cfg.step_up_quorum ≤ length dids))))
unfolding evaluate
evaluate-allow_example = evaluate-allow cfg context refl
