-- ===== src/Policy/Approval.antt =====
-- `verifyApprovalQuorum` of src/policy/approval.ts. The signature check is a parameter; where it
-- rejects (`none`), so does the call.
pub mod Soundness
use kya_os_mcp.Common.{
  ℕ, Bool, true, false, ◌&&◌, ◌||◌, not, List, [], ◌∷◌, Option, none, some, String, string_eq, leb,
  if◌then◌else◌, includes, add_item, length,
}

pub data ApprovalDecision : Type 0 where
  approve deny : ApprovalDecision

pub record ApprovalGrant : Type 0 where
  pub approval_request_id : String
  pub approver_did : String
  pub request_hash : String
  pub decision : ApprovalDecision
  pub ts : ℕ
  pub signature : String

pub record Quorum : Type 0 where
  pub n : ℕ
  pub approvers : List String

-- Why a quorum is not satisfied.
pub data QuorumReason : Type 0 where
  invalid_quorum : QuorumReason
  quorum_not_met : ℕ → ℕ → QuorumReason

pub record QuorumResult : Type 0 where
  pub satisfied : Bool
  pub reason : Option QuorumReason
  pub approvers : List String

abbrev pub is_approve : ApprovalDecision → Bool
is_approve approve = true
is_approve deny = false

abbrev pub is_empty : List String → Bool
is_empty [] = true
is_empty (d ∷ ds) = false

-- An empty list of approvers allows anyone.
abbrev pub is_allowed : List String → String → Bool
is_allowed allowed did = is_empty allowed || includes did allowed

-- The tests ahead of the signature's.
unfoldable pub is_eligible : List String → Quorum → ApprovalGrant → Bool
is_eligible hashes quorum g =
    is_approve g.decision
    && (includes g.request_hash hashes && is_allowed quorum.approvers g.approver_did)

module _ (is_valid_signature : ApprovalGrant → Option Bool) where
  -- The loop over the grants.
  unfoldable pub collect :
      List String → Quorum → List ApprovalGrant → List String → Option (List String)
  unfolding is_eligible
  collect hashes quorum [] approvers = some approvers
  collect hashes quorum (g ∷ grants) approvers =
      let skipped = collect hashes quorum grants approvers in
      let added = collect hashes quorum grants (add_item g.approver_did approvers) in
      if is_eligible hashes quorum g
      then elim (is_valid_signature g) [
        | none ↦ none
        | some valid ↦ if valid then added else skipped
      ]
      else skipped

  unfoldable pub conclude : Quorum → List String → QuorumResult
  conclude quorum approvers = record {
    satisfied = leb quorum.n (length approvers);
    reason =
        if leb quorum.n (length approvers)
        then none
        else some (quorum_not_met (length approvers) quorum.n);
    approvers = approvers;
  }

  unfoldable pub verify_approval_quorum :
      List ApprovalGrant → List String → Quorum → Option QuorumResult
  unfolding collect conclude
  verify_approval_quorum grants hashes quorum =
      if leb quorum.n 0
      then some (record { satisfied = false; reason = some invalid_quorum; approvers = [] })
      else elim (collect hashes quorum grants []) [
        | none ↦ none
        | some approvers ↦ some (conclude quorum approvers)
      ]
