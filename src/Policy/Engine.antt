-- ===== src/Policy/Engine.antt =====
-- `DefaultPolicyEngine` of src/policy/default-engine.ts, over the context of src/policy/types.ts
-- that it reads.
pub mod Decisions
use kya_os_mcp.Common.{
  ℕ, Bool, true, false, ◌&&◌, ◌||◌, not, List, [], ◌∷◌, Option, none, some, String, string_eq, leb,
  if◌then◌else◌, add_item, length, keep_if,
}
use kya_os_mcp.Policy.Approval.{Quorum, is_allowed}

pub data Reversibility : Type 0 where
  reversible reversible_with_effort irreversible unknown_reversibility : Reversibility

pub data Severity : Type 0 where
  no_severity low medium high catastrophic unknown_severity : Severity

pub record PolicyContext : Type 0 where
  pub scope_matched : Bool
  pub human_approvals : List String
  pub reversibility : Reversibility
  pub severity : Severity

pub data DenyReason : Type 0 where
  scope_not_matched unclassified_high_risk : DenyReason

pub data PolicyDecision : Type 0 where
  allow : PolicyDecision
  deny : DenyReason → PolicyDecision
  step_up : Quorum → PolicyDecision

pub record DefaultPolicyConfig : Type 0 where
  pub step_up_quorum : Option ℕ
  pub step_up_approvers : Option (List String)

-- `severity === 'unknown' || reversibility === 'unknown'`
unfoldable pub is_unclassified : Severity → Reversibility → Bool
is_unclassified unknown_severity r = true
is_unclassified s unknown_reversibility = true
is_unclassified s r = false

unfoldable pub is_dangerous : Severity → Reversibility → Bool
is_dangerous s irreversible = true
is_dangerous catastrophic r = true
is_dangerous high r = true
is_dangerous s r = false

-- The set of the items.
unfoldable pub distinct : List String → List String → List String
distinct seen [] = seen
distinct seen (d ∷ ds) = distinct (add_item d seen) ds

abbrev pub quorum_size : Option ℕ → ℕ
quorum_size none = 1
quorum_size (some n) = n

abbrev pub allow_list : Option (List String) → List String
allow_list none = []
allow_list (some dids) = dids

unfoldable pub approvers_of : DefaultPolicyConfig → List String → List String
unfolding distinct
approvers_of cfg approvals =
    distinct [] (keep_if (λ did. is_allowed (allow_list cfg.step_up_approvers) did) approvals)

unfoldable pub evaluate : DefaultPolicyConfig → PolicyContext → PolicyDecision
unfolding is_unclassified is_dangerous approvers_of
evaluate cfg context =
    if not context.scope_matched
    then deny scope_not_matched
    else if is_unclassified context.severity context.reversibility
    then deny unclassified_high_risk
    else if is_dangerous context.severity context.reversibility
    then (if leb (quorum_size cfg.step_up_quorum)
          (length (approvers_of cfg context.human_approvals))
        then allow
        else step_up (record {
          n = quorum_size cfg.step_up_quorum;
          approvers = allow_list cfg.step_up_approvers;
        }))
    else allow
