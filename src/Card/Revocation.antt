-- ===== src/Card/Revocation.antt =====
-- `evaluateRevocationChain` of src/card/revocation.ts. The checker of one entry is a parameter that
-- answers, as its contract says: a failure is a revoked answer.
pub mod Walk
use kya_os_mcp.Common.{
  ℕ, zero, suc, ◌+◌, Bool, true, false, ◌&&◌, List, [], ◌∷◌, Option, none, some, String,
  if◌then◌else◌,
}

pub record BitstringStatusListEntry : Type 0 where
  pub status_list_credential : String
  pub status_list_index : String

pub record RevocationStatus : Type 0 where
  pub revoked : Bool
  pub fresh : Bool

-- Each entry is asked about in turn; the answer may depend on the calls before it.
abbrev pub BitstringRevocationChecker : Type 0
BitstringRevocationChecker = ℕ → BitstringStatusListEntry → RevocationStatus

-- `reasons` is the hop at which the walk stopped.
pub record RevocationChainResult : Type 0 where
  pub ok : Bool
  pub fresh : Bool
  pub reasons : List ℕ

-- The loop, at its hop.
unfoldable pub check_hops :
    BitstringRevocationChecker → ℕ → Bool → List BitstringStatusListEntry → RevocationChainResult
check_hops check hop fresh [] = record { ok = true; fresh = fresh; reasons = [] }
check_hops check hop fresh (entry ∷ entries) =
    let status = check hop entry in
    let rest = check_hops check (suc hop) (fresh && status.fresh) entries in
    if status.revoked then record { ok = false; fresh = false; reasons = hop ∷ [] } else rest

abbrev is_some : List BitstringStatusListEntry → Bool
is_some [] = false
is_some (e ∷ es) = true

unfoldable pub evaluate_revocation_chain :
    List BitstringStatusListEntry → BitstringRevocationChecker → RevocationChainResult
unfolding check_hops
evaluate_revocation_chain entries check = check_hops check 0 (is_some entries) entries
