-- ===== src/Delegation/StatusCache/Tests.antt =====
-- A status that is revoked at 50, asked about at 10 and at 60 with a staleness of 100.
use kya_os_mcp.Common.{
  Any, ℕ, ◌≤◌, ◌+◌, ◌≡◌, refl, false, [], ◌∷◌, none, some, arith, leb, string_eq,
}
use kya_os_mcp.Common.Map.{get, set, has}
use kya_os_mcp.Stores.TtlCache.{read, write, evict_loop}
use kya_os_mcp.Delegation.Graph.{CredentialStatus}
use kya_os_mcp.Delegation.StatusCache.{
  StatusListResolver, Times, with_status_cache, status_key, check_status,
}
use kya_os_mcp.Delegation.StatusCache.Staleness.{check_statuses, status_staleness}

abbrev resolver : StatusListResolver
resolver now status = some (leb 50 now)

abbrev at_time : ℕ → Times
at_time now = record { read_at = now; asked_at = now; written_at = now }

abbrev status : CredentialStatus
status = record {
  id = none;
  entry_type = "BitstringStatusListEntry";
  status_purpose = "revocation";
  status_list_index = "3";
  status_list_credential = "https://l";
  other_members = [];
}

served_stale :
    (check_status resolver
      (at_time 60)
      status
      (check_statuses resolver ((at_time 10, status) ∷ []) (with_status_cache 100 none))).0
    ≡ some false
unfolding check_status check_statuses with_status_cache read write evict_loop has get set status_key
served_stale = refl

status_staleness_example :
    (call : Times × CredentialStatus) × Any
      (λ made. made ≡ call)
      ((at_time 60, status) ∷ (at_time 10, status) ∷ [])
    × (status_key call.1 ≡ status_key status)
    × (resolver call.0.asked_at call.1 ≡ some false)
    × (60 ≤ call.0.written_at + 100)
status_staleness_example =
    status_staleness resolver 100 none ((at_time 10, status) ∷ []) (at_time 60) status false
      ((omega arith, omega arith), tt) (omega arith, omega arith) served_stale
