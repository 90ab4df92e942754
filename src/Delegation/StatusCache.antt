-- ===== src/Delegation/StatusCache.antt =====
-- `withStatusCache` of src/delegation/status-cache.ts over the TTL cache. The resolver, which may throw,
-- is a parameter that is asked at a time.
pub mod Staleness
mod Tests
use Prim.Native.String.{◌++◌}
use kya_os_mcp.Common.{ℕ, Bool, [], Option, none, some, String}
use kya_os_mcp.Stores.TtlCache.{TtlCache, read, write}
use kya_os_mcp.Delegation.Graph.{CredentialStatus}

abbrev pub StatusListResolver : Type 0
StatusListResolver = ℕ → CredentialStatus → Option Bool

-- The clock as the read of the cache, the resolver and the write of the cache take it.
pub record Times : Type 0 where
  pub read_at : ℕ
  pub asked_at : ℕ
  pub written_at : ℕ

abbrev or_1000 : Option ℕ → ℕ
or_1000 none = 1000
or_1000 (some n) = n

unfoldable pub with_status_cache : ℕ → Option ℕ → TtlCache Bool
with_status_cache max_staleness_ms max_entries = record {
  entries = [];
  insertion_order = [];
  ttl_ms = max_staleness_ms;
  max_entries = or_1000 max_entries;
}

unfoldable pub status_key : CredentialStatus → String
status_key status =
    status.status_list_credential
    ++ ("\0" ++ (status.status_list_index ++ ("\0" ++ status.status_purpose)))

module _ (resolver : StatusListResolver) where
  -- `none` where the resolver throws: nothing is stored.
  abbrev pub resolved : ℕ → String → TtlCache Bool → Option Bool → Option Bool × TtlCache Bool
  resolved now key c none = (none, c)
  resolved now key c (some revoked) = (some revoked, write now key revoked c)

  abbrev pub after_read :
      Times → CredentialStatus → TtlCache Bool × Option Bool → Option Bool × TtlCache Bool
  after_read times status (c, some hit) = (some hit, c)
  after_read times status (c, none) =
      resolved times.written_at (status_key status) c (resolver times.asked_at status)

  unfoldable pub check_status :
      Times → CredentialStatus → TtlCache Bool → Option Bool × TtlCache Bool
  unfolding read write status_key
  check_status times status c = after_read times status (read times.read_at (status_key status) c)
