-- ===== src/Stores/Tests.antt =====
-- Concrete stores, and the theorems of the store modules at them.
use kya_os_mcp.Common.{
  ℕ, ◌≤◌, ◌≡◌, refl, ◌≢◌, List, [], ◌∷◌, Option, none, some, String, arith, if◌then◌else◌, ◌==◌,
  string_eq, leb, All, max,
}
use kya_os_mcp.Common.Map.{get}
use kya_os_mcp.Stores.SessionStore.{SessionStore, set_session, delete_session}
use kya_os_mcp.Stores.SessionStore.Reused.{reused-evicted}
use kya_os_mcp.Stores.TtlCache.Reads.{write-keeps_empty}
use kya_os_mcp.Stores.TtlCache.{TtlCache, write}
use kya_os_mcp.Stores.TtlCache.Bounds.{IsCache}
use kya_os_mcp.Stores.PendingFlow.{PendingFlow, FlowStore}

abbrev sessions : SessionStore ℕ
sessions = record {
  sessions = ("a", 1) ∷ ("c", 2) ∷ [];
  insertion_order = "a" ∷ "c" ∷ [];
  max_sessions = 2;
}

abbrev roomy : SessionStore ℕ
roomy = record sessions { max_sessions = 3 }

reused-evicted_example :
    get "a" (set_session "b" 9 (set_session "a" 3 (delete_session "a" sessions))).sessions ≡ none
unfolding get delete_session kya_os_mcp.Common.Map.delete kya_os_mcp.Common.Map.has
    kya_os_mcp.Common.Map.set set_session
reused-evicted_example = reused-evicted "a" "b" 1 3 9 ("c" ∷ []) sessions refl refl refl refl refl

abbrev cache : TtlCache ℕ
cache = record { entries = []; insertion_order = []; ttl_ms = 10; max_entries = 1 }

empty-IsCache : IsCache cache
unfolding get
empty-IsCache = record { is_map = tt; named = refl; ordered = refl; bounded = omega arith }

abbrev with_empty : TtlCache ℕ
with_empty = record cache {
  entries = ("", record { value = 1; expires_at = 10 }) ∷ [];
  insertion_order = "" ∷ [];
}

write-keeps_empty_example : get "" (write 0 "k" 7 with_empty).entries ≡ get "" with_empty.entries
write-keeps_empty_example = write-keeps_empty 0 "k" 7 with_empty (λ e. cc)

abbrev flow : PendingFlow
flow = record {
  agent_did = "did:a";
  scopes = [];
  state = "s";
  code_verifier = "v";
  redirect_uri = "u";
}

abbrev flows : FlowStore
flows = record {
  pending = ("t", record { flow = flow; expires_at = 10 }) ∷ [];
  writes_since_sweep = 999;
  last_sweep_at = 0;
}
