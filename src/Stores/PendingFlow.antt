-- ===== src/Stores/PendingFlow.antt =====
-- `MemoryPendingFlowStore` of src/authz/oidc/pending-flow-store.ts.
pub mod Once
use kya_os_mcp.Common.{
  ℕ, ◌+◌, ◌-◌, ◌||◌, List, [], Option, some, none, String, string_eq, leb, ltb, if◌then◌else◌,
}
use kya_os_mcp.Common.Map.{Map, get, set, delete, filter_values}

pub record PendingFlow : Type 0 where
  pub agent_did : String
  pub scopes : List String
  pub state : String
  pub code_verifier : String
  pub redirect_uri : String

pub record Pending : Type 0 where
  pub flow : PendingFlow
  pub expires_at : ℕ

pub record FlowStore : Type 0 where
  pub pending : Map String Pending
  pub writes_since_sweep : ℕ
  pub last_sweep_at : ℕ

abbrev pub sweep_every : ℕ
sweep_every = 1000

abbrev pub sweep_interval_ms : ℕ
sweep_interval_ms = 60000

unfoldable pub new_store : ℕ → FlowStore
new_store now = record { pending = []; writes_since_sweep = 0; last_sweep_at = now }

unfoldable pub evict_expired : ℕ → Map String Pending → Map String Pending
evict_expired now m = filter_values (λ p. ltb now p.expires_at) m

unfoldable pub put : ℕ → String → PendingFlow → ℕ → FlowStore → FlowStore
unfolding evict_expired
put now token flow ttl_ms s =
    let pending = set token (record { flow = flow; expires_at = now + ttl_ms }) s.pending in
    if leb sweep_every (s.writes_since_sweep + 1) || leb sweep_interval_ms (now - s.last_sweep_at)
    then record { pending = evict_expired now pending; writes_since_sweep = 0; last_sweep_at = now }
    else record s { pending = pending; writes_since_sweep = s.writes_since_sweep + 1 }

unfoldable pub get_flow : ℕ → String → FlowStore → FlowStore × Option PendingFlow
get_flow now token s = elim (get token s.pending) [
  | none ↦ (s, none)
  | some entry ↦
      if leb entry.expires_at now
      then (record s { pending = delete token s.pending }, none)
      else (s, some entry.flow)
]

unfoldable pub consume : ℕ → String → FlowStore → FlowStore × Option PendingFlow
consume now token s = elim (get token s.pending) [
  | none ↦ (s, none)
  | some entry ↦ (
    record s { pending = delete token s.pending },
    if leb entry.expires_at now then none else some entry.flow,
  )
]

unfoldable pub delete_flow : String → FlowStore → FlowStore
delete_flow token s = record s { pending = delete token s.pending }

unfoldable pub cleanup : ℕ → FlowStore → FlowStore
cleanup now s = record s { pending = evict_expired now s.pending }
