-- ===== src/Stores/GrantStore.antt =====
-- `MemoryGrantStore` of src/providers/grant-store.ts. A grant's authorization method is
-- carried along unread, and left out.
pub mod Reads
use kya_os_mcp.Common.{
  ℕ, Bool, true, false, ◌&&◌, not, List, [], ◌∷◌, Option, some, none, String, ◌==◌, string_eq,
  option_eq, list_eq, nat_eq, leb, includes, keep_if, all, if◌then◌else◌,
}
use kya_os_mcp.Text.{Text}
use kya_os_mcp.Delegation.Credential.{Credential}
use kya_os_mcp.Common.Map.{Map, get, set, filter_values, values}

pub data GrantStatus : Type 0 where
  active expired revoked : GrantStatus

pub record Grant : Type 0 where
  pub id : String
  pub agent_did : String
  pub user_did : Option String
  pub scopes : List Text
  pub session_id : Option String
  pub credential_jwt : Option String
  pub delegation_credential : Option Credential
  pub issued_at : ℕ
  pub expires_at : Option ℕ
  pub status : GrantStatus
  pub revocation_reason : Option String

abbrev pub Grants : Type 0
Grants = Map String Grant

unfoldable pub bind : Grant → Grants → Grants
bind grant grants = set grant.id grant grants

abbrev pub is_marked_active : GrantStatus → Bool
is_marked_active active = true
is_marked_active _ = false

abbrev pub is_past : ℕ → Option ℕ → Bool
is_past now none = false
is_past now (some expiry) = leb expiry now

-- The two tests of `activeGrants`.
unfoldable pub is_active : ℕ → Grant → Bool
is_active now grant = is_marked_active grant.status && not (is_past now grant.expires_at)

unfoldable pub active_grants : ℕ → Grants → List Grant
unfolding is_active
active_grants now grants = keep_if (is_active now) (values grants)

unfoldable pub covers_scopes : List Text → Grant → Bool
covers_scopes required grant = all (λ s. includes s grant.scopes) required

unfoldable pub get_by_agent : ℕ → String → List Text → Grants → List Grant
unfolding active_grants covers_scopes
get_by_agent now agent required grants =
    keep_if (λ g. g.agent_did == agent && covers_scopes required g) (active_grants now grants)

unfoldable pub get_by_session : ℕ → String → List Text → Grants → List Grant
unfolding active_grants covers_scopes
get_by_session now session required grants =
    keep_if (λ g. g.session_id == some session && covers_scopes required g)
      (active_grants now grants)

abbrev pub get_by_id : String → Grants → Option Grant
get_by_id id grants = get id grants

abbrev pub with_reason : Option String → Grant → Grant
with_reason none grant = grant
with_reason (some reason) grant = record grant { revocation_reason = some reason }

unfoldable pub revoke : String → Option String → Grants → Grants
revoke id reason grants = elim (get id grants) [
  | none ↦ grants
  | some grant ↦ set id (with_reason reason (record grant { status = revoked })) grants
]

unfoldable pub cleanup : ℕ → Grants → Grants
cleanup now grants = filter_values (λ g. not (is_past now g.expires_at)) grants
