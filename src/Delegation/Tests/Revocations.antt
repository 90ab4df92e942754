-- ===== src/Delegation/Tests/Revocations.antt =====
-- Revoking the root of a pair, with no status lists.
use kya_os_mcp.Common.{
  ◌≡◌, refl, ◌≢◌, inl, inr, true, false, List, [], ◌∷◌, none, some, All, ok, err, map, string_eq,
  ◌==◌, ==_iff, Bool-cases,
}
use kya_os_mcp.Delegation.Graph.Walk.{IsStore}
use kya_os_mcp.Common.Map.{get, set}
use kya_os_mcp.Delegation.Graph.{DelegationNode, Graph, get_chain, get_descendants, chain}
use kya_os_mcp.Delegation.Revocation.{
  StatusLists, World, RevocationEvent, revoke_delegation, is_revoked, clear,
}
use kya_os_mcp.Delegation.Revocation.Marks.{IsMarked}
use kya_os_mcp.Delegation.Revocation.Cascaded.{IsMarkedNode}
use kya_os_mcp.Delegation.Revocation.Cascade.{revoke_delegation-cascades}
use kya_os_mcp.Delegation.Revocation.Checks.{IsClear, is_revoked-clear, revoke_delegation-not_clear}
use kya_os_mcp.Delegation.Tests.Graphs.{own_id, root, below, pair, pair-IsStore}

-- Status lists that hold nothing and throw nothing.
abbrev no_lists : StatusLists Unit Unit
no_lists = record {
  update_status = λ status revoked s. (s, none);
  check_status = λ status s. ok false;
}

abbrev world : World Unit
world = record { graph = pair; lists = tt }

abbrev events : List RevocationEvent
events =
    record { delegation_id = "a"; is_root = true; parent_id = none; reason = some "r" }
    ∷ record {
      delegation_id = "b";
      is_root = false;
      parent_id = some "a";
      reason = some "Cascaded from a";
    }
    ∷ []

revoke_delegation-cascades_example :
    IsMarked (revoke_delegation no_lists "a" (some "r") none false world).0.graph "a"
    × (node : DelegationNode) × (nodes : List DelegationNode) × (get "a" pair ≡ some node)
    × (get_descendants "a" (set "a" (record node { revoked = true }) pair) ≡ some nodes)
    × All (IsMarkedNode (revoke_delegation no_lists "a" (some "r") none false world).0.graph) nodes
    × (map (λ e. e.delegation_id) events ≡ "a" ∷ map (λ n. n.id) nodes)
unfolding get get_descendants set revoke_delegation
revoke_delegation-cascades_example =
    revoke_delegation-cascades no_lists "a" (some "r") none world events pair-IsStore refl

revoke_delegation-not_clear_example :
    is_revoked no_lists "a" (revoke_delegation no_lists "a" (some "r") none false world).0
    ≢ ok clear
unfolding get get_descendants set revoke_delegation
revoke_delegation-not_clear_example =
    revoke_delegation-not_clear no_lists "a" (some "r") none world events pair-IsStore (λ e. cc)
      refl

is_revoked-clear_example :
    (ns : List DelegationNode) × ((get_chain "b" world.graph ≡ chain ns)
      × All (IsClear no_lists tt) ns)
unfolding get is_revoked kya_os_mcp.Delegation.StatusEntry.node_status_entry
is_revoked-clear_example = is_revoked-clear no_lists "b" world refl

-- Status lists that always throw.
abbrev broken : StatusLists Unit Unit
broken = record {
  update_status = λ status revoked s. (s, some tt);
  check_status = λ status s. err tt;
}

abbrev with_entry : DelegationNode
with_entry = record below { credential_status_id = some "https://l#3" }

abbrev marked_root : DelegationNode
marked_root = record root { revoked = true }

abbrev marked : World Unit
marked = record { graph = ("a", marked_root) ∷ []; lists = tt }

marked-IsStore : IsStore marked.graph
unfolding get
marked-IsStore id n there = elim (Bool-cases ("a" == id)) [
  | inl a ↦ own_id n marked_root id ((==_iff "a" id).0 a) (rw (a, get) at there)
  | inr not_a ↦ absurd (let bad = rw (not_a, get) at there in cc)
]

-- The marked root gets a child.
abbrev with_child : Graph
with_child = ("a", record marked_root { children = "b" ∷ [] }) ∷ ("b", below) ∷ []

abbrev bare_root : World Unit
bare_root = record { graph = ("a", record marked_root { children = [] }) ∷ []; lists = tt }
