-- ===== src/Delegation/Graph.antt =====
-- src/delegation/delegation-graph.ts over src/delegation/storage/memory-graph-storage.ts, with
-- src/delegation/delegation-registration.ts: the graph of registered delegations. The graph is the
-- store's `nodes` map; a call that throws leaves it as it was.

pub mod Walk
pub mod Forest
pub mod Search
pub mod Found
use kya_os_mcp.Common.{
  ℕ, zero, suc, ◌+◌, ◌-◌, max, Bool, true, false, ◌&&◌, ◌||◌, not, List, [], ◌∷◌, ◌++◌, Option,
  none, some, String, ◌==◌, string_eq, option_eq, if◌then◌else◌, all, any, nat_eq, keep_if,
  includes, length, Result, ok, err,
}
use kya_os_mcp.Common.Map.{Map, get, set, delete, keys, values}
use kya_os_mcp.Delegation.Credential.{is_set}

-- The value of a further member: a primitive one by its JSON text, an object or array by its identity.
pub data Member : Type 0 where
  null : Member
  primitive : String → Member
  nested : ℕ → Member

-- `CredentialStatus`: the standard members, and any other by its key.
pub record CredentialStatus : Type 0 where
  pub id : Option String
  pub entry_type : String
  pub status_purpose : String
  pub status_list_index : String
  pub status_list_credential : String
  pub other_members : Map String Member

-- `DelegationNode`; an absent `revoked` reads as false.
pub record DelegationNode : Type 0 where
  pub id : String
  pub parent_id : Option String
  pub children : List String
  pub issuer_did : String
  pub subject_did : String
  pub credential_status_id : Option String
  pub credential_status : Option CredentialStatus
  pub revoked : Bool

abbrev pub Graph : Type 0
Graph = Map String DelegationNode

abbrev is_nullish : Option Member → Bool
is_nullish none = true
is_nullish (some null) = true
is_nullish (some _) = false

-- `(left[key] ?? undefined) === (right[key] ?? undefined)`
abbrev same_member : Option Member → Option Member → Bool
same_member (some (primitive a)) (some (primitive b)) = a == b
same_member (some (nested a)) (some (nested b)) = a == b
same_member a b = is_nullish a && is_nullish b

unfoldable pub same_members : Map String Member → Map String Member → Bool
unfolding get
same_members a b = all (λ key. same_member (get key a) (get key b)) (keys a ++ keys b)

unfoldable pub same_status_entry : Option CredentialStatus → Option CredentialStatus → Bool
unfolding same_members
same_status_entry none none = true
same_status_entry (some a) (some b) =
    a.id == b.id
    && (a.entry_type == b.entry_type
        && (a.status_purpose == b.status_purpose
            && (a.status_list_index == b.status_list_index
                && (a.status_list_credential == b.status_list_credential
                    && same_members a.other_members b.other_members))))
same_status_entry _ _ = false

-- The field on which a registration differs from the stored node.
pub data Conflict : Type 0 where
  parent_id issuer_did subject_did credential_status_id credential_status : Conflict

unfoldable pub registration_conflict : DelegationNode → DelegationNode → Option Conflict
unfolding same_status_entry
registration_conflict stored incoming =
    if not (stored.parent_id == incoming.parent_id)
    then some parent_id
    else if not (stored.issuer_did == incoming.issuer_did)
    then some issuer_did
    else if not (stored.subject_did == incoming.subject_did)
    then some subject_did
    else if not (stored.credential_status_id == incoming.credential_status_id)
    then some credential_status_id
    else if not (same_status_entry stored.credential_status incoming.credential_status)
    then some credential_status
    else none

pub data GraphError : Type 0 where
  own_parent not_found parent_not_found : String → GraphError
  already_registered : String → Conflict → GraphError
  parent_cycle : String → GraphError

-- `MemoryDelegationGraphStorage`

abbrev pub get_node : String → Graph → Option DelegationNode
get_node = get

abbrev pub set_node : DelegationNode → Graph → Graph
set_node node nodes = set node.id node nodes

abbrev pub delete_node : String → Graph → Graph
delete_node = delete

abbrev pub with_child : String → List String → List String
with_child child children = if includes child children then children else children ++ child ∷ []

unfoldable pub link_parent : Option DelegationNode → DelegationNode → Graph → Graph
link_parent none node nodes = set_node node nodes
link_parent (some parent) node nodes =
    set_node node (set_node (record parent { children = with_child node.id parent.children }) nodes)

-- A new id: its parent, if it names one, must be stored.
unfoldable pub insert_node : DelegationNode → Graph → Result GraphError Graph
insert_node node nodes = elim node.parent_id [
  | none ↦ ok (link_parent none node nodes)
  | some parent ↦ elim (get_node parent nodes) [
    | none ↦ err (parent_not_found parent)
    | some stored ↦ ok (link_parent (some stored) node nodes)
  ]
]

-- A stored id: the same registration changes nothing, another is refused.
unfoldable pub repeat_node : DelegationNode → DelegationNode → Graph → Result GraphError Graph
repeat_node stored node nodes = elim (registration_conflict stored node) [
  | none ↦ ok nodes
  | some conflict ↦ err (already_registered node.id conflict)
]

unfoldable pub register_node_atomic : DelegationNode → Graph → Result GraphError Graph
unfolding insert_node repeat_node
register_node_atomic node nodes =
    if node.parent_id == some node.id
    then err (own_parent node.id)
    else elim (get_node node.id nodes) [
      | some stored ↦ repeat_node stored node nodes
      | none ↦ insert_node node nodes
    ]

unfoldable pub stored_nodes : List String → Graph → List DelegationNode
stored_nodes [] nodes = []
stored_nodes (id ∷ ids) nodes =
    let rest = stored_nodes ids nodes in
    elim (get_node id nodes) [ none ↦ rest | some node ↦ node ∷ rest ]

unfoldable pub get_children : String → Graph → List DelegationNode
unfolding stored_nodes
get_children id nodes = elim (get_node id nodes) [
  | none ↦ []
  | some parent ↦ stored_nodes parent.children nodes
]

-- The walk of `getChainSync`: a chain, root first, a parent cycle, or no fuel left.
pub data WalkResult : Type 0 where
  chain : List DelegationNode → WalkResult
  cycle : String → WalkResult
  out_of_fuel : WalkResult

-- `while (currentId)`, one round for each unit of fuel
unfoldable pub walk_up : ℕ → Graph → List String → List DelegationNode → Option String → WalkResult
walk_up zero nodes visited found current = out_of_fuel
walk_up (suc fuel) nodes visited found none = chain found
walk_up (suc fuel) nodes visited found (some id) = elim (id == "") [
  | true ↦ chain found
  | false ↦ elim (includes id visited) [
    | true ↦ cycle id
    | false ↦ elim (get_node id nodes) [
      | none ↦ chain found
      | some node ↦ walk_up fuel nodes (id ∷ visited) (node ∷ found) node.parent_id
    ]
  ]
]

-- A round for each stored node, and one to stop.
unfoldable pub get_chain : String → Graph → WalkResult
unfolding walk_up
get_chain id nodes = walk_up (suc (length nodes)) nodes [] [] (some id)

abbrev pub unvisited : List String → List String → List String
unvisited visited ids = keep_if (λ id. not (includes id visited)) ids

-- The loop of `getDescendants`; `none` where the fuel runs out.
unfoldable pub descend :
    ℕ → Graph → List String → List String → List DelegationNode → Option (List DelegationNode)
descend zero nodes queue visited found = none
descend (suc fuel) nodes [] visited found = some found
descend (suc fuel) nodes (id ∷ queue) visited found = elim (includes id visited) [
  | true ↦ descend fuel nodes queue visited found
  | false ↦ elim (get_node id nodes) [
    | none ↦ descend fuel nodes queue (id ∷ visited) found
    | some node ↦
        descend fuel nodes (queue ++ unvisited (id ∷ visited) node.children) (id ∷ visited)
          (found ++ stored_nodes (unvisited (id ∷ visited) node.children) nodes)
  ]
]

-- The number of child links that the nodes store.
unfoldable pub links : Graph → ℕ
links [] = 0
links ((id, node) ∷ nodes) = length node.children + links nodes

unfoldable pub get_descendants : String → Graph → Option (List DelegationNode)
unfolding descend stored_nodes links
get_descendants id nodes = descend (suc (suc (links nodes))) nodes (id ∷ []) [] []

-- `DelegationGraphManager`

-- `addChildToParent`
unfoldable pub add_child_to_parent : String → String → Graph → Result GraphError Graph
add_child_to_parent parent child nodes = elim (get_node parent nodes) [
  | none ↦ err (parent_not_found parent)
  | some stored ↦ ok (
      if includes child stored.children
      then nodes
      else set_node (record stored { children = stored.children ++ child ∷ [] }) nodes)
]

-- The store without `registerNodeAtomic`: the node, then the parent's link, undone if that fails.
unfoldable pub register_in_steps : DelegationNode → Graph → Result GraphError Graph
unfolding add_child_to_parent
register_in_steps node nodes = elim (is_set node.parent_id) [
  | false ↦ ok (set_node node nodes)
  | true ↦ elim node.parent_id [
    | none ↦ ok (set_node node nodes)
    | some parent ↦ add_child_to_parent parent node.id (set_node node nodes)
  ]
]

-- A parent that is named must be stored.
unfoldable pub missing_parent : Option String → Graph → Option String
missing_parent none nodes = none
missing_parent (some parent) nodes =
    if parent == ""
    then none
    else elim (get_node parent nodes) [ none ↦ some parent | some _ ↦ none ]

-- `registerDelegation`: the graph, and the node that the call returns. `node` is built from the
-- call's parameters, with no children and not revoked.
unfoldable pub register_delegation : Bool → DelegationNode → Graph → Result GraphError Graph
unfolding register_node_atomic register_in_steps missing_parent
register_delegation atomic node nodes =
    if node.parent_id == some node.id
    then err (own_parent node.id)
    else elim (missing_parent node.parent_id nodes) [
      | some parent ↦ err (parent_not_found parent)
      | none ↦ elim (get_node node.id nodes) [
        | some stored ↦ repeat_node stored node nodes
        | none ↦ if atomic then register_node_atomic node nodes else register_in_steps node nodes
      ]
    ]

-- `setRevoked`: the graph, and whether the stored node carries the mark.
unfoldable pub set_revoked : String → Bool → Graph → Result GraphError (Graph × Bool)
set_revoked id revoked nodes = elim (get_node id nodes) [
  | none ↦ err (not_found id)
  | some node ↦
      let after = set_node (record node { revoked = revoked }) nodes in
      ok (
        after,
        elim (get_node id after) [
          | none ↦ not revoked
          | some n ↦ if n.revoked then revoked else not revoked
        ],
      )
]

unfoldable pub is_ancestor : String → String → Graph → Result GraphError Bool
unfolding get_chain
is_ancestor ancestor id nodes = elim (get_chain id nodes) [
  | chain found ↦ ok (any (λ n. n.id == ancestor) found)
  | cycle at ↦ err (parent_cycle at)
  | out_of_fuel ↦ err (parent_cycle id)
]

-- The verdict of `validateChain`.
pub data ChainVerdict : Type 0 where
  valid chain_not_found : ChainVerdict
  wrong_issuer wrong_parent : String → ChainVerdict

unfoldable pub validate_links : DelegationNode → List DelegationNode → ChainVerdict
validate_links parent [] = valid
validate_links parent (child ∷ found) =
    let rest = validate_links child found in
    if not (child.issuer_did == parent.subject_did)
    then wrong_issuer child.id
    else if not (child.parent_id == some parent.id)
    then wrong_parent child.id
    else rest

unfoldable pub validate_nodes : List DelegationNode → ChainVerdict
unfolding validate_links
validate_nodes [] = chain_not_found
validate_nodes (root ∷ found) = validate_links root found

unfoldable pub unlink_parent : Option String → String → Graph → Graph
unlink_parent none id nodes = nodes
unlink_parent (some parent) id nodes = elim (get_node parent nodes) [
  | none ↦ nodes
  | some stored ↦
      set_node (record stored { children = keep_if (λ c. not (c == id)) stored.children }) nodes
]

unfoldable pub remove_delegation : String → Graph → Graph
unfolding unlink_parent
remove_delegation id nodes = elim (get_node id nodes) [
  | none ↦ nodes
  | some node ↦
      delete_node id
        (if is_set node.parent_id then unlink_parent node.parent_id id nodes else nodes)
]
