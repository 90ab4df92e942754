-- ===== src/Delegation/Revocation.antt =====
-- src/delegation/cascading-revocation.ts over the graph and a status list manager. The time of an
-- event and the `onRevoke` hook are left out. What a call changed before it threw stays changed.
pub mod Marks
pub mod Cascaded
pub mod Cascade
pub mod Checks
pub mod Registration
use Prim.Native.String.{◌++◌ as str_append}
use kya_os_mcp.Common.{
  ℕ, ◌-◌, Bool, true, false, ◌&&◌, ◌||◌, not, List, [], ◌∷◌, ◌++◌, Option, none, some, String, ◌==◌,
  string_eq, leb, ltb, length, if◌then◌else◌, Result, ok, err, map,
}
use kya_os_mcp.Delegation.Graph.{
  CredentialStatus, DelegationNode, Graph, GraphError, not_found, parent_cycle, get_node,
  WalkResult, chain, cycle, out_of_fuel, get_chain, get_descendants, set_revoked, ChainVerdict,
  valid, validate_nodes,
}
use kya_os_mcp.Delegation.StatusEntry.{EntryReading, no_entry, bad_index, entry, node_status_entry}

-- The calls of a `StatusList2021Manager` with the state `S`; what they throw.
pub record StatusLists (S E : Type 0) : Type 0 where
  pub update_status : CredentialStatus → Bool → S → S × Option E
  pub check_status : CredentialStatus → S → Result E Bool

pub data RevocationError (E : Type 0) : Type 0 where
  graph_error : GraphError → RevocationError E
  list_error : E → RevocationError E
  bad_entry : String → RevocationError E
  too_deep : ℕ → RevocationError E
  not_recorded : String → RevocationError E

pub record RevocationEvent : Type 0 where
  pub delegation_id : String
  pub is_root : Bool
  pub parent_id : Option String
  pub reason : Option String

pub record World (S : Type 0) : Type 0 where
  pub graph : Graph
  pub lists : S

-- A call: the world it leaves, with its result or what it threw.
abbrev pub Called : Type 0 → Type 0 → Type 0 → Type 0
Called S E A = World S × Result (RevocationError E) A

unfoldable pub cascaded : String → DelegationNode → RevocationEvent
cascaded id node = record {
  delegation_id = node.id;
  is_root = false;
  parent_id = some id;
  reason = some (str_append "Cascaded from " id);
}

-- What `isRevoked` reports.
pub data Revoked : Type 0 where
  clear directly : Revoked
  by_ancestor : String → Revoked

-- `maxDepth || 100`
abbrev pub depth_limit : Option ℕ → ℕ
depth_limit none = 100
depth_limit (some limit) = if leb limit 0 then 100 else limit

abbrev pub is_clear : Revoked → Bool
is_clear clear = true
is_clear _ = false

abbrev pub revoked_by : String → DelegationNode → Revoked
revoked_by id node = if node.id == id then directly else by_ancestor node.id

module _ {S E A B : Type 0} where
  -- The next call, unless this one threw.
  unfoldable pub and_then : Called S E A → (A → World S → Called S E B) → Called S E B
  and_then (w, err e) f = (w, err e)
  and_then (w, ok a) f = f a w

module _ {S E : Type 0} where
  -- `graph.setRevoked`
  unfoldable pub mark : String → Bool → World S → Called S E Bool
  unfolding set_revoked
  mark id revoked w = elim (set_revoked id revoked w.graph) [
    | err e ↦ (w, err (graph_error e))
    | ok (graph, marked) ↦ (record w { graph = graph }, ok marked)
  ]

  -- `graph.getChain`
  unfoldable pub chain_of : String → World S → Result (RevocationError E) (List DelegationNode)
  unfolding get_chain
  chain_of id w = elim (get_chain id w.graph) [
    | chain ns ↦ ok ns
    | cycle at ↦ err (graph_error (parent_cycle at))
    | out_of_fuel ↦ err (graph_error (parent_cycle id))
  ]

module _ {S E : Type 0} (m : StatusLists S E) where
  -- `statusList.updateStatus`
  unfoldable pub update : CredentialStatus → Bool → World S → Called S E Unit
  update status revoked w =
      let (lists, thrown) = m.update_status status revoked w.lists in
      (record w { lists = lists }, elim thrown [ none ↦ ok tt | some e ↦ err (list_error e) ])

  -- The part of `revokeNode` after the mark.
  unfoldable pub publish : DelegationNode → EntryReading → Bool → World S → Called S E Unit
  unfolding update
  publish node no_entry marked w = if marked then (w, ok tt) else (w, err (not_recorded node.id))
  publish node bad_index marked w = (w, err (bad_entry node.id))
  publish node (entry status) marked w = update status true w

  unfoldable pub revoke_node :
      DelegationNode → RevocationEvent → Bool → World S → Called S E RevocationEvent
  unfolding and_then mark publish node_status_entry
  revoke_node node event dry_run w =
      if dry_run
      then (w, ok event)
      else and_then (and_then (mark node.id true w) (publish node (node_status_entry node)))
          (λ _ after. (after, ok event))

  -- The loop over the descendants: the first failure ends it.
  unfoldable pub revoke_each :
      String → Bool → List DelegationNode → World S → Called S E (List RevocationEvent)
  unfolding and_then revoke_node cascaded
  revoke_each id dry_run [] w = (w, ok [])
  revoke_each id dry_run (node ∷ nodes) w =
      and_then (revoke_node node (cascaded id node) dry_run w) (λ event after.
        and_then (revoke_each id dry_run nodes after) (λ events end. (end, ok (event ∷ events))))

  -- From the cascade on: the descendants are read after the target is revoked.
  unfoldable pub cascade :
      String → Bool → RevocationEvent → World S → Called S E (List RevocationEvent)
  unfolding revoke_each and_then
  cascade id dry_run event w = elim (get_descendants id w.graph) [
    | none ↦ (w, err (graph_error (not_found id)))
    | some nodes ↦
        and_then (revoke_each id dry_run nodes w) (λ events end. (end, ok (event ∷ events)))
  ]

  unfoldable pub revoke_found :
      String
      → Option String
      → Option ℕ
      → Bool
      → DelegationNode
      → List DelegationNode
      → World S
      → Called S E (List RevocationEvent)
  unfolding revoke_node cascade and_then
  revoke_found id reason max_depth dry_run node above w =
      let event : RevocationEvent = record {
        delegation_id = node.id;
        is_root = true;
        parent_id = none;
        reason = reason;
      } in
      if ltb (depth_limit max_depth) (length above - 1)
      then (w, err (too_deep (length above - 1)))
      else and_then (revoke_node node event dry_run w) (cascade id dry_run)

  unfoldable pub revoke_checked :
      String
      → Option String
      → Option ℕ
      → Bool
      → DelegationNode
      → Result (RevocationError E) (List DelegationNode)
      → World S
      → Called S E (List RevocationEvent)
  unfolding revoke_found
  revoke_checked id reason max_depth dry_run node (err e) w = (w, err e)
  revoke_checked id reason max_depth dry_run node (ok above) w =
      revoke_found id reason max_depth dry_run node above w

  unfoldable pub revoke_delegation :
      String → Option String → Option ℕ → Bool → World S → Called S E (List RevocationEvent)
  unfolding revoke_checked chain_of
  revoke_delegation id reason max_depth dry_run w = elim (get_node id w.graph) [
    | none ↦ (w, err (graph_error (not_found id)))
    | some node ↦ revoke_checked id reason max_depth dry_run node (chain_of id w) w
  ]

  -- The bit is cleared first, then the mark.
  unfoldable pub clear_entry : DelegationNode → EntryReading → World S → Called S E Unit
  unfolding update
  clear_entry node no_entry w = (w, ok tt)
  clear_entry node bad_index w = (w, err (bad_entry node.id))
  clear_entry node (entry status) w = update status false w

  unfoldable pub restore_delegation : String → World S → Called S E RevocationEvent
  unfolding clear_entry and_then mark node_status_entry
  restore_delegation id w = elim (get_node id w.graph) [
    | none ↦ (w, err (graph_error (not_found id)))
    | some node ↦
        and_then
          (and_then (clear_entry node (node_status_entry node) w) (λ _ w'. mark node.id false w'))
          (λ _ end. (
            end,
            ok (record {
              delegation_id = node.id;
              is_root = true;
              parent_id = none;
              reason = some "Restored";
            }),
          ))
  ]

  -- `isStatusBitSet`
  unfoldable pub is_status_bit_set : DelegationNode → S → Result (RevocationError E) Bool
  is_status_bit_set node lists = elim (node_status_entry node) [
    | no_entry ↦ ok false
    | bad_index ↦ err (bad_entry node.id)
    | entry status ↦ elim (m.check_status status lists) [ err e ↦ err (list_error e) | ok b ↦ ok b ]
  ]

  -- A node's mark, else its bit.
  unfoldable pub is_node_revoked : DelegationNode → S → Result (RevocationError E) Bool
  unfolding is_status_bit_set
  is_node_revoked node lists = if node.revoked then ok true else is_status_bit_set node lists

  -- The loop of `isRevoked`, root first.
  unfoldable pub first_revoked :
      String → List DelegationNode → S → Result (RevocationError E) Revoked
  unfolding is_node_revoked
  first_revoked id [] lists = ok clear
  first_revoked id (node ∷ nodes) lists =
      let rest = first_revoked id nodes lists in
      elim (is_node_revoked node lists) [
        | err e ↦ err e
        | ok true ↦ ok (revoked_by id node)
        | ok false ↦ rest
      ]

  unfoldable pub is_revoked : String → World S → Result (RevocationError E) Revoked
  unfolding first_revoked chain_of
  is_revoked id w = elim (chain_of id w) [
    | err e ↦ err e
    | ok nodes ↦ first_revoked id nodes w.lists
  ]

  unfoldable pub revoked_ids : List String → World S → Result (RevocationError E) (List String)
  unfolding is_revoked
  revoked_ids [] w = ok []
  revoked_ids (id ∷ ids) w =
      let rest = revoked_ids ids w in
      elim (is_revoked id w) [
        | err e ↦ err e
        | ok verdict ↦ elim rest [
          | err e ↦ err e
          | ok found ↦ ok (if is_clear verdict then found else id ∷ found)
        ]
      ]

  -- `getRevokedInSubtree`
  unfoldable pub get_revoked_in_subtree :
      String → World S → Result (RevocationError E) (List String)
  unfolding revoked_ids
  get_revoked_in_subtree id w = elim (get_descendants id w.graph) [
    | none ↦ err (graph_error (not_found id))
    | some nodes ↦ revoked_ids (id ∷ map (λ n. n.id) nodes) w
  ]

  -- The verdict of `validateDelegation`.
  unfoldable pub validate_delegation :
      String → World S → Result (RevocationError E) (Revoked × ChainVerdict)
  unfolding is_revoked chain_of
  validate_delegation id w = elim (is_revoked id w) [
    | err e ↦ err e
    | ok clear ↦ elim (chain_of id w) [
      | err e ↦ err e
      | ok nodes ↦ ok (clear, validate_nodes nodes)
    ]
    | ok verdict ↦ ok (verdict, valid)
  ]
