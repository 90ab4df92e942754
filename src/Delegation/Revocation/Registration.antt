-- ===== src/Delegation/Revocation/Registration.antt =====
-- Registering a delegation never clears a mark of the graph.
use kya_os_mcp.Common.{
  ◌≡◌, refl, sym, ap, ◌∙◌, ◌≢◌, inl, inr, true, List, none, some, String, arith, ◌==◌, string_eq,
  option_eq, ==_iff, Bool-cases, Option-cases, ok, ok_injective,
}
use mathlib.Core.Path.{subst}
use kya_os_mcp.Common.Map.{get, set, get-set}
use kya_os_mcp.Delegation.Graph.{
  DelegationNode, Graph, with_child, link_parent, insert_node, repeat_node, register_node_atomic,
  registration_conflict,
}
use kya_os_mcp.Delegation.Graph.Walk.{IsStore}
use kya_os_mcp.Delegation.Revocation.Marks.{IsMarked}

-- A write that clears no mark of what it replaces.
write-IsMarked :
    (k id : String) (new : DelegationNode) (nodes : Graph)
    → ((old : DelegationNode) → get k nodes ≡ some old → old.revoked ≡ true → new.revoked ≡ true)
    → IsMarked nodes id
    → IsMarked (set k new nodes) id
write-IsMarked k id new nodes keeps (n, (there, m)) = elim (Bool-cases (k == id)) [
  | inl same ↦
      let at = ap (λ i. get i nodes) ((==_iff k id).0 same) ∙ there in
      (new, (get-set k id new nodes ∙ rw same refl, keeps n at m))
  | inr other ↦ (n, (get-set k id new nodes ∙ rw other there, m))
]

absent-IsMarked :
    (id : String) (new : DelegationNode) (nodes : Graph)
    → get new.id nodes ≡ none
    → IsMarked nodes id
    → IsMarked (set new.id new nodes) id
absent-IsMarked id new nodes absent h =
    write-IsMarked new.id id new nodes (λ old there m. absurd (cc)) h

-- A stored node with other children.
children-IsMarked :
    (id : String) (stored : DelegationNode) (children : List String) (nodes : Graph)
    → get stored.id nodes ≡ some stored
    → IsMarked nodes id
    → IsMarked (set stored.id (record stored { children = children }) nodes) id
children-IsMarked id stored children nodes at h =
    write-IsMarked stored.id id (record stored { children = children }) nodes
      (λ old there m. let same : old ≡ stored = cc in ap (λ n. n.revoked) (sym same) ∙ m) h

insert_node-IsMarked :
    (node : DelegationNode) (nodes after : Graph) (id : String)
    → get node.id nodes ≡ none
    → IsStore nodes
    → IsMarked nodes id
    → insert_node node nodes ≡ ok after
    → IsMarked after id
unfolding insert_node link_parent
insert_node-IsMarked node nodes after id absent store marked h =
    elim (Option-cases node.parent_id) [
      | inl root ↦
          let e : set node.id node nodes ≡ after = ok_injective (rw (root, insert_node) at h) in
          subst (λ g. IsMarked g id) e (absent-IsMarked id node nodes absent marked)
      | inr (parent, child) ↦ elim (Option-cases (get parent nodes)) [
        | inl missing ↦ absurd (let bad = rw (child, missing, insert_node) at h in cc)
        | inr (stored, found) ↦
            let linked : DelegationNode = record stored {
              children = with_child node.id stored.children;
            } in
            let at : get stored.id nodes ≡ some stored =
              ap (λ i. get i nodes) (store parent stored found) ∙ found in
            let other : stored.id ≢ node.id = λ e. cc in
            let e : link_parent (some stored) node nodes ≡ after =
              ok_injective (rw (child, found, insert_node) at h) in
            subst (λ g. IsMarked g id) e
              (absent-IsMarked id node (set stored.id linked nodes)
                (get-set stored.id node.id linked nodes ∙ ground (arith, ==_iff stored.id node.id))
                (children-IsMarked id stored (with_child node.id stored.children) nodes at marked))
      ]
    ]

repeat_node-same :
    (stored node : DelegationNode) (nodes after : Graph)
    → repeat_node stored node nodes ≡ ok after
    → nodes ≡ after
unfolding repeat_node
repeat_node-same stored node nodes after h =
    elim (Option-cases (registration_conflict stored node)) [
      | inl same ↦ ok_injective (rw (same, repeat_node) at h)
      | inr (conflict, differs) ↦ absurd (let bad = rw (differs, repeat_node) at h in cc)
    ]

-- Registering a delegation, new or known, keeps every mark of a graph whose nodes stand under
-- their own ids.
pub register_node_atomic-IsMarked :
    (node : DelegationNode) (nodes after : Graph) (id : String)
    → IsStore nodes
    → IsMarked nodes id
    → register_node_atomic node nodes ≡ ok after
    → IsMarked after id
unfolding register_node_atomic
register_node_atomic-IsMarked node nodes after id store marked h =
    elim (Bool-cases (node.parent_id == some node.id)) [
      | inl own ↦ absurd (let bad = rw (own, register_node_atomic) at h in cc)
      | inr other ↦ elim (Option-cases (get node.id nodes)) [
        | inl absent ↦
            insert_node-IsMarked node nodes after id absent store marked
              (rw (other, absent, register_node_atomic) at h)
        | inr (stored, there) ↦
            subst (λ g. IsMarked g id)
              (repeat_node-same stored node nodes after
                (rw (other, there, register_node_atomic) at h))
              marked
      ]
    ]
