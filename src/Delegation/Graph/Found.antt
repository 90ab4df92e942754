-- ===== src/Delegation/Graph/Found.antt =====
-- What `getDescendants` finds is stored.
use kya_os_mcp.Common.{
  ℕ, zero, suc, ◌≡◌, ap, ◌≢◌, inl, inr, List, [], ◌∷◌, ◌++◌, none, some, String, string_eq,
  Bool-cases, Option-cases, All, All-append, includes,
}
use mathlib.Core.Path.{subst}
use kya_os_mcp.Common.Map.{get}
use kya_os_mcp.Delegation.Graph.{DelegationNode, Graph, descend, stored_nodes, unvisited}
use kya_os_mcp.Delegation.Graph.Walk.{IsStore}

abbrev pub IsStored : Graph → DelegationNode → Type 0
IsStored g n = get n.id g ≢ none

-- What the search finds is stored.
stored_nodes-IsStored :
    (ids : List String) (g : Graph) → IsStore g → All (IsStored g) (stored_nodes ids g)
unfolding stored_nodes
stored_nodes-IsStored [] g s = tt
stored_nodes-IsStored (id ∷ ids) g s = elim (Option-cases (get id g)) [
  | inl absent ↦ rw (absent, stored_nodes) (stored_nodes-IsStored ids g s)
  | inr (node, there) ↦
      let own : get node.id g ≢ none = λ gone. let e = ap (λ i. get i g) (s id node there) in cc in
      rw (there, stored_nodes) (own, stored_nodes-IsStored ids g s)
]

pub descend-IsStored :
    (fuel : ℕ) (g : Graph) (queue visited : List String) (found ns : List DelegationNode)
    → IsStore g
    → All (IsStored g) found
    → descend fuel g queue visited found ≡ some ns
    → All (IsStored g) ns
unfolding descend
descend-IsStored zero g queue visited found ns s h e = absurd (cc)
descend-IsStored (suc fuel) g [] visited found ns s h e =
    let same : found ≡ ns = cc in subst (All (IsStored g)) same h
descend-IsStored (suc fuel) g (id ∷ queue) visited found ns s h e =
    elim (Bool-cases (includes id visited)) [
      | inl again ↦ descend-IsStored fuel g queue visited found ns s h (rw (again, descend) at e)
      | inr new ↦ elim (Option-cases (get id g)) [
        | inl absent ↦
            descend-IsStored fuel g queue (id ∷ visited) found ns s h
              (rw (new, absent, descend) at e)
        | inr (node, there) ↦
            let fresh = unvisited (id ∷ visited) node.children in
            descend-IsStored fuel g (queue ++ fresh) (id ∷ visited) (found ++ stored_nodes fresh g)
              ns s
              (All-append (IsStored g) found (stored_nodes fresh g) h
                (stored_nodes-IsStored fresh g s))
              (rw (new, there, descend) at e)
      ]
    ]
