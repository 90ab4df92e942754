-- ===== src/Delegation/Graph/Search.antt =====
-- `getDescendants` ends on every graph.
use kya_os_mcp.Common.{
  ℕ, zero, suc, ◌+◌, ◌≤◌, ◌<◌, ◌≡◌, refl, ap, ◌≢◌, inl, inr, false, not, List, [], ◌∷◌, ◌++◌, none,
  some, String, arith, ◌==◌, string_eq, ==_iff, ==_refl, includes, length, length-append,
  length-keep_if-le, Bool-cases, Option-cases, if◌then◌else◌,
}
use kya_os_mcp.Common.Map.{get}
use kya_os_mcp.Delegation.Graph.{
  DelegationNode, Graph, unvisited, stored_nodes, descend, links, get_descendants,
}

-- The child links of the nodes that are not visited.
pending : List String → Graph → ℕ
pending visited [] = 0
pending visited ((id, node) ∷ nodes) =
    let rest = pending visited nodes in
    if includes id visited then rest else length node.children + rest

pending-nil : (nodes : Graph) → pending [] nodes ≡ links nodes
unfolding pending links
pending-nil [] = refl
pending-nil ((id, node) ∷ nodes) = ap (λ n. length node.children + n) (pending-nil nodes)

pending-le :
    (id : String) (visited : List String) (nodes : Graph)
    → pending (id ∷ visited) nodes ≤ pending visited nodes
unfolding pending
pending-le id visited [] = omega arith
pending-le id visited ((j, node) ∷ nodes) = ground (arith, pending-le id visited nodes)

pending-visit :
    (id : String) (visited : List String) (node : DelegationNode) (nodes : Graph)
    → includes id visited ≡ false
    → get id nodes ≡ some node
    → length node.children + pending (id ∷ visited) nodes ≤ pending visited nodes
unfolding pending get
pending-visit id visited node [] new h = absurd (cc)
pending-visit id visited node ((j, n) ∷ nodes) new h = elim (Bool-cases (j == id)) [
  | inl same ↦
      let at : n ≡ node = ground arith in
      let e = (==_iff j id).0 same in
      let k = ap (λ m. length m.children) at in
      rw (e, new, ==_refl id, pending) (omega (arith, pending-le id visited nodes))
  | inr other ↦ ground (
    arith,
    ==_iff id j,
    ==_iff j id,
    pending-visit id visited node nodes new (rw (other, get) at h),
  )
]

descend_total :
    (fuel : ℕ) (nodes : Graph) (queue visited : List String) (found : List DelegationNode)
    → length queue + pending visited nodes < fuel
    → descend fuel nodes queue visited found ≢ none
unfolding descend
descend_total zero nodes queue visited found h = absurd (omega arith)
descend_total (suc fuel) nodes [] visited found h = cc
descend_total (suc fuel) nodes (id ∷ queue) visited found h =
    elim (Bool-cases (includes id visited)) [
      | inl again ↦ rw (again, descend) (descend_total fuel nodes queue visited found (omega arith))
      | inr new ↦ elim (Option-cases (get id nodes)) [
        | inl absent ↦
            rw (new, absent, descend)
              (descend_total fuel nodes queue (id ∷ visited) found
                (omega (arith, pending-le id visited nodes)))
        | inr (node, stored) ↦
            let fresh = unvisited (id ∷ visited) node.children in
            rw (new, stored, descend)
              (descend_total fuel nodes (queue ++ fresh) (id ∷ visited)
                (found ++ stored_nodes fresh nodes)
                (omega (
                  arith,
                  length-append queue fresh,
                  length-keep_if-le (λ i. not (includes i (id ∷ visited))) node.children,
                  pending-visit id visited node nodes new stored,
                )))
      ]
    ]

-- `getDescendants` answers on every graph, whatever its child links, cycles included.
pub get_descendants_total : (id : String) (nodes : Graph) → get_descendants id nodes ≢ none
unfolding get_descendants
get_descendants_total id nodes =
    descend_total (suc (suc (links nodes))) nodes (id ∷ []) [] [] (omega (arith, pending-nil nodes))
