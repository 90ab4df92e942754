-- ===== src/Delegation/Tests/Graphs.antt =====
-- A root, its child and a cycle of parents.
use kya_os_mcp.Common.{
  ℕ, ◌≡◌, refl, ◌≢◌, inl, inr, Bool, true, false, List, [], ◌∷◌, Option, none, some, some-injective,
  String, arith, Any, sym, ap, ◌∙◌, ◌==◌, ==_iff, Bool-cases, ok, err, ◌<◌, string_eq,
}
use kya_os_mcp.Common.Map.{get}
use kya_os_mcp.Delegation.Graph.{
  DelegationNode, Graph, register_node_atomic, get_chain, get_descendants, chain, cycle,
  out_of_fuel, validate_nodes, wrong_parent,
}
use kya_os_mcp.Delegation.Graph.Walk.{IsStore}
use kya_os_mcp.Delegation.Graph.Forest.{IsForest, register_node_atomic-IsForest}
use kya_os_mcp.Delegation.Graph.Search.{get_descendants_total}

abbrev pub node : String → Option String → List String → DelegationNode
node id parent children = record {
  id = id;
  parent_id = parent;
  children = children;
  issuer_did = "did:i";
  subject_did = "did:i";
  credential_status_id = none;
  credential_status = none;
  revoked = false;
}

abbrev pub root : DelegationNode
root = node "a" none ("b" ∷ [])

abbrev pub below : DelegationNode
below = node "b" (some "a") []

abbrev pub pair : Graph
pair = ("a", root) ∷ ("b", below) ∷ []

-- Two nodes that are each other's parent.
abbrev loop : Graph
loop = ("a", node "a" (some "b") ("b" ∷ [])) ∷ ("b", node "b" (some "a") ("a" ∷ [])) ∷ []

loop-cycle : get_chain "a" loop ≡ cycle "a"
unfolding get get_chain
loop-cycle = refl

pub own_id : (n m : DelegationNode) (id : String) → m.id ≡ id → some m ≡ some n → n.id ≡ id
own_id n m id own e = let same : m ≡ n = cc in ap (λ x. x.id) (sym same) ∙ own

pub pair-IsStore : IsStore pair
unfolding get
pair-IsStore id n there = elim (Bool-cases ("a" == id)) [
  | inl a ↦ own_id n root id ((==_iff "a" id).0 a) (rw (a, get) at there)
  | inr not_a ↦ elim (Bool-cases ("b" == id)) [
    | inl b ↦ own_id n below id ((==_iff "b" id).0 b) (rw (not_a, b, get) at there)
    | inr not_b ↦ absurd (let bad = rw (not_a, not_b, get) at there in cc)
  ]
]

-- A root that has no child yet.
abbrev lone : DelegationNode
lone = node "a" none []

abbrev lone_root : Graph
lone_root = ("a", lone) ∷ []

lone_root-get : (id : String) (n : DelegationNode) → get id lone_root ≡ some n → lone ≡ n
unfolding get
lone_root-get id n there = elim (Bool-cases ("a" == id)) [
  | inl a ↦ some-injective (rw (a, get) at there)
  | inr not_a ↦ absurd (let bad = rw (not_a, get) at there in cc)
]

lone_root-IsForest : IsForest lone_root
lone_root-IsForest = record {
  rank = λ id. 0;
  rooted = λ id parent n there e.
      absurd
        (let bad : none ≡ some parent = ap (λ x. x.parent_id) (lone_root-get id n there) ∙ e in cc);
}

lone_root-IsStore : IsStore lone_root
unfolding get
lone_root-IsStore id n there = elim (Bool-cases ("a" == id)) [
  | inl a ↦ own_id n lone id ((==_iff "a" id).0 a) (rw (a, get) at there)
  | inr not_a ↦ absurd (let bad = rw (not_a, get) at there in cc)
]

register_node_atomic-IsForest_example : IsStore pair × IsForest pair
unfolding get kya_os_mcp.Common.Map.set kya_os_mcp.Delegation.Graph.link_parent register_node_atomic
register_node_atomic-IsForest_example =
    register_node_atomic-IsForest below lone_root pair lone_root-IsStore lone_root-IsForest refl

get_descendants_total_example : get_descendants "a" loop ≢ none
get_descendants_total_example = get_descendants_total "a" loop
