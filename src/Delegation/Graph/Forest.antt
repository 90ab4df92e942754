-- ===== src/Delegation/Graph/Forest.antt =====
-- Registration keeps the graph free of parent cycles.
use kya_os_mcp.Common.{
  ℕ, zero, suc, ◌<◌, ◌≡◌, refl, sym, ap, ◌∙◌, ◌≢◌, inl, inr, false, List, [], ◌∷◌, Option, none,
  some, String, arith, ◌==◌, string_eq, option_eq, ==_iff, ==_refl, ◌⊎◌, includes, if◌then◌else◌,
  Bool-cases, Option-cases, All, All-map, length, ok_injective, ok,
}
use mathlib.Core.Path.{subst}
use kya_os_mcp.Common.Map.{get, set, get-set}
use kya_os_mcp.Delegation.Graph.Walk.{IsStore}
use kya_os_mcp.Delegation.Graph.{
  DelegationNode, Graph, walk_up, get_chain, cycle, with_child, link_parent, insert_node,
  repeat_node, register_node_atomic, registration_conflict,
}

-- Each stored node that names a parent has it stored, at a lower rank.
pub record IsForest (nodes : Graph) : Type 0 where
  pub rank : String → ℕ
  pub rooted :
      (id parent : String) (node : DelegationNode)
      → get id nodes ≡ some node
      → node.parent_id ≡ some parent
      → (get parent nodes ≢ none) × (rank parent < rank id)

module _ (nodes : Graph) (f : IsForest nodes) where
  -- All that is visited lies above the current id.
  abbrev IsBelow : String → List String → Type 0
  IsBelow id visited = All (λ v. f.rank id < f.rank v) visited

  IsBelow-not_includes :
      (id : String) (visited : List String) → IsBelow id visited → includes id visited ≡ false
  IsBelow-not_includes id [] h = refl
  IsBelow-not_includes id (v ∷ visited) (lt, h) = elim (Bool-cases (v == id)) [
    | inl same ↦ absurd (let e = ap f.rank ((==_iff v id).0 same) in omega arith)
    | inr apart ↦ rw apart (IsBelow-not_includes id visited h)
  ]

  abbrev IsAbove : Option String → List String → Type 0
  IsAbove none visited = Unit
  IsAbove (some id) visited = IsBelow id visited

  walk_up-acyclic :
      (fuel : ℕ) (visited : List String) (found : List DelegationNode) (current : Option String)
      (at : String)
      → IsAbove current visited
      → walk_up fuel nodes visited found current ≢ cycle at
  unfolding walk_up
  walk_up-acyclic zero visited found current at h = cc
  walk_up-acyclic (suc fuel) visited found none at h = cc
  walk_up-acyclic (suc fuel) visited found (some id) at h = elim (Bool-cases (id == "")) [
    | inl stop ↦ rw (stop, walk_up) (cc)
    | inr named ↦ elim (Option-cases (get id nodes)) [
      | inl absent ↦ rw (named, IsBelow-not_includes id visited h, absent, walk_up) (cc)
      | inr (node, stored) ↦
          rw (named, IsBelow-not_includes id visited h, stored, walk_up)
            (walk_up-acyclic fuel (id ∷ visited) (node ∷ found) node.parent_id at
              (next node stored node.parent_id refl))
    ]
  ]
    where
      next :
          (node : DelegationNode)
          → get id nodes ≡ some node
          → (p : Option String) → node.parent_id ≡ p
          → IsAbove p (id ∷ visited)
      next node stored none e = tt
      next node stored (some parent) e =
          let lower = (f.rooted id parent node stored e).1 in
          (lower, All-map visited (λ v lt. omega arith) h)

-- On a graph in which every named parent is stored, at a lower rank than its child, `getChain`
-- reports no cycle.
pub get_chain-acyclic :
    (nodes : Graph) (id at : String) → IsForest nodes → get_chain id nodes ≢ cycle at
unfolding get_chain
get_chain-acyclic nodes id at f = walk_up-acyclic nodes f (suc (length nodes)) [] [] (some id) at tt

pub set-ne-none :
    (id p : String) (new : DelegationNode) (nodes : Graph)
    → get p nodes ≢ none
    → get p (set id new nodes) ≢ none
set-ne-none id p new nodes h = rw (get-set id p new nodes) (ground arith)

-- What stands at a key after a write.
pub set-cases :
    (id j : String) (new node : DelegationNode) (nodes : Graph)
    → get j (set id new nodes) ≡ some node
    → ((id ≡ j) × (new ≡ node)) ⊎ ((id ≢ j) × (get j nodes ≡ some node))
set-cases id j new node nodes h = ground (arith, get-set id j new nodes, ==_iff id j)

-- A write that keeps the parent of what it replaces.
pub set-IsForest :
    (nodes : Graph) (id : String) (old new : DelegationNode)
    → get id nodes ≡ some old
    → new.parent_id ≡ old.parent_id
    → IsForest nodes
    → IsForest (set id new nodes)
set-IsForest nodes id old new stored same f = record {
  rank = f.rank;
  rooted = λ j parent node there e. elim (set-cases id j new node nodes there) [
    | inl (here, written) ↦
        let before = ap (λ k. get k nodes) (sym here) ∙ stored in
        let named = sym same ∙ ap (λ n. n.parent_id) written ∙ e in
        let (found, lower) = f.rooted j parent old before named in
        (set-ne-none id parent new nodes found, lower)
    | inr (_, before) ↦
        let (found, lower) = f.rooted j parent node before e in
        (set-ne-none id parent new nodes found, lower)
  ];
}

-- A new id, whose parent is stored.
abbrev HasStoredParent : Option String → Graph → Type 0
HasStoredParent none nodes = Unit
HasStoredParent (some parent) nodes = get parent nodes ≢ none

abbrev rank_of : (String → ℕ) → Option String → ℕ
rank_of rank none = 0
rank_of rank (some parent) = suc (rank parent)

insert-IsForest :
    (nodes : Graph) (id : String) (new : DelegationNode)
    → get id nodes ≡ none
    → HasStoredParent new.parent_id nodes
    → IsForest nodes
    → IsForest (set id new nodes)
insert-IsForest nodes id new absent parented f = record {
  rank = rank;
  rooted = λ j parent node there e. elim (set-cases id j new node nodes there) [
    | inl (here, written) ↦
        let named = ap (λ n. n.parent_id) written ∙ e in
        let found : get parent nodes ≢ none = subst (λ p. HasStoredParent p nodes) named parented in
        (
          set-ne-none id parent new nodes found,
          subst (λ k. rank parent < rank k) here (lower parent named found),
        )
    | inr (other, before) ↦
        let (found, below) = f.rooted j parent node before e in
        (set-ne-none id parent new nodes found, kept parent j found other below)
  ];
}
  where
    rank : String → ℕ
    rank k = if id == k then rank_of f.rank new.parent_id else f.rank k

    old_rank : (k : String) → id ≢ k → rank k ≡ f.rank k
    old_rank k h = let apart : (id == k) ≡ false = ground (arith, ==_iff id k) in rw apart

    not_new : (k : String) → get k nodes ≢ none → id ≢ k
    not_new k h e = h (ap (λ i. get i nodes) (sym e) ∙ absent)

    lower :
        (parent : String)
        → new.parent_id ≡ some parent
        → get parent nodes ≢ none
        → rank parent < rank id
    lower parent named found =
        let own : rank id ≡ rank_of f.rank new.parent_id = rw (==_refl id) in
        let above : rank_of f.rank new.parent_id ≡ suc (f.rank parent) =
          ap (rank_of f.rank) named in
        omega (arith, old_rank parent (not_new parent found), own, above)

    kept :
        (parent j : String)
        → get parent nodes ≢ none
        → id ≢ j
        → f.rank parent < f.rank j
        → rank parent < rank j
    kept parent j found other below =
        omega (arith, old_rank parent (not_new parent found), old_rank j other)

insert_child-IsForest :
    (node stored : DelegationNode) (nodes : Graph) (parent : String)
    → get node.id nodes ≡ none
    → get parent nodes ≡ some stored
    → stored.id ≡ parent
    → node.parent_id ≡ some parent
    → IsForest nodes
    → IsForest (link_parent (some stored) node nodes)
unfolding link_parent
insert_child-IsForest node stored nodes parent absent found own child f =
    let linked : DelegationNode = record stored { children = with_child node.id stored.children } in
    let there : get stored.id nodes ≡ some stored = ap (λ i. get i nodes) own ∙ found in
    let other : stored.id ≢ node.id = λ e. cc in
    insert-IsForest (set stored.id linked nodes) node.id node
      (get-set stored.id node.id linked nodes ∙ ground (arith, ==_iff stored.id node.id))
      (subst (λ p. HasStoredParent p (set stored.id linked nodes)) (sym child)
        (set-ne-none stored.id parent linked nodes (λ e. cc)))
      (set-IsForest nodes stored.id stored linked there refl f)

insert_node-IsForest :
    (node : DelegationNode) (nodes after : Graph)
    → get node.id nodes ≡ none
    → insert_node node nodes ≡ ok after
    → IsStore nodes
    → IsForest nodes
    → IsForest after
unfolding insert_node link_parent
insert_node-IsForest node nodes after absent h store f = elim (Option-cases node.parent_id) [
  | inl root ↦
      let e : set node.id node nodes ≡ after = ok_injective (rw (root, insert_node) at h) in
      subst IsForest e (
        insert-IsForest nodes node.id node absent
          (subst (λ p. HasStoredParent p nodes) (sym root) tt) f)
  | inr (parent, child) ↦ elim (Option-cases (get parent nodes)) [
    | inl missing ↦ absurd (let bad = rw (child, missing, insert_node) at h in cc)
    | inr (stored, found) ↦
        let e : link_parent (some stored) node nodes ≡ after =
          ok_injective (rw (child, found, insert_node) at h) in
        subst IsForest e (
          insert_child-IsForest node stored nodes parent absent found (store parent stored found)
            child f)
  ]
]

set-IsStore :
    (node : DelegationNode) (nodes : Graph) → IsStore nodes → IsStore (set node.id node nodes)
set-IsStore node nodes store id n there = elim (set-cases node.id id node n nodes there) [
  | inl (here, written) ↦ ap (λ x. x.id) (sym written) ∙ here
  | inr (other, before) ↦ store id n before
]

insert_node-IsStore :
    (node : DelegationNode) (nodes after : Graph)
    → insert_node node nodes ≡ ok after
    → IsStore nodes
    → IsStore after
unfolding insert_node link_parent
insert_node-IsStore node nodes after h store = elim (Option-cases node.parent_id) [
  | inl root ↦
      let e : set node.id node nodes ≡ after = ok_injective (rw (root, insert_node) at h) in
      subst IsStore e (set-IsStore node nodes store)
  | inr (parent, child) ↦ elim (Option-cases (get parent nodes)) [
    | inl missing ↦ absurd (let bad = rw (child, missing, insert_node) at h in cc)
    | inr (stored, found) ↦
        let linked : DelegationNode = record stored {
          children = with_child node.id stored.children;
        } in
        let e : link_parent (some stored) node nodes ≡ after =
          ok_injective (rw (child, found, insert_node) at h) in
        subst IsStore e
          (set-IsStore node (set stored.id linked nodes) (set-IsStore linked nodes store))
  ]
]

-- A graph whose nodes stand under their own ids, and in which every named parent is stored at a
-- lower rank than its child, is still both after a registration that succeeds, whatever the
-- delegation names as its parent.
pub register_node_atomic-IsForest :
    (node : DelegationNode) (nodes after : Graph)
    → IsStore nodes
    → IsForest nodes
    → register_node_atomic node nodes ≡ ok after
    → IsStore after × IsForest after
unfolding register_node_atomic repeat_node
register_node_atomic-IsForest node nodes after store f h =
    elim (Bool-cases (node.parent_id == some node.id)) [
      | inl own ↦ absurd (let bad = rw (own, register_node_atomic) at h in cc)
      | inr other ↦ elim (Option-cases (get node.id nodes)) [
        | inl absent ↦
            let inserted = rw (other, absent, register_node_atomic) at h in
            (
              insert_node-IsStore node nodes after inserted store,
              insert_node-IsForest node nodes after absent inserted store f,
            )
        | inr (stored, there) ↦
            let r = rw (other, there, register_node_atomic) at h in
            let same = repeated stored r in (subst IsStore same store, subst IsForest same f)
      ]
    ]
  where
    repeated : (stored : DelegationNode) → repeat_node stored node nodes ≡ ok after → nodes ≡ after
    repeated stored r = elim (Option-cases (registration_conflict stored node)) [
      | inl same ↦ ok_injective (rw (same, repeat_node) at r)
      | inr (conflict, differs) ↦ absurd (let bad = rw (differs, repeat_node) at r in cc)
    ]
