-- ===== src/Delegation/Revocation/Cascade.antt =====
-- Cascading revocation marks the target and all that it found below it.
use kya_os_mcp.Common.{
  ℕ, suc, ◌≡◌, refl, sym, ap, ◌∙◌, inl, inr, true, false, List, [], ◌∷◌, Option, none, some, String,
  string_eq, Bool-cases, Option-cases, All, Result, ok, err, ltb, length, ◌-◌, ok_injective, map,
}
use mathlib.Core.Path.{subst}
use kya_os_mcp.Common.Map.{get, set}
use kya_os_mcp.Delegation.Graph.{DelegationNode, Graph, get_descendants, links}
use kya_os_mcp.Delegation.Graph.Walk.{IsStore}
use kya_os_mcp.Delegation.Graph.Found.{descend-IsStored}
use kya_os_mcp.Delegation.Revocation.{
  StatusLists, RevocationError, RevocationEvent, World, Called, and_then, revoke_node, revoke_each,
  cascade, revoke_checked, revoke_found, too_deep, revoke_delegation, depth_limit, chain_of,
}
use kya_os_mcp.Delegation.Revocation.Marks.{
  IsMarked, IsKept, IsKept-refl, IsKept-trans, revoke_node-IsKept, marked_node, revoke_node-graph,
}
use kya_os_mcp.Delegation.Revocation.Cascaded.{
  IsMarkedNode, IsCascaded, revoke_node-event, revoke_each-IsCascaded,
}

module _ {S E : Type 0} (m : StatusLists S E) where
  -- What a revocation leaves: the marks, and the events that it reports.
  pub record IsRevoked (id : String) (before : Graph) (c : Called S E (List RevocationEvent))
      : Type 0 where
    pub kept : IsKept before c.0.graph
    pub target : (events : List RevocationEvent) → c.1 ≡ ok events → IsMarked c.0.graph id
    pub below :
        (events : List RevocationEvent)
        → c.1 ≡ ok events
        → (node : DelegationNode) × (nodes : List DelegationNode) × (get id before ≡ some node)
          × (get_descendants id (set id (marked_node node) before) ≡ some nodes)
          × All (IsMarkedNode c.0.graph) nodes
          × (map (λ e. e.delegation_id) events ≡ id ∷ map (λ n. n.id) nodes)

  refused-IsRevoked :
      (id : String) (w x : World S) (e : RevocationError E)
      → IsKept w.graph x.graph
      → IsRevoked id w.graph (x, err e)
  refused-IsRevoked id w x e k = record {
    kept = k;
    target = λ events h. absurd (cc);
    below = λ events h. absurd (cc);
  }

  -- The world after the target was marked.
  abbrev IsTargetMarked : String → Graph → Graph → Type 0
  IsTargetMarked id before after =
      (node : DelegationNode) × (get id before ≡ some node)
      × (after ≡ set id (marked_node node) before)

  found-IsRevoked :
      (id : String) (event : RevocationEvent) (w x : World S) (nodes : List DelegationNode)
      (c : Called S E (List RevocationEvent))
      → event.delegation_id ≡ id
      → IsKept w.graph x.graph
      → IsMarked x.graph id
      → IsTargetMarked id w.graph x.graph
      → get_descendants id x.graph ≡ some nodes
      → IsCascaded m x.graph nodes c
      → IsRevoked id w.graph (and_then c (λ events end. (end, ok (event ∷ events))))
  unfolding and_then
  found-IsRevoked id event w x nodes (y, err e) own k mk step there r =
      refused-IsRevoked id w y e (IsKept-trans w.graph x.graph y.graph k r.kept)
  found-IsRevoked id event w x nodes (y, ok found) own k mk step there r = record {
    kept = IsKept-trans w.graph x.graph y.graph k r.kept;
    target = λ events h. r.kept.marks id mk;
    below = λ events h.
        let e : (event ∷ found) ≡ events = ok_injective h in
        let rest = r.named found refl in
        let (node, stored, after) = step in
        (
          node,
          nodes,
          stored,
          ap (get_descendants id) (sym after) ∙ there,
          r.marked found refl,
          ap (map (λ v. v.delegation_id)) (sym e) ∙ cc,
        );
  }

  cascade-IsRevoked :
      (id : String) (event : RevocationEvent) (w x : World S)
      → event.delegation_id ≡ id
      → IsStore x.graph
      → IsKept w.graph x.graph
      → IsMarked x.graph id
      → IsTargetMarked id w.graph x.graph
      → IsRevoked id w.graph (cascade m id false event x)
  unfolding cascade get_descendants
  cascade-IsRevoked id event w x own s k mk step =
      elim (Option-cases (get_descendants id x.graph)) [
        | inl never ↦ rw (never, cascade) (refused-IsRevoked id w x _ k)
        | inr (nodes, there) ↦
            rw (there, cascade)
              (found-IsRevoked id event w x nodes (revoke_each m id false nodes x) own k mk step
                there
                (revoke_each-IsCascaded m id nodes x s (
                  descend-IsStored (suc (suc (links x.graph))) x.graph (id ∷ []) [] [] nodes s tt
                    there)))
      ]

  target-IsRevoked :
      (id : String) (event : RevocationEvent) (w : World S) (c : Called S E RevocationEvent)
      → event.delegation_id ≡ id
      → IsStore w.graph
      → IsKept w.graph c.0.graph
      → IsMarked c.0.graph id
      → IsTargetMarked id w.graph c.0.graph
      → ((e : RevocationEvent) → c.1 ≡ ok e → event ≡ e)
      → IsRevoked id w.graph (and_then c (cascade m id false))
  unfolding and_then
  target-IsRevoked id event w (x, err e) own s k mk step same = refused-IsRevoked id w x e k
  target-IsRevoked id event w (x, ok e) own s k mk step same =
      cascade-IsRevoked id e w x (ap (λ v. v.delegation_id) (sym (same e refl)) ∙ own) (k.store s) k
        mk step

  checked-IsRevoked :
      (id : String) (reason : Option String) (depth : Option ℕ) (node : DelegationNode)
      (r : Result (RevocationError E) (List DelegationNode)) (w : World S)
      → node.id ≡ id
      → get id w.graph ≡ some node
      → IsStore w.graph
      → IsRevoked id w.graph (revoke_checked m id reason depth false node r w)
  unfolding revoke_checked revoke_found
  checked-IsRevoked id reason depth node (err e) w own there s =
      refused-IsRevoked id w w e (IsKept-refl w.graph)
  checked-IsRevoked id reason depth node (ok above) w own there s =
      elim (Bool-cases (ltb (depth_limit depth) (length above - 1))) [
        | inl deep ↦
            rw (deep, revoke_found)
              (refused-IsRevoked id w w (too_deep (length above - 1)) (IsKept-refl w.graph))
        | inr fits ↦
            let event : RevocationEvent = record {
              delegation_id = node.id;
              is_root = true;
              parent_id = none;
              reason = reason;
            } in
            let (k, mk) =
              revoke_node-IsKept m node event w s
                (λ gone. let at = ap (λ i. get i w.graph) own ∙ there in cc) in
            rw (fits, revoke_found)
              (target-IsRevoked id event w (revoke_node m node event false w) own s k
                (subst (IsMarked (revoke_node m node event false w).0.graph) own mk)
                (
                  node,
                  there,
                  revoke_node-graph m node event w (ap (λ i. get i w.graph) own ∙ there)
                      ∙ ap (λ i. set i (marked_node node) w.graph) own,
                )
                (λ e. revoke_node-event m node event e w))
      ]

pub revoke_delegation-IsRevoked :
    {S E : Type 0} (m : StatusLists S E) (id : String) (reason : Option String) (depth : Option ℕ)
    (w : World S)
    → IsStore w.graph
    → IsRevoked m id w.graph (revoke_delegation m id reason depth false w)
unfolding revoke_delegation
revoke_delegation-IsRevoked m id reason depth w s = elim (Option-cases (get id w.graph)) [
  | inl absent ↦ rw (absent, revoke_delegation) (refused-IsRevoked m id w w _ (IsKept-refl w.graph))
  | inr (node, stored) ↦
      rw (stored, revoke_delegation)
        (checked-IsRevoked m id reason depth node (chain_of id w) w (s id node stored) stored s)
]

-- On a graph whose nodes stand under their own ids, a revocation that succeeds was of a stored node;
-- it has marked that node and every descendant that `getDescendants` finds in the graph as it was but
-- for the mark on the target; and it reports one event for each, the target's first.
pub revoke_delegation-cascades :
    {S E : Type 0} (m : StatusLists S E) (id : String) (reason : Option String) (depth : Option ℕ)
    (w : World S) (events : List RevocationEvent)
    → IsStore w.graph
    → (revoke_delegation m id reason depth false w).1 ≡ ok events
    → IsMarked (revoke_delegation m id reason depth false w).0.graph id
      × (node : DelegationNode) × (nodes : List DelegationNode) × (get id w.graph ≡ some node)
      × (get_descendants id (set id (record node { revoked = true }) w.graph) ≡ some nodes)
      × All (IsMarkedNode (revoke_delegation m id reason depth false w).0.graph) nodes
      × (map (λ e. e.delegation_id) events ≡ id ∷ map (λ n. n.id) nodes)
revoke_delegation-cascades m id reason depth w events s done =
    let r = revoke_delegation-IsRevoked m id reason depth w s in
    let (node, nodes, stored, found, marked, named) = r.below events done in
    (r.target events done, node, nodes, stored, found, marked, named)

-- On a graph whose nodes stand under their own ids, a revocation loses no mark of the graph, even
-- where it fails on the way.
pub revoke_delegation-keeps_marks :
    {S E : Type 0} (m : StatusLists S E) (id other : String) (reason : Option String)
    (depth : Option ℕ) (w : World S)
    → IsStore w.graph
    → IsMarked w.graph other
    → IsMarked (revoke_delegation m id reason depth false w).0.graph other
revoke_delegation-keeps_marks m id other reason depth w s marked =
    (revoke_delegation-IsRevoked m id reason depth w s).kept.marks other marked
