-- ===== src/Delegation/Revocation/Cascaded.antt =====
-- A cascade over a list of nodes marks each of them and reports one event for each.
use kya_os_mcp.Common.{
  ◌≡◌, refl, sym, ap, ◌∙◌, true, false, List, [], ◌∷◌, String, string_eq, All, All-map, ok, err,
  ok_injective, map,
}
use kya_os_mcp.Delegation.Graph.{DelegationNode, Graph}
use kya_os_mcp.Delegation.Graph.Walk.{IsStore}
use kya_os_mcp.Delegation.Graph.Found.{IsStored}
use kya_os_mcp.Delegation.StatusEntry.{node_status_entry}
use kya_os_mcp.Delegation.Revocation.{
  mark, publish, StatusLists, RevocationEvent, World, Called, and_then, revoke_node, revoke_each,
  cascaded,
}
use kya_os_mcp.Delegation.Revocation.Marks.{
  IsMarked, IsKept, IsKept-refl, IsKept-trans, revoke_node-IsKept,
}

abbrev pub IsMarkedNode : Graph → DelegationNode → Type 0
IsMarkedNode g n = IsMarked g n.id

module _ {S E : Type 0} (m : StatusLists S E) where
  -- What a cascade over `nodes` leaves.
  pub record IsCascaded (g : Graph) (nodes : List DelegationNode)
      (c : Called S E (List RevocationEvent)) : Type 0 where
    pub kept : IsKept g c.0.graph
    pub marked :
        (events : List RevocationEvent) → c.1 ≡ ok events → All (IsMarkedNode c.0.graph) nodes
    pub named :
        (events : List RevocationEvent)
        → c.1 ≡ ok events
        → map (λ e. e.delegation_id) events ≡ map (λ n. n.id) nodes

  pub revoke_node-event :
      (node : DelegationNode) (event e : RevocationEvent) (w : World S)
      → (revoke_node m node event false w).1 ≡ ok e
      → event ≡ e
  unfolding revoke_node and_then
  revoke_node-event node event e w h =
      finish (and_then (mark node.id true w) (publish m node (node_status_entry node))) h
    where
      finish : (c : Called S E Unit) → (and_then c (λ _ end. (end, ok event))).1 ≡ ok e → event ≡ e
      finish (x, ok _) k = ok_injective k
      finish (x, err _) k = absurd (cc)

  -- A cascade's next node, then the rest.
  cons-IsCascaded :
      (g : Graph) (node : DelegationNode) (nodes : List DelegationNode) (x : World S)
      (event : RevocationEvent) (c : Called S E (List RevocationEvent))
      → IsKept g x.graph
      → IsMarked x.graph node.id
      → event.delegation_id ≡ node.id
      → IsCascaded x.graph nodes c
      → IsCascaded g (node ∷ nodes) (and_then c (λ events end. (end, ok (event ∷ events))))
  unfolding and_then
  cons-IsCascaded g node nodes x event (y, err e) k mk named r = record {
    kept = IsKept-trans g x.graph y.graph k r.kept;
    marked = λ events h. absurd (cc);
    named = λ events h. absurd (cc);
  }
  cons-IsCascaded g node nodes x event (y, ok found) k mk named r = record {
    kept = IsKept-trans g x.graph y.graph k r.kept;
    marked = λ events h. (r.kept.marks node.id mk, r.marked found refl);
    named = λ events h.
        let e : (event ∷ found) ≡ events = ok_injective h in
        let rest = r.named found refl in ap (map (λ v. v.delegation_id)) (sym e) ∙ cc;
  }

  step-IsCascaded :
      (g : Graph) (node : DelegationNode) (nodes : List DelegationNode) (event : RevocationEvent)
      (c : Called S E RevocationEvent) (f : World S → Called S E (List RevocationEvent))
      → IsKept g c.0.graph
      → IsMarked c.0.graph node.id
      → event.delegation_id ≡ node.id
      → ((e : RevocationEvent) → c.1 ≡ ok e → event ≡ e)
      → IsCascaded c.0.graph nodes (f c.0)
      → IsCascaded g
          (node ∷ nodes)
          (and_then c (λ e after. and_then (f after) (λ events end. (end, ok (e ∷ events)))))
  unfolding and_then
  step-IsCascaded g node nodes event (x, err e) f k mk named same r = record {
    kept = k;
    marked = λ events h. absurd (cc);
    named = λ events h. absurd (cc);
  }
  step-IsCascaded g node nodes event (x, ok e) f k mk named same r =
      cons-IsCascaded g node nodes x e (f x) k mk
        (ap (λ v. v.delegation_id) (sym (same e refl)) ∙ named) r

  pub revoke_each-IsCascaded :
      (id : String) (nodes : List DelegationNode) (w : World S)
      → IsStore w.graph
      → All (IsStored w.graph) nodes
      → IsCascaded w.graph nodes (revoke_each m id false nodes w)
  unfolding revoke_each cascaded
  revoke_each-IsCascaded id [] w s h = record {
    kept = IsKept-refl w.graph;
    marked = λ events e. tt;
    named = λ events e. ap (map (λ v. v.delegation_id)) (sym (ok_injective e));
  }
  revoke_each-IsCascaded id (node ∷ nodes) w s (there, h) =
      let c = revoke_node m node (cascaded id node) false w in
      let (k, mk) = revoke_node-IsKept m node (cascaded id node) w s there in
      step-IsCascaded w.graph node nodes (cascaded id node) c (revoke_each m id false nodes) k mk
        refl (λ e. revoke_node-event node (cascaded id node) e w)
        (revoke_each-IsCascaded id nodes c.0 (k.store s) (All-map nodes (λ n t. k.stored n.id t) h))
