-- ===== src/Delegation/Revocation/Marks.antt =====
-- The marks that revocation leaves in the graph, on every path.
use kya_os_mcp.Common.{
  ◌≡◌, refl, sym, ap, ◌∙◌, ◌≢◌, inl, inr, Bool, true, false, none, some, String, ◌==◌, string_eq,
  ==_refl, Bool-cases, Option-cases, ok, err,
}
use mathlib.Core.Path.{subst}
use kya_os_mcp.Common.Map.{get, set, get-set}
use kya_os_mcp.Delegation.Graph.{DelegationNode, Graph, set_revoked}
use kya_os_mcp.Delegation.Graph.Walk.{IsStore}
use kya_os_mcp.Delegation.Graph.Forest.{set-cases, set-ne-none}
use kya_os_mcp.Delegation.StatusEntry.{EntryReading, no_entry, bad_index, entry, node_status_entry}
use kya_os_mcp.Delegation.Revocation.{
  StatusLists, RevocationEvent, World, Called, and_then, mark, update, publish, revoke_node,
}

-- The node is stored and carries the mark.
abbrev pub IsMarked : Graph → String → Type 0
IsMarked nodes id = (node : DelegationNode) × ((get id nodes ≡ some node) × (node.revoked ≡ true))

-- What marking nodes keeps: the store, and every mark.
pub record IsKept (before after : Graph) : Type 0 where
  pub store : IsStore before → IsStore after
  pub marks : (id : String) → IsMarked before id → IsMarked after id
  pub stored : (id : String) → get id before ≢ none → get id after ≢ none

pub IsKept-refl : (g : Graph) → IsKept g g
IsKept-refl g = record { store = λ s. s; marks = λ id m. m; stored = λ id t. t }

pub IsKept-trans : (a b c : Graph) → IsKept a b → IsKept b c → IsKept a c
IsKept-trans a b c h k = record {
  store = λ s. k.store (h.store s);
  marks = λ id m. k.marks id (h.marks id m);
  stored = λ id t. k.stored id (h.stored id t);
}

abbrev pub marked_node : DelegationNode → DelegationNode
marked_node node = record node { revoked = true }

set-IsMarked :
    (node : DelegationNode) (g : Graph) (id : String)
    → IsMarked g id
    → IsMarked (set node.id (marked_node node) g) id
set-IsMarked node g id (n, (there, m)) = elim (Bool-cases (node.id == id)) [
  | inl same ↦ (marked_node node, (get-set node.id id (marked_node node) g ∙ rw same refl, refl))
  | inr other ↦ (n, (get-set node.id id (marked_node node) g ∙ rw other there, m))
]

set-IsKept : (node : DelegationNode) (g : Graph) → IsKept g (set node.id (marked_node node) g)
set-IsKept node g = record {
  store = λ s id n there. elim (set-cases node.id id (marked_node node) n g there) [
    | inl (same, written) ↦ ap (λ m. m.id) (sym written) ∙ same
    | inr (_, before) ↦ s id n before
  ];
  marks = λ id m. set-IsMarked node g id m;
  stored = λ id t. set-ne-none node.id id (marked_node node) g t;
}

module _ (E : Type 0) {S : Type 0} where
  -- A mark that is written: the store keeps what it had, and the node is marked.
  mark-IsMarked :
      (id : String) (w : World S)
      → IsStore w.graph
      → get id w.graph ≢ none
      → IsKept w.graph (mark {S = S} {E = E} id true w).0.graph
        × IsMarked (mark {S = S} {E = E} id true w).0.graph id
  unfolding mark set_revoked
  mark-IsMarked id w store there = elim (Option-cases (get id w.graph)) [
    | inl absent ↦ absurd (there absent)
    | inr (node, stored) ↦
        let own = store id node stored in
        rw (stored, set_revoked, mark)
          (
            set-IsKept node w.graph,
            (
              marked_node node,
              (get-set node.id id (marked_node node) w.graph ∙ rw (own, ==_refl id) refl, refl),
            ),
          )
  ]

module _ {S E : Type 0} (m : StatusLists S E) where
  publish-graph :
      (node : DelegationNode) (r : EntryReading) (b : Bool) (w : World S)
      → (publish m node r b w).0.graph ≡ w.graph
  unfolding publish update
  publish-graph node no_entry true w = refl
  publish-graph node no_entry false w = refl
  publish-graph node bad_index b w = refl
  publish-graph node (entry status) b w = refl

  -- Whether or not the bit is published, revoking a stored node marks it, and keeps every mark.
  pub revoke_node-IsKept :
      (node : DelegationNode) (event : RevocationEvent) (w : World S)
      → IsStore w.graph
      → get node.id w.graph ≢ none
      → IsKept w.graph (revoke_node m node event false w).0.graph
        × IsMarked (revoke_node m node event false w).0.graph node.id
  unfolding revoke_node and_then
  revoke_node-IsKept node event w store there =
      after (mark node.id true w) (mark-IsMarked E node.id w store there)
    where
      IsDone : World S → Type 0
      IsDone after = IsKept w.graph after.graph × IsMarked after.graph node.id

      finish : (c : Called S E Unit) → IsDone c.0 → IsDone (and_then c (λ _ end. (end, ok event))).0
      finish (x, ok _) h = h
      finish (x, err e) h = h

      after :
          (c : Called S E Bool)
          → IsDone c.0
          → IsDone
              (and_then
                (and_then c (publish m node (node_status_entry node)))
                (λ _ end. (end, ok event))).0
      after (x, err e) h = h
      after (x, ok b) h = finish (publish m node (node_status_entry node) b x) (
          subst (λ g. IsKept w.graph g × IsMarked g node.id)
            (sym (publish-graph node (node_status_entry node) b x)) h)

  -- The graph that revoking a stored node leaves: it with the mark, and nothing else changed.
  pub revoke_node-graph :
      (node : DelegationNode) (event : RevocationEvent) (w : World S)
      → get node.id w.graph ≡ some node
      → (revoke_node m node event false w).0.graph ≡ set node.id (marked_node node) w.graph
  unfolding revoke_node and_then mark set_revoked
  revoke_node-graph node event w stored =
      after (mark node.id true w) (rw (stored, set_revoked, mark) refl)
    where
      finish :
          (g : Graph) (c : Called S E Unit)
          → c.0.graph ≡ g
          → (and_then c (λ _ end. (end, ok event))).0.graph ≡ g
      finish g (x, ok _) h = h
      finish g (x, err e) h = h

      after :
          {g : Graph} (c : Called S E Bool)
          → c.0.graph ≡ g
          → (and_then
              (and_then c (publish m node (node_status_entry node)))
              (λ _ end. (end, ok event))).0.graph
            ≡ g
      after (x, err e) h = h
      after (x, ok b) h =
          finish _ (publish m node (node_status_entry node) b x)
            (publish-graph node (node_status_entry node) b x ∙ h)

  -- On a graph whose nodes stand under their own ids, revoking a stored node leaves it marked,
  -- whether or not its status bit can then be read or published.
  pub revoke_node-IsMarked :
      (node : DelegationNode) (event : RevocationEvent) (w : World S)
      → IsStore w.graph
      → get node.id w.graph ≢ none
      → IsMarked (revoke_node m node event false w).0.graph node.id
  revoke_node-IsMarked node event w store there = (revoke_node-IsKept node event w store there).1
