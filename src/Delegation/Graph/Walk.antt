-- ===== src/Delegation/Graph/Walk.antt =====
-- `getChain`: it ends on every graph, and what it returns is linked, root first.
use kya_os_mcp.Common.{
  ℕ, zero, suc, ◌<◌, ◌≡◌, refl, sym, ap, ◌∙◌, ◌≢◌, inl, inr, false, List, [], ◌∷◌, Option, none,
  some, String, arith, ◌==◌, string_eq, option_eq, ==_iff, includes, length, missing_from,
  length-missing_from-lt, Bool-cases, Option-cases, Any,
}
use mathlib.Core.Path.{subst}
use kya_os_mcp.Common.Map.{get, keys, includes-keys, length-keys}
use kya_os_mcp.Delegation.Graph.{
  DelegationNode, Graph, chain, out_of_fuel, walk_up, get_chain, wrong_parent, validate_links,
  validate_nodes,
}

unvisited_nodes : List String → Graph → ℕ
unvisited_nodes visited nodes = length (missing_from visited (keys nodes))

-- One round of the walk, at an id that is not the empty string.
walk_up_round :
    (fuel : ℕ) (nodes : Graph) (visited : List String) (found : List DelegationNode) (id : String)
    (node : DelegationNode)
    → (id == "") ≡ false
    → includes id visited ≡ false
    → get id nodes ≡ some node
    → walk_up (suc fuel) nodes visited found (some id)
      ≡ walk_up fuel nodes (id ∷ visited) (node ∷ found) node.parent_id
unfolding walk_up
walk_up_round fuel nodes visited found id node named new stored = rw (named, new, stored, walk_up)

length-missing_from-nil : (ids : List String) → length (missing_from [] ids) ≡ length ids
length-missing_from-nil [] = refl
length-missing_from-nil (id ∷ ids) = ap suc (length-missing_from-nil ids)

walk_up_total :
    (fuel : ℕ) (nodes : Graph) (visited : List String) (found : List DelegationNode)
    (current : Option String)
    → unvisited_nodes visited nodes < fuel
    → walk_up fuel nodes visited found current ≢ out_of_fuel
unfolding walk_up unvisited_nodes
walk_up_total zero nodes visited found current h = elim h [ ]
walk_up_total (suc fuel) nodes visited found none h = cc
walk_up_total (suc fuel) nodes visited found (some id) h = elim (Bool-cases (id == "")) [
  | inl stop ↦ rw (stop, walk_up) (cc)
  | inr named ↦ elim (Bool-cases (includes id visited)) [
    | inl again ↦ rw (named, again, walk_up) (cc)
    | inr new ↦ elim (Option-cases (get id nodes)) [
      | inl absent ↦ rw (named, new, absent, walk_up) (cc)
      | inr (node, stored) ↦
          rw (named, new, stored, walk_up)
            (walk_up_total fuel nodes (id ∷ visited) (node ∷ found) node.parent_id (
              omega (
                arith,
                length-missing_from-lt id visited (keys nodes) new
                    (includes-keys id node nodes stored),
              )))
    ]
  ]
]

total_rounds : (nodes : Graph) → unvisited_nodes [] nodes < suc (length nodes)
unfolding unvisited_nodes
total_rounds nodes = omega (arith, length-missing_from-nil (keys nodes), length-keys nodes)

-- `getChain` always answers: the rounds suffice, on any graph, cyclic or not.
pub get_chain_total : (id : String) (nodes : Graph) → get_chain id nodes ≢ out_of_fuel
unfolding get_chain
get_chain_total id nodes =
    walk_up_total (suc (length nodes)) nodes [] [] (some id) (total_rounds nodes)

-- Every node is stored under its own id.
abbrev pub IsStore : Graph → Type 0
IsStore nodes = (id : String) (node : DelegationNode) → get id nodes ≡ some node → node.id ≡ id

-- Each node names the one before it as its parent.
abbrev pub IsLinked : List DelegationNode → Type 0
IsLinked [] = Unit
IsLinked (n ∷ []) = Unit
IsLinked (p ∷ c ∷ ns) = (c.parent_id ≡ some p.id) × IsLinked (c ∷ ns)

abbrev HasParent : List DelegationNode → Option String → Type 0
HasParent [] current = Unit
HasParent (n ∷ ns) current = n.parent_id ≡ current

IsLinked-cons :
    (node : DelegationNode) (found : List DelegationNode)
    → IsLinked found
    → HasParent found (some node.id)
    → IsLinked (node ∷ found)
IsLinked-cons node [] h k = tt
IsLinked-cons node (n ∷ found) h k = (k, h)

-- What the walk has found stays at the end of its answer, and the answer is linked.
module _ (nodes : Graph) (store : IsStore nodes) (x : DelegationNode) where
  walk_up_sound :
      (fuel : ℕ) (visited : List String) (found : List DelegationNode) (current : Option String)
      (ns : List DelegationNode)
      → IsLinked found
      → HasParent found current
      → walk_up fuel nodes visited found current ≡ chain ns
      → IsLinked ns × (Any (λ m. m ≡ x) found → Any (λ m. m ≡ x) ns)
  unfolding walk_up
  walk_up_sound zero visited found current ns h k e = absurd (cc)
  walk_up_sound (suc fuel) visited found none ns h k e =
      let same : found ≡ ns = cc in (subst IsLinked same h, subst (Any (λ m. m ≡ x)) same)
  walk_up_sound (suc fuel) visited found (some id) ns h k e = elim (Bool-cases (id == "")) [
    | inl stop ↦ stopped (rw (stop, walk_up) at e)
    | inr named ↦ elim (Bool-cases (includes id visited)) [
      | inl again ↦ absurd (let bad = rw (named, again, walk_up) at e in cc)
      | inr new ↦ elim (Option-cases (get id nodes)) [
        | inl absent ↦ stopped (rw (named, new, absent, walk_up) at e)
        | inr (node, stored) ↦
            let own = store id node stored in
            let (linked, kept) =
              walk_up_sound fuel (id ∷ visited) (node ∷ found) node.parent_id ns
                (IsLinked-cons node found h (subst (λ i. HasParent found (some i)) (sym own) k))
                refl (rw (named, new, stored, walk_up) at e) in
            (linked, λ a. kept (inr a))
      ]
    ]
  ]
    where
      stopped :
          chain found ≡ chain ns → IsLinked ns × (Any (λ m. m ≡ x) found → Any (λ m. m ≡ x) ns)
      stopped same =
          let e : found ≡ ns = cc same in (subst IsLinked e h, subst (Any (λ m. m ≡ x)) e)

-- On a graph whose nodes stand under their own ids, the chain of a stored delegation, its id not
-- empty, holds its node, and each node in it names the one before it as its parent.
pub get_chain_sound :
    (id : String) (nodes : Graph) (node : DelegationNode) (ns : List DelegationNode)
    → IsStore nodes
    → id ≢ ""
    → get id nodes ≡ some node
    → get_chain id nodes ≡ chain ns
    → IsLinked ns × Any (λ m. m ≡ node) ns
unfolding get_chain
get_chain_sound id nodes node ns store named stored e =
    let other : (id == "") ≡ false = ground (arith, ==_iff id "") in
    let first = walk_up_round (length nodes) nodes [] [] id node other refl stored in
    let (linked, kept) =
      walk_up_sound nodes store node (length nodes) (id ∷ []) (node ∷ []) node.parent_id ns tt refl
        (sym first ∙ e) in
    (linked, kept (inl refl))

validate_links-IsLinked :
    (p : DelegationNode) (ns : List DelegationNode) (id : String)
    → IsLinked (p ∷ ns)
    → validate_links p ns ≢ wrong_parent id
unfolding validate_links
validate_links-IsLinked p [] id h = cc
validate_links-IsLinked p (c ∷ ns) id (e, h) =
    ground (arith, ==_iff c.parent_id (some p.id), validate_links-IsLinked c ns id h)

-- On a chain each of whose nodes names the one before it as its parent, `validateChain` never
-- objects to a parent.
pub validate_nodes-IsLinked :
    (ns : List DelegationNode) (id : String) → IsLinked ns → validate_nodes ns ≢ wrong_parent id
unfolding validate_nodes
validate_nodes-IsLinked [] id h = cc
validate_nodes-IsLinked (p ∷ ns) id h = validate_links-IsLinked p ns id h
