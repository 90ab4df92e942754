-- ===== src/Delegation/Revocation/Checks.antt =====
-- What `isRevoked` reports, and dry runs.
use kya_os_mcp.Common.{
  ℕ, ◌≡◌, refl, ap, ◌∙◌, ◌≢◌, ◌⊎◌, inl, inr, Bool, true, false, if◌then◌else◌, List, [], ◌∷◌,
  Option, none, String, ◌==◌, string_eq, Bool-cases, Option-cases, All, Any, Any-All, Any-elim,
  Result, ok, err, ok_injective, ltb, length, ◌-◌, map,
}
use kya_os_mcp.Common.Map.{get}
use kya_os_mcp.Delegation.Graph.{
  DelegationNode, get_chain, chain, cycle, out_of_fuel, WalkResult, get_descendants,
}
use kya_os_mcp.Delegation.StatusEntry.{EntryReading, no_entry, bad_index, entry, node_status_entry}
use kya_os_mcp.Delegation.Graph.Walk.{IsStore, get_chain_sound}
use kya_os_mcp.Delegation.Revocation.Marks.{IsMarked}
use kya_os_mcp.Delegation.Revocation.Cascade.{revoke_delegation-IsRevoked}
use kya_os_mcp.Delegation.Revocation.{
  StatusLists, RevocationError, RevocationEvent, World, clear, and_then, revoke_node, revoke_each,
  cascaded, cascade, revoke_checked, revoke_found, revoke_delegation, depth_limit, chain_of,
  is_node_revoked, is_status_bit_set, first_revoked, is_revoked,
}

Result-cases : {A B : Type 0} (r : Result A B) → ((e : A) × (r ≡ err e)) ⊎ ((b : B) × (r ≡ ok b))
Result-cases (err e) = inl (e, refl)
Result-cases (ok b) = inr (b, refl)

module _ {S E : Type 0} (m : StatusLists S E) where
  -- The list that an entry names answers that its bit is clear; a node without an entry has none.
  abbrev pub HasClearBit : S → EntryReading → Type 0
  HasClearBit lists no_entry = Unit
  HasClearBit lists bad_index = ⊥
  HasClearBit lists (entry status) = m.check_status status lists ≡ ok false

  -- The node has neither the mark nor the bit.
  abbrev pub IsClear : S → DelegationNode → Type 0
  IsClear lists n = (n.revoked ≡ false) × HasClearBit lists (node_status_entry n)

  is_status_bit_set-clear :
      (n : DelegationNode) (lists : S)
      → is_status_bit_set m n lists ≡ ok false
      → HasClearBit lists (node_status_entry n)
  unfolding is_status_bit_set
  is_status_bit_set-clear n lists h = by_entry (node_status_entry n) refl
    where
      by_entry : (r : EntryReading) → node_status_entry n ≡ r → HasClearBit lists r
      by_entry no_entry is = tt
      by_entry bad_index is = absurd (let bad = rw (is, is_status_bit_set) at h in cc)
      by_entry (entry status) is = elim (Result-cases (m.check_status status lists)) [
        | inl (e, failed) ↦ absurd (let bad = rw (is, failed, is_status_bit_set) at h in cc)
        | inr (b, read) ↦
            let answer = rw (is, read, is_status_bit_set) at h in read ∙ ap ok (ok_injective answer)
      ]

  is_node_revoked-IsClear :
      (n : DelegationNode) (lists : S) → is_node_revoked m n lists ≡ ok false → IsClear lists n
  unfolding is_node_revoked
  is_node_revoked-IsClear n lists h = by_mark n.revoked refl h
    where
      by_mark :
          (b : Bool)
          → n.revoked ≡ b
          → (if b then ok true else is_status_bit_set m n lists) ≡ ok false
          → IsClear lists n
      by_mark true is k = absurd (cc)
      by_mark false is k = (is, is_status_bit_set-clear n lists k)

  first_revoked-clear :
      (id : String) (ns : List DelegationNode) (lists : S)
      → first_revoked m id ns lists ≡ ok clear
      → All (IsClear lists) ns
  unfolding first_revoked
  first_revoked-clear id [] lists h = tt
  first_revoked-clear id (n ∷ ns) lists h = elim (Result-cases (is_node_revoked m n lists)) [
    | inl (e, k) ↦ absurd (let bad = rw (k, first_revoked) at h in cc)
    | inr (revoked, k) ↦ elim (Bool-cases revoked) [
      | inr f ↦
          let none_here = k ∙ ap ok f in
          (
            is_node_revoked-IsClear n lists none_here,
            first_revoked-clear id ns lists (rw (none_here, first_revoked) at h),
          )
      | inl t ↦
          let here = k ∙ ap ok t in
          absurd (elim (Bool-cases (n.id == id)) [
            | inl own ↦ let bad = rw (here, own, first_revoked) at h in cc
            | inr above ↦ let bad = rw (here, above, first_revoked) at h in cc
          ])
    ]
  ]

  -- A delegation that is reported clear has a chain in which every node is unmarked and either has no
  -- status list entry, or has a readable one, for which the status lists answer that its bit is clear.
  pub is_revoked-clear :
      (id : String) (w : World S)
      → is_revoked m id w ≡ ok clear
      → (ns : List DelegationNode) × ((get_chain id w.graph ≡ chain ns) × All (IsClear w.lists) ns)
  unfolding is_revoked chain_of
  is_revoked-clear id w h = by_chain (get_chain id w.graph) refl
    where
      by_chain :
          (r : WalkResult)
          → get_chain id w.graph ≡ r
          → (ns : List DelegationNode) × ((get_chain id w.graph ≡ chain ns)
              × All (IsClear w.lists) ns)
      by_chain (chain ns) k =
          (ns, (k, first_revoked-clear id ns w.lists (rw (k, chain_of, is_revoked) at h)))
      by_chain (cycle at) k = absurd (let bad = rw (k, chain_of, is_revoked) at h in cc)
      by_chain out_of_fuel k = absurd (let bad = rw (k, chain_of, is_revoked) at h in cc)

  -- On a graph whose nodes stand under their own ids, a delegation that carries the mark, its id
  -- not empty, is never reported clear, whatever its status list answers.
  pub is_revoked-marked :
      (id : String) (w : World S)
      → IsStore w.graph
      → id ≢ ""
      → IsMarked w.graph id
      → is_revoked m id w ≢ ok clear
  is_revoked-marked id w s named (node, (stored, marked)) h =
      let (ns, (found, clean)) = is_revoked-clear id w h in
      let (_, there) = get_chain_sound id w.graph node ns s named stored found in
      let both : Any (λ n. (n ≡ node) × IsClear w.lists n) ns =
        Any-All ns (λ n same unmarked. (same, unmarked)) there clean in
      Any-elim ns (λ n at. let u = at.1.0 in let e = ap (λ x. x.revoked) at.0 in cc) both

  -- After a revocation that succeeds, on a graph whose nodes stand under their own ids, the
  -- delegation, its id not empty, is never reported clear.
  pub revoke_delegation-not_clear :
      (id : String) (reason : Option String) (depth : Option ℕ) (w : World S)
      (events : List RevocationEvent)
      → IsStore w.graph
      → id ≢ ""
      → (revoke_delegation m id reason depth false w).1 ≡ ok events
      → is_revoked m id (revoke_delegation m id reason depth false w).0 ≢ ok clear
  revoke_delegation-not_clear id reason depth w events s named done =
      let r = revoke_delegation-IsRevoked m id reason depth w s in
      is_revoked-marked id (revoke_delegation m id reason depth false w).0 (r.kept.store s) named
        (r.target events done)

  -- Dry runs

  revoke_each-dry :
      (id : String) (nodes : List DelegationNode) (w : World S)
      → revoke_each m id true nodes w ≡ (w, ok (map (cascaded id) nodes))
  unfolding revoke_each revoke_node and_then
  revoke_each-dry id [] w = refl
  revoke_each-dry id (node ∷ nodes) w =
      ap (λ c. and_then c (λ events end. (end, ok (cascaded id node ∷ events))))
        (revoke_each-dry id nodes w)

  cascade-dry :
      (id : String) (event : RevocationEvent) (w : World S) → (cascade m id true event w).0 ≡ w
  unfolding cascade and_then
  cascade-dry id event w = elim (Option-cases (get_descendants id w.graph)) [
    | inl never ↦ rw (never, cascade) refl
    | inr (nodes, found) ↦
        rw (found, cascade)
          (ap (λ c. (and_then c (λ events end. (end, ok (event ∷ events)))).0)
            (revoke_each-dry id nodes w))
  ]

  checked-dry :
      (id : String) (reason : Option String) (depth : Option ℕ) (node : DelegationNode)
      (r : Result (RevocationError E) (List DelegationNode)) (w : World S)
      → (revoke_checked m id reason depth true node r w).0 ≡ w
  unfolding revoke_checked revoke_found revoke_node and_then
  checked-dry id reason depth node (err e) w = refl
  checked-dry id reason depth node (ok above) w =
      elim (Bool-cases (ltb (depth_limit depth) (length above - 1))) [
        | inl deep ↦ rw (deep, revoke_found) refl
        | inr fits ↦
            rw (fits, revoke_found)
              (cascade-dry id
                (record {
                  delegation_id = node.id;
                  is_root = true;
                  parent_id = none;
                  reason = reason;
                })
                w)
      ]

  -- A dry run changes neither the graph nor the status lists.
  pub revoke_delegation-dry_run :
      (id : String) (reason : Option String) (depth : Option ℕ) (w : World S)
      → (revoke_delegation m id reason depth true w).0 ≡ w
  unfolding revoke_delegation
  revoke_delegation-dry_run id reason depth w = elim (Option-cases (get id w.graph)) [
    | inl absent ↦ rw (absent, revoke_delegation) refl
    | inr (node, stored) ↦
        rw (stored, revoke_delegation) (checked-dry id reason depth node (chain_of id w) w)
  ]
