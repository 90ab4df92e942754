-- ===== src/Card/Revocation/Walk.antt =====
-- What the walk over a chain's status entries shows.
use kya_os_mcp.Common.{
  ℕ, suc, ◌≡◌, refl, inl, inr, Bool, true, false, ◌&&◌, List, [], ◌∷◌, Bool-cases, and_left,
  and_right,
}
use kya_os_mcp.Card.Revocation.{
  BitstringStatusListEntry, BitstringRevocationChecker, check_hops, evaluate_revocation_chain,
}

module _ (check : BitstringRevocationChecker) where
  -- The answers from a hop on.
  abbrev pub AllLive : ℕ → List BitstringStatusListEntry → Type 0
  AllLive hop [] = Unit
  AllLive hop (e ∷ es) = ((check hop e).revoked ≡ false) × AllLive (suc hop) es

  abbrev pub AllFresh : ℕ → List BitstringStatusListEntry → Type 0
  AllFresh hop [] = Unit
  AllFresh hop (e ∷ es) = ((check hop e).fresh ≡ true) × AllFresh (suc hop) es

  check_hops-ok :
      (hop : ℕ) (fresh : Bool) (es : List BitstringStatusListEntry)
      → (check_hops check hop fresh es).ok ≡ true
      → AllLive hop es
  unfolding check_hops
  check_hops-ok hop fresh [] h = tt
  check_hops-ok hop fresh (e ∷ es) h = elim (Bool-cases (check hop e).revoked) [
    | inl r ↦ absurd (let bad = rw (r, check_hops) at h in cc)
    | inr r ↦
        (r, check_hops-ok (suc hop) (fresh && (check hop e).fresh) es (rw (r, check_hops) at h))
  ]

  check_hops-fresh :
      (hop : ℕ) (fresh : Bool) (es : List BitstringStatusListEntry)
      → (check_hops check hop fresh es).fresh ≡ true
      → (fresh ≡ true) × ((check_hops check hop fresh es).ok ≡ true) × AllFresh hop es
  unfolding check_hops
  check_hops-fresh hop fresh [] h = (h, refl, tt)
  check_hops-fresh hop fresh (e ∷ es) h = elim (Bool-cases (check hop e).revoked) [
    | inl r ↦ absurd (let bad = rw (r, check_hops) at h in cc)
    | inr r ↦
        let (both, fine, rest) =
          check_hops-fresh (suc hop) (fresh && (check hop e).fresh) es (rw (r, check_hops) at h) in
        (and_left _ _ both, rw (r, check_hops) fine, (and_right _ _ both, rest))
  ]

  AllLive→check_hops :
      (hop : ℕ) (fresh : Bool) (es : List BitstringStatusListEntry)
      → AllLive hop es
      → (check_hops check hop fresh es).ok ≡ true
  unfolding check_hops
  AllLive→check_hops hop fresh [] h = refl
  AllLive→check_hops hop fresh (e ∷ es) (r, h) =
      rw (r, check_hops) (AllLive→check_hops (suc hop) (fresh && (check hop e).fresh) es h)

  pub evaluate_revocation_chain-ok :
      (es : List BitstringStatusListEntry)
      → (evaluate_revocation_chain es check).ok ≡ true
      → AllLive 0 es
  unfolding evaluate_revocation_chain
  evaluate_revocation_chain-ok es h = check_hops-ok 0 _ es h

  pub AllLive→evaluate_revocation_chain :
      (es : List BitstringStatusListEntry)
      → AllLive 0 es
      → (evaluate_revocation_chain es check).ok ≡ true
  unfolding evaluate_revocation_chain
  AllLive→evaluate_revocation_chain es h = AllLive→check_hops 0 _ es h

  -- A fresh verdict rests on at least one status that was read, each of them fresh.
  pub evaluate_revocation_chain-fresh :
      (es : List BitstringStatusListEntry)
      → (evaluate_revocation_chain es check).fresh ≡ true
      → (first : BitstringStatusListEntry) × (rest : List BitstringStatusListEntry) × (es
          ≡ first ∷ rest)
        × AllFresh 0 es
  unfolding evaluate_revocation_chain check_hops
  evaluate_revocation_chain-fresh [] h = absurd (cc)
  evaluate_revocation_chain-fresh (e ∷ es) h =
      let (_, _, all) = check_hops-fresh 0 true (e ∷ es) h in (e, es, refl, all)
