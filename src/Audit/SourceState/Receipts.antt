-- ===== src/Audit/SourceState/Receipts.antt =====
-- Receipts in a source's state of src/audit/providers/source-state.ts, and the redelivery window.
use kya_os_mcp.Common.{
  ℕ, ◌≤◌, ◌≡◌, refl, sym, ap, ◌∙◌, inl, inr, Bool, true, false, ◌||◌, [], ◌∷◌, Option, none, some,
  some-injective, String, arith, ltb, leb, le_of_leb, ◌==◌, string_eq, nat_eq, ==_iff, ==_refl,
  Bool-cases, Option-cases, if◌then◌else◌, length,
}
use kya_os_mcp.Common.Map.{Map, get, set, delete, get-delete, set-IsMap, length-delete-lt}
use kya_os_mcp.Audit.SourceState.{
  SourceClaim, SourceState, EventSet, left, moved, forget_oldest, receipt,
}
use kya_os_mcp.Audit.SourceState.Maps.{
  length-set_new, set-cases, get-set_other, get-set_own, delete-kept, get-delete_other,
  length-delete_lem, delete-IsAscending, ascending-IsMap,
}
use kya_os_mcp.Audit.SourceState.Sound.{IsSound}

-- The event that is pending at the sequence, if any, was emitted.
abbrev pub IsEmitted : ℕ → SourceState → Type 0
IsEmitted sequence s =
    (event : String) (c : SourceClaim)
    → get sequence s.pending ≡ some event
    → get event s.claims ≡ some c
    → (digest : String) × (c.event_digest ≡ some digest)

module _ (sequence : ℕ) (event : String) (s : SourceState) (h : IsSound s)
    (at : get sequence s.pending ≡ some event) where
  unretained : get event s.retained ≡ none
  unretained = elim (Option-cases (get event s.retained)) [
    | inl absent ↦ absent
    | inr (u, there) ↦
        let (c, digest, own, free, emitted) = h.retained_claimed event there in
        let (d, mine, is) = h.pending_claimed sequence event at in
        let q = ap (λ x. get x.sequence s.pending) (some-injective (sym own ∙ mine)) in
        absurd (let bad = sym free ∙ q ∙ ap (λ n. get n s.pending) is ∙ at in cc)
  ]

  moved-IsSound : IsEmitted sequence s → IsSound (moved sequence event s)
  moved-IsSound shown = record {
    ascending = delete-IsAscending sequence 0 s.pending h.ascending;
    pending_claimed = λ n e to. h.pending_claimed n e (delete-kept sequence n e s.pending to).1;
    within = h.within;
    held = λ e d mine. elim (Bool-cases (sequence == d.sequence)) [
      | inl same ↦
          let (c, own, is) = h.pending_claimed sequence event at in
          let q = h.distinct event e c d own mine (is ∙ (==_iff sequence d.sequence).0 same) in
          inr (ap (λ i. get i (set event tt s.retained)) (sym q) ∙ get-set_own event tt s.retained)
      | inr apart ↦ elim (h.held e d mine) [
        | inl p ↦ inl (get-delete_other sequence d.sequence s.pending apart ∙ p)
        | inr r ↦ elim (Bool-cases (event == e)) [
          | inl same ↦ inr (
              ap (λ i. get i (set event tt s.retained)) (sym ((==_iff event e).0 same))
              ∙ get-set_own event tt s.retained)
          | inr other ↦ inr (get-set_other event e tt s.retained other ∙ r)
        ]
      ]
    ];
    retained_claimed = λ e there. elim (set-cases event e tt tt s.retained there) [
      | inl (is, u) ↦
          let (c, own, same) = h.pending_claimed sequence event at in
          let (digest, emitted) = shown event c at own in
          (
            c,
            digest,
            ap (λ i. get i s.claims) (sym is) ∙ own,
            get-delete sequence c.sequence s.pending
                ∙ rw ((==_iff sequence c.sequence).1 (sym same)) refl,
            emitted,
          )
      | inr before ↦
          let (c, digest, own, free, emitted) = h.retained_claimed e before in
          (
            c,
            digest,
            own,
            get-delete sequence c.sequence s.pending ∙ absent_if (sequence == c.sequence) _ free,
            emitted,
          )
    ];
    distinct = h.distinct;
    retained_once = set-IsMap event tt s.retained h.retained_once;
    counted =
        let p =
          length-delete_lem sequence event s.pending (ascending-IsMap 0 s.pending h.ascending) at in
        let r = length-set_new event tt s.retained unretained in let b = h.counted in omega arith;
  }
    where
      absent_if : (b : Bool) (o : Option String) → o ≡ none → (if b then none else o) ≡ none
      absent_if true o q = refl
      absent_if false o q = q

module _ (s : SourceState) where
  -- Without its oldest retained event.
  evicted-IsSound :
      (oldest : String) (u : Unit {0}) (retained : EventSet) (claims : Map String SourceClaim)
      → IsSound (record s { retained = (oldest, u) ∷ retained; claims = claims })
      → IsSound (record s { retained = retained; claims = delete oldest claims })
  unfolding get
  evicted-IsSound oldest u retained claims h = record {
    ascending = h.ascending;
    pending_claimed = λ n e at.
        let (d, mine, is) = h.pending_claimed n e at in
        (d, get-delete_other oldest e claims (unpending n e d at mine is) ∙ mine, is);
    within = λ e d at. h.within e d (delete-kept oldest e d claims at).1;
    held = λ e d at.
        let (other, before) = delete-kept oldest e d claims at in
        elim (h.held e d before) [ inl p ↦ inl p | inr r ↦ inr (rw (other, get) at r) ];
    retained_claimed = λ e there.
        let (c, digest, own, free, emitted) = h.retained_claimed e (still e there) in
        (c, digest, get-delete_other oldest e claims (other e there) ∙ own, free, emitted);
    distinct = λ e f c d at to eq.
        h.distinct e f c d (delete-kept oldest e c claims at).1 (delete-kept oldest f d claims to).1
          eq;
    retained_once = h.retained_once.1;
    counted =
        let (c, digest, own, free, emitted) = h.retained_claimed oldest first in
        let q = length-delete-lt oldest c claims own in let b = h.counted in omega arith;
  }
    where
      first : get oldest ((oldest, u) ∷ retained) ≡ some tt
      first = rw (==_refl oldest, get) refl

      other : (e : String) → get e retained ≡ some tt → (oldest == e) ≡ false
      other e there = elim (Bool-cases (oldest == e)) [
        | inr apart ↦ apart
        | inl same ↦ absurd (
            let bad = ap (λ i. get i retained) ((==_iff oldest e).0 same) in
            let fresh = h.retained_once.0 in cc)
      ]

      still : (e : String) → get e retained ≡ some tt → get e ((oldest, u) ∷ retained) ≡ some tt
      still e there = rw (other e there, get) there

      unpending :
          (n : ℕ) (e : String) (d : SourceClaim)
          → get n s.pending ≡ some e
          → get e claims ≡ some d
          → d.sequence ≡ n
          → (oldest == e) ≡ false
      unpending n e d at mine is = elim (Bool-cases (oldest == e)) [
        | inr apart ↦ apart
        | inl same ↦
            let (c, digest, own, free, emitted) = h.retained_claimed oldest first in
            let q : c ≡ d =
              some-injective (sym own ∙ ap (λ i. get i claims) ((==_iff oldest e).0 same) ∙ mine) in
            absurd (
              let bad =
                sym free
                ∙ ap (λ x. get x.sequence s.pending) q
                ∙ ap (λ n. get n s.pending) is
                ∙ at in
              cc)
      ]

  forget_oldest-IsSound :
      (window : ℕ) (retained : EventSet) (claims : Map String SourceClaim)
      → IsSound (record s { retained = retained; claims = claims })
      → IsSound (record s {
        retained = (forget_oldest window retained claims).0;
        claims = (forget_oldest window retained claims).1;
      })
        × (length (forget_oldest window retained claims).0 ≤ window)
  unfolding forget_oldest
  forget_oldest-IsSound window [] claims h = (h, omega arith)
  forget_oldest-IsSound window ((oldest, u) ∷ retained) claims h =
      elim (Bool-cases (leb (length ((oldest, u) ∷ retained)) window)) [
        | inl fits ↦ rw (fits, forget_oldest) (h, le_of_leb _ window fits)
        | inr full ↦
            rw (full, forget_oldest)
              (forget_oldest-IsSound window retained (delete oldest claims)
                (evicted-IsSound oldest u retained claims h))
      ]

-- A receipt after the emission.
pub receipt-IsSound :
    (window sequence : ℕ) (s : SourceState)
    → IsSound s
    → length s.retained ≤ window
    → IsEmitted sequence s
    → IsSound (left s (receipt window sequence s))
      × (length (left s (receipt window sequence s)).retained ≤ window)
unfolding receipt
receipt-IsSound window sequence s h le shown =
    elim (Bool-cases (ltb sequence 1 || ltb s.next sequence)) [
      | inl outside ↦ rw (outside, receipt) (h, le)
      | inr inside ↦ elim (Option-cases (get sequence s.pending)) [
        | inl absent ↦ rw (inside, absent, receipt) (h, le)
        | inr (event, at) ↦
            rw (inside, at, receipt)
              (forget_oldest-IsSound (moved sequence event s) window (set event tt s.retained)
                s.claims (moved-IsSound sequence event s h at shown))
      ]
    ]
