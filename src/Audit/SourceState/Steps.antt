-- ===== src/Audit/SourceState/Steps.antt =====
-- Abandonments and emissions in a source's state of src/audit/providers/source-state.ts.
use kya_os_mcp.Common.{
  ℕ, ◌-◌, ◌≡◌, ◌≢◌, refl, sym, ap, ◌∙◌, inl, inr, false, Option, none, some, some-injective, String,
  arith, ◌==◌, string_eq, option_eq, nat_eq, ==_iff, Bool-cases, Option-cases, and_left, and_right,
}
use kya_os_mcp.Common.Map.{Map, get, set, delete, length-set, length-delete-lt}
use kya_os_mcp.Audit.SourceState.{
  SourceClaim, SourceState, is_abandonable, abandon, emits, emit, left,
}
use kya_os_mcp.Audit.SourceState.Maps.{
  set-cases, get-set_other, get-set_own, delete-kept, get-delete_other, length-delete_lem,
  delete-IsAscending, ascending-IsMap,
}
use kya_os_mcp.Audit.SourceState.Sound.{IsSound}

module _ (event : String) (c : SourceClaim) (s : SourceState) (h : IsSound s)
    (own : get event s.claims ≡ some c) where
  -- A claim with another's sequence is that claim.
  same_event :
      (e : String) (d : SourceClaim)
      → get e s.claims ≡ some d
      → (event == e) ≡ false
      → (c.sequence == d.sequence) ≡ false
  same_event e d at other = elim (Bool-cases (c.sequence == d.sequence)) [
    | inr apart ↦ apart
    | inl eq ↦ absurd (
        let q = h.distinct event e c d own at ((==_iff c.sequence d.sequence).0 eq) in
        let bad = (==_iff event e).1 q in cc)
  ]

  unemitted_pending : c.event_digest ≡ none → get c.sequence s.pending ≡ some event
  unemitted_pending bare = elim (h.held event c own) [
    | inl p ↦ p
    | inr r ↦
        let (d, digest, at, free, emitted) = h.retained_claimed event r in
        let same : d ≡ c = some-injective (sym at ∙ own) in
        absurd (let q = ap (λ x. x.event_digest) same in cc)
  ]

  abandoned-IsSound :
      c.event_digest ≡ none
      → c.sequence ≡ s.next
      → IsSound (record s {
        next = s.next - 1;
        pending = delete c.sequence s.pending;
        claims = delete event s.claims;
        latest_digest = c.previous_source_event_digest;
      })
  abandoned-IsSound bare last = record {
    ascending = delete-IsAscending c.sequence 0 s.pending h.ascending;
    pending_claimed = λ n e at.
        let (other, before) = delete-kept c.sequence n e s.pending at in
        let (d, mine, is) = h.pending_claimed n e before in
        elim (Bool-cases (event == e)) [
          | inl same ↦
              let q : c ≡ d =
                some-injective
                  (sym own ∙ ap (λ i. get i s.claims) ((==_iff event e).0 same) ∙ mine) in
              absurd (let bad = (==_iff c.sequence n).1 (ap (λ x. x.sequence) q ∙ is) in cc)
          | inr apart ↦ (d, get-delete_other event e s.claims apart ∙ mine, is)
        ];
    within = λ e d at.
        let (other, before) = delete-kept event e d s.claims at in
        let apart = same_event e d before other in
        let le = h.within e d before in
        let no : c.sequence ≢ d.sequence =
          λ q. let bad = (==_iff c.sequence d.sequence).1 q in cc in
        omega arith;
    held = λ e d at.
        let (other, before) = delete-kept event e d s.claims at in
        elim (h.held e d before) [
          | inl p ↦
              inl
                (get-delete_other c.sequence d.sequence s.pending (same_event e d before other) ∙ p)
          | inr r ↦ inr r
        ];
    retained_claimed = λ e at.
        let (d, digest, mine, free, emitted) = h.retained_claimed e at in
        elim (Bool-cases (event == e)) [
          | inl same ↦
              let q : c ≡ d =
                some-injective
                  (sym own ∙ ap (λ i. get i s.claims) ((==_iff event e).0 same) ∙ mine) in
              absurd (let bad = ap (λ x. x.event_digest) q in cc)
          | inr apart ↦ (
            d,
            digest,
            get-delete_other event e s.claims apart ∙ mine,
            get-delete_other c.sequence d.sequence s.pending (same_event e d mine apart) ∙ free,
            emitted,
          )
        ];
    distinct = λ e f d d' at to eq.
        h.distinct e f d d' (delete-kept event e d s.claims at).1
          (delete-kept event f d' s.claims to).1 eq;
    retained_once = h.retained_once;
    counted =
        let p =
          length-delete_lem c.sequence event s.pending (ascending-IsMap 0 s.pending h.ascending)
            (unemitted_pending bare) in
        let q = length-delete-lt event c s.claims own in let b = h.counted in omega arith;
  }

  module _ (digest : String) (latest : Option String) where
    abbrev emitted : SourceClaim
    emitted = record c { event_digest = some digest }

    abbrev marked : Map String SourceClaim
    marked = set event emitted s.claims

    -- The claims are those before, but for the digest.
    marked_claim :
        (e : String) (d : SourceClaim)
        → get e marked ≡ some d
        → (d' : SourceClaim) × (get e s.claims ≡ some d') × (d'.sequence ≡ d.sequence)
    marked_claim e d at = elim (set-cases event e emitted d s.claims at) [
      | inl (is, new) ↦ (c, ap (λ i. get i s.claims) (sym is) ∙ own, ap (λ x. x.sequence) new)
      | inr before ↦ (d, before, refl)
    ]

    claim_marked :
        (e : String) (d : SourceClaim)
        → get e s.claims ≡ some d
        → (d' : SourceClaim) × (get e marked ≡ some d')
          × (d'.sequence ≡ d.sequence)
          × ((x : String) → d.event_digest ≡ some x → (y : String) × (d'.event_digest ≡ some y))
    claim_marked e d at = elim (Bool-cases (event == e)) [
      | inr apart ↦ (d, get-set_other event e emitted s.claims apart ∙ at, refl, λ x q. (x, q))
      | inl same ↦
          let is = (==_iff event e).0 same in
          (
            emitted,
            ap (λ i. get i marked) (sym is) ∙ get-set_own event emitted s.claims,
            ap (λ x. x.sequence) (some-injective (sym own ∙ ap (λ i. get i s.claims) is ∙ at)),
            λ x q. (digest, refl),
          )
    ]

    emitted-IsSound : IsSound (record s { claims = marked; latest_digest = latest })
    emitted-IsSound = record {
      ascending = h.ascending;
      pending_claimed = λ n e at.
          let (d, mine, is) = h.pending_claimed n e at in
          let (d', now, same, keeps) = claim_marked e d mine in (d', now, same ∙ is);
      within = λ e d at.
          let (d', before, same) = marked_claim e d at in
          let le = h.within e d' before in omega arith;
      held = λ e d at.
          let (d', before, same) = marked_claim e d at in
          elim (h.held e d' before) [
            | inl p ↦ inl (ap (λ n. get n s.pending) (sym same) ∙ p)
            | inr r ↦ inr r
          ];
      retained_claimed = λ e at.
          let (d, x, mine, free, has) = h.retained_claimed e at in
          let (d', now, same, keeps) = claim_marked e d mine in
          let (y, still) = keeps x has in
          (d', y, now, ap (λ n. get n s.pending) same ∙ free, still);
      distinct = λ e f d d' at to eq.
          let (d1, before1, same1) = marked_claim e d at in
          let (d2, before2, same2) = marked_claim f d' to in
          h.distinct e f d1 d2 before1 before2 (same1 ∙ eq ∙ sym same2);
      retained_once = h.retained_once;
      counted = let e = length-set event emitted c s.claims own in let b = h.counted in omega arith;
    }

pub abandon-IsSound :
    (event : String) (sequence : ℕ) (s : SourceState)
    → IsSound s
    → IsSound (abandon event sequence s)
unfolding abandon
abandon-IsSound event sequence s h = elim (Option-cases (get event s.claims)) [
  | inl absent ↦ rw (absent, abandon) h
  | inr (c, own) ↦ elim (Bool-cases (is_abandonable s.next sequence c)) [
    | inr not_last ↦ rw (own, not_last, abandon) h
    | inl last ↦
        let free = and_right (c.sequence == sequence) _ last in
        rw (own, last, abandon)
          (abandoned-IsSound event c s h own
            ((==_iff c.event_digest none).0 (and_left _ (c.sequence == s.next) free))
            ((==_iff c.sequence s.next).0 (and_right (c.event_digest == none) _ free)))
  ]
]

pub emit-IsSound :
    (event : String) (sequence : ℕ) (digest : String) (s : SourceState)
    → IsSound s
    → IsSound (left s (emit event sequence digest s))
unfolding emit
emit-IsSound event sequence digest s h = elim (Option-cases (get event s.claims)) [
  | inl absent ↦ rw (absent, emit) h
  | inr (c, own) ↦ elim (Bool-cases (c.sequence == sequence)) [
    | inr other ↦ rw (own, other, emit) h
    | inl here ↦ elim (Bool-cases (emits c digest)) [
      | inr conflict ↦ rw (own, here, conflict, emit) h
      | inl fits ↦ rw (own, here, fits, emit) (emitted-IsSound event c s h own digest _)
    ]
  ]
]

pub abandon-retained :
    (event : String) (sequence : ℕ) (s : SourceState)
    → (abandon event sequence s).retained ≡ s.retained
unfolding abandon
abandon-retained event sequence s = elim (Option-cases (get event s.claims)) [
  | inl absent ↦ rw (absent, abandon) refl
  | inr (c, own) ↦ elim (Bool-cases (is_abandonable s.next sequence c)) [
    | inr not_last ↦ rw (own, not_last, abandon) refl
    | inl last ↦ rw (own, last, abandon) refl
  ]
]

pub emit-retained :
    (event : String) (sequence : ℕ) (digest : String) (s : SourceState)
    → (left s (emit event sequence digest s)).retained ≡ s.retained
unfolding emit
emit-retained event sequence digest s = elim (Option-cases (get event s.claims)) [
  | inl absent ↦ rw (absent, emit) refl
  | inr (c, own) ↦ elim (Bool-cases (c.sequence == sequence)) [
    | inr other ↦ rw (own, other, emit) refl
    | inl here ↦ elim (Bool-cases (emits c digest)) [
      | inr conflict ↦ rw (own, here, conflict, emit) refl
      | inl fits ↦ rw (own, here, fits, emit) refl
    ]
  ]
]
