-- ===== src/Audit/SourceState/Sound.antt =====
-- The invariant of a source's state of src/audit/providers/source-state.ts, and its claims.
use kya_os_mcp.Common.{
  ℕ, ◌+◌, ◌≤◌, ◌<◌, ◌≡◌, refl, sym, ap, ◌∙◌, ◌⊎◌, inl, inr, [], ◌∷◌, none, some, String, arith,
  ◌==◌, string_eq, option_eq, nat_eq, ==_iff, ==_refl, Bool-cases, Option-cases, length,
  length-append,
}
use kya_os_mcp.Common.Map.{
  Map, get, set, delete, has, keys, get-set, get-delete, IsMap, set-IsMap, delete-IsMap,
  keys-set_new, length-keys,
}
use kya_os_mcp.Audit.SourceState.{
  SourceClaim, SourceState, EventSet, created, refreshed, next_claim, claim,
}
use kya_os_mcp.Audit.SourceState.Maps.{
  length-set_new, set-cases, get-set_other, get-set_own, IsAscending, length-delete_lem,
  set-IsAscending,
}

-- Every pending sequence is that of a claim; a claim is pending or retained, and retained only once it
-- was emitted; no two claims share a sequence, and none is above the last; and there is no claim beside
-- the pending and the retained ones.
pub record IsSound (s : SourceState) : Type 0 where
  pub ascending : IsAscending 0 s.pending
  pub pending_claimed :
      (n : ℕ) (e : String)
      → get n s.pending ≡ some e
      → (c : SourceClaim) × (get e s.claims ≡ some c) × (c.sequence ≡ n)
  pub within : (e : String) (c : SourceClaim) → get e s.claims ≡ some c → c.sequence ≤ s.next
  pub held :
      (e : String) (c : SourceClaim)
      → get e s.claims ≡ some c
      → (get c.sequence s.pending ≡ some e) ⊎ (get e s.retained ≡ some tt)
  pub retained_claimed :
      (e : String)
      → get e s.retained ≡ some tt
      → (c : SourceClaim) × (d : String) × (get e s.claims ≡ some c)
        × (get c.sequence s.pending ≡ none)
        × (c.event_digest ≡ some d)
  pub distinct :
      (e f : String) (c d : SourceClaim)
      → get e s.claims ≡ some c
      → get f s.claims ≡ some d
      → c.sequence ≡ d.sequence
      → e ≡ f
  pub retained_once : IsMap s.retained
  pub counted : length s.claims ≤ length s.pending + length s.retained

pub created-IsSound : IsSound created
unfolding get
created-IsSound = record {
  ascending = tt;
  pending_claimed = λ n e at. absurd (cc);
  within = λ e c at. absurd (cc);
  held = λ e c at. absurd (cc);
  retained_claimed = λ e at. absurd (cc);
  distinct = λ e f c d at. absurd (cc);
  retained_once = tt;
  counted = omega arith;
}

module _ (event : String) (r : EventSet) where
  pub refreshed-get : (e : String) → get e (refreshed event r) ≡ get e r
  unfolding has
  refreshed-get e = elim (Option-cases (get event r)) [
    | inl absent ↦ rw (absent, has) refl
    | inr (u, there) ↦
        rw (there, has)
          (get-set event e tt (delete event r) ∙ elim (Bool-cases (event == e)) [
            | inl same ↦ rw same (sym (ap (λ i. get i r) (sym ((==_iff event e).0 same)) ∙ there))
            | inr other ↦ rw other (get-delete event e r ∙ rw other refl)
          ])
  ]

  pub refreshed-IsMap : IsMap r → IsMap (refreshed event r)
  unfolding has
  refreshed-IsMap once = elim (Option-cases (get event r)) [
    | inl absent ↦ rw (absent, has) once
    | inr (u, there) ↦
        rw (there, has) (set-IsMap event tt (delete event r) (delete-IsMap event r once))
  ]

  pub refreshed-length : IsMap r → length (refreshed event r) ≡ length r
  unfolding has
  refreshed-length once = elim (Option-cases (get event r)) [
    | inl absent ↦ rw (absent, has) refl
    | inr (u, there) ↦
        let gone : get event (delete event r) ≡ none =
          get-delete event event r ∙ rw (==_refl event) refl in
        let e = length-set_new event tt (delete event r) gone in
        let d = length-delete_lem event u r once there in rw (there, has) (omega arith)
  ]

-- A claim keeps it.
module _ (event : String) (s : SourceState) (h : IsSound s) where
  above : (n : ℕ) (e : String) → get n s.pending ≡ some e → n < s.next + 1
  above n e at =
      let (c, own, is) = h.pending_claimed n e at in let le = h.within e c own in omega arith

  unheld : (n : ℕ) → s.next < n → get n s.pending ≡ none
  unheld n lt = elim (Option-cases (get n s.pending)) [
    | inl absent ↦ absent
    | inr (e, at) ↦ absurd (let up = above n e at in omega arith)
  ]

  claimed_again-IsSound : IsSound (record s { retained = refreshed event s.retained })
  claimed_again-IsSound = record {
    ascending = h.ascending;
    pending_claimed = h.pending_claimed;
    within = h.within;
    held = λ e c at. elim (h.held e c at) [
      | inl p ↦ inl p
      | inr r ↦ inr (refreshed-get event s.retained e ∙ r)
    ];
    retained_claimed = λ e at. h.retained_claimed e (sym (refreshed-get event s.retained e) ∙ at);
    distinct = h.distinct;
    retained_once = refreshed-IsMap event s.retained h.retained_once;
    counted =
        let e = refreshed-length event s.retained h.retained_once in
        let b = h.counted in omega arith;
  }

  module _ (absent : get event s.claims ≡ none) where
    abbrev claims : Map String SourceClaim
    claims = set event (next_claim s) s.claims

    abbrev pending : Map ℕ String
    pending = set (s.next + 1) event s.pending

    old_claim : (e : String) (c : SourceClaim) → get e s.claims ≡ some c → get e claims ≡ some c
    old_claim e c at = elim (Bool-cases (event == e)) [
      | inl same ↦ absurd (let bad = ap (λ i. get i s.claims) ((==_iff event e).0 same) in cc)
      | inr other ↦ get-set_other event e (next_claim s) s.claims other ∙ at
    ]

    old_pending : (n : ℕ) → n ≤ s.next → get n pending ≡ get n s.pending
    old_pending n le =
        get-set_other (s.next + 1) n event s.pending (ground (arith, ==_iff (s.next + 1) n))

    claimed_new-IsSound :
        IsSound
          (record s { next = s.next + 1; pending = pending; claims = claims; latest_digest = none })
    claimed_new-IsSound = record {
      ascending = set-IsAscending (s.next + 1) 0 event s.pending (omega arith) above h.ascending;
      pending_claimed = λ n e at. elim (set-cases (s.next + 1) n event e s.pending at) [
        | inl (is, own) ↦ (
          next_claim s,
          ap (λ i. get i claims) (sym own) ∙ get-set_own event (next_claim s) s.claims,
          is,
        )
        | inr before ↦ let (c, own, is) = h.pending_claimed n e before in (c, old_claim e c own, is)
      ];
      within = λ e c at. elim (set-cases event e (next_claim s) c s.claims at) [
        | inl (is, own) ↦ let q = ap (λ x. x.sequence) own in omega arith
        | inr before ↦ let le = h.within e c before in omega arith
      ];
      held = λ e c at. elim (set-cases event e (next_claim s) c s.claims at) [
        | inl (is, own) ↦ inl (
            ap (λ x. get x.sequence pending) (sym own)
            ∙ get-set_own (s.next + 1) event s.pending
            ∙ ap some is)
        | inr before ↦ elim (h.held e c before) [
          | inl p ↦ inl (old_pending c.sequence (h.within e c before) ∙ p)
          | inr r ↦ inr r
        ]
      ];
      retained_claimed = λ e at.
          let (c, d, own, free, emitted) = h.retained_claimed e at in
          (c, d, old_claim e c own, old_pending c.sequence (h.within e c own) ∙ free, emitted);
      distinct = λ e f c d at to eq. apart e f c d at to eq;
      retained_once = h.retained_once;
      counted =
          let e = length-set_new event (next_claim s) s.claims absent in
          let p = length-set_at in let b = h.counted in omega arith;
    }
      where
        apart :
            (e f : String) (c d : SourceClaim)
            → get e claims ≡ some c
            → get f claims ≡ some d
            → c.sequence ≡ d.sequence
            → e ≡ f
        apart e f c d at to eq = elim (set-cases event e (next_claim s) c s.claims at) [
          | inl (is, own) ↦ elim (set-cases event f (next_claim s) d s.claims to) [
            | inl (is', own') ↦ sym is ∙ is'
            | inr before ↦
                absurd
                  (let q = ap (λ x. x.sequence) own in let le = h.within f d before in omega arith)
          ]
          | inr before ↦ elim (set-cases event f (next_claim s) d s.claims to) [
            | inl (is, own) ↦
                absurd
                  (let q = ap (λ x. x.sequence) own in let le = h.within e c before in omega arith)
            | inr before' ↦ h.distinct e f c d before before' eq
          ]
        ]

        length-set_at : length pending ≡ length s.pending + 1
        length-set_at =
            sym (length-keys pending)
            ∙ ap length
                (keys-set_new (s.next + 1) event s.pending (unheld (s.next + 1) (omega arith)))
            ∙ length-append (keys s.pending) ((s.next + 1) ∷ [])
            ∙ ap (λ n. n + 1) (length-keys s.pending)

pub claim-IsSound : (event : String) (s : SourceState) → IsSound s → IsSound (claim event s).1
unfolding claim
claim-IsSound event s h = elim (Option-cases (get event s.claims)) [
  | inl absent ↦ rw (absent, claim) (claimed_new-IsSound event s h absent)
  | inr (c, there) ↦ rw (there, claim) (claimed_again-IsSound event s h)
]

pub claim-retained :
    (event : String) (s : SourceState)
    → IsSound s
    → length (claim event s).1.retained ≡ length s.retained
unfolding claim
claim-retained event s h = elim (Option-cases (get event s.claims)) [
  | inl absent ↦ rw (absent, claim) refl
  | inr (c, there) ↦ rw (there, claim) (refreshed-length event s.retained h.retained_once)
]
