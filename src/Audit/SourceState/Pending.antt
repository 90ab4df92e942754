-- ===== src/Audit/SourceState/Pending.antt =====
-- A pending event and its claim across the calls of src/audit/providers/source-state.ts.
use kya_os_mcp.Common.{
  ℕ, ◌+◌, ◌≡◌, refl, sym, ap, ◌∙◌, ◌⊎◌, inl, inr, true, false, ◌||◌, [], ◌∷◌, Option, none, some,
  some-injective, String, arith, ltb, leb, ◌==◌, string_eq, nat_eq, option_eq, ==_iff, Bool-cases,
  Option-cases, length,
}
use kya_os_mcp.Common.Map.{Map, get, set, delete}
use kya_os_mcp.Audit.SourceState.{
  SourceClaim, SourceState, EventSet, PublicClaim, public_claim, next_claim, claim, is_abandonable,
  abandon, emits, emit, left, forget_oldest, receipt,
}
use kya_os_mcp.Audit.SourceState.Maps.{set-cases, get-set_other, get-set_own, get-delete_other}
use kya_os_mcp.Audit.SourceState.Sound.{IsSound}

module _ (event : String) (answer : PublicClaim) where
  -- The event is pending with this claim.
  pub record IsPending (s : SourceState) : Type 0 where
    pub own_claim : SourceClaim
    pub own : get event s.claims ≡ some own_claim
    public : public_claim own_claim ≡ answer
    pub pending : get own_claim.sequence s.pending ≡ some event

  pub claim-first :
      (s : SourceState)
      → get event s.claims ≡ none
      → (claim event s).0 ≡ answer
      → IsPending (claim event s).1
  unfolding claim
  claim-first s absent is =
      rw (absent, claim)
        (record {
          own_claim = next_claim s;
          own = get-set_own event (next_claim s) s.claims;
          public = rw (absent, claim) at is;
          pending = get-set_own (s.next + 1) event s.pending;
        })

  pub claim-again : (s : SourceState) → IsPending s → (claim event s).0 ≡ answer
  unfolding claim
  claim-again s h = let own = h.own in rw (own, claim) h.public

  pub claim-IsPending :
      (other : String) (s : SourceState) → IsSound s → IsPending s → IsPending (claim other s).1
  unfolding claim
  claim-IsPending other s sound h = elim (Option-cases (get other s.claims)) [
    | inr (c, there) ↦
        rw (there, claim)
          (record { own_claim = h.own_claim; own = h.own; public = h.public; pending = h.pending })
    | inl absent ↦
        let le = sound.within event h.own_claim h.own in
        rw (absent, claim)
          (record {
            own_claim = h.own_claim;
            own = get-set_other other event (next_claim s) s.claims (apart absent) ∙ h.own;
            public = h.public;
            pending =
                get-set_other (s.next + 1) h.own_claim.sequence other s.pending
                  (ground (arith, ==_iff (s.next + 1) h.own_claim.sequence))
                ∙ h.pending;
          })
  ]
    where
      apart : get other s.claims ≡ none → (other == event) ≡ false
      apart absent = elim (Bool-cases (other == event)) [
        | inr is_other ↦ is_other
        | inl same ↦ absurd (
            let bad = ap (λ i. get i s.claims) ((==_iff other event).0 same) in
            let mine = h.own in cc)
      ]

  pub abandon-IsPending :
      (other : String) (sequence : ℕ) (s : SourceState)
      → IsSound s
      → (other == event) ≡ false
      → IsPending s
      → IsPending (abandon other sequence s)
  unfolding abandon
  abandon-IsPending other sequence s sound apart h = elim (Option-cases (get other s.claims)) [
    | inl absent ↦ rw (absent, abandon) h
    | inr (c, there) ↦ elim (Bool-cases (is_abandonable s.next sequence c)) [
      | inr not_last ↦ rw (there, not_last, abandon) h
      | inl last ↦
          rw (there, last, abandon)
            (record {
              own_claim = h.own_claim;
              own = get-delete_other other event s.claims apart ∙ h.own;
              public = h.public;
              pending =
                  get-delete_other c.sequence h.own_claim.sequence s.pending (unlike c there)
                  ∙ h.pending;
            })
    ]
  ]
    where
      unlike :
          (c : SourceClaim)
          → get other s.claims ≡ some c
          → (c.sequence == h.own_claim.sequence) ≡ false
      unlike c there = elim (Bool-cases (c.sequence == h.own_claim.sequence)) [
        | inr differs ↦ differs
        | inl same ↦ absurd (
            let q =
              sound.distinct other event c h.own_claim there h.own
                ((==_iff c.sequence h.own_claim.sequence).0 same) in
            let bad = (==_iff other event).1 q in cc)
      ]

  pub emit-IsPending :
      (other : String) (sequence : ℕ) (digest : String) (s : SourceState)
      → IsPending s
      → IsPending (left s (emit other sequence digest s))
  unfolding emit
  emit-IsPending other sequence digest s h = elim (Option-cases (get other s.claims)) [
    | inl absent ↦ rw (absent, emit) h
    | inr (c, there) ↦ elim (Bool-cases (c.sequence == sequence)) [
      | inr elsewhere ↦ rw (there, elsewhere, emit) h
      | inl here ↦ elim (Bool-cases (emits c digest)) [
        | inr conflict ↦ rw (there, here, conflict, emit) h
        | inl fits ↦ rw (there, here, fits, emit) (marked c there (Bool-cases (other == event)))
      ]
    ]
  ]
    where
      marked :
          {latest : Option String} (c : SourceClaim)
          → get other s.claims ≡ some c
          → ((other == event) ≡ true) ⊎ ((other == event) ≡ false)
          → IsPending (record s {
            claims = set other (record c { event_digest = some digest }) s.claims;
            latest_digest = latest;
          })
      marked c there (inr apart) = record {
        own_claim = h.own_claim;
        own = get-set_other other event _ s.claims apart ∙ h.own;
        public = h.public;
        pending = h.pending;
      }
      marked c there (inl same) =
          let is = (==_iff other event).0 same in
          let eq : h.own_claim ≡ c =
            some-injective (sym h.own ∙ ap (λ i. get i s.claims) (sym is) ∙ there) in
          let d = record c { event_digest = some digest } in
          record {
            own_claim = d;
            own = ap (λ i. get i (set other d s.claims)) (sym is) ∙ get-set_own other d s.claims;
            public = ap public_claim (sym eq) ∙ h.public;
            pending = ap (λ x. get x.sequence s.pending) (sym eq) ∙ h.pending;
          }

  -- What the window forgets are retained events.
  forget_oldest-get :
      (window : ℕ) (retained : EventSet) (claims : Map String SourceClaim)
      → get event retained ≡ none
      → get event (forget_oldest window retained claims).1 ≡ get event claims
  unfolding forget_oldest get
  forget_oldest-get window [] claims absent = refl
  forget_oldest-get window ((oldest, u) ∷ retained) claims absent =
      elim (Bool-cases (leb (length ((oldest, u) ∷ retained)) window)) [
        | inl fits ↦ rw (fits, forget_oldest) refl
        | inr full ↦ elim (Bool-cases (oldest == event)) [
          | inl same ↦ absurd (let bad = rw (same, get) at absent in cc)
          | inr apart ↦
              rw (full, forget_oldest)
                (forget_oldest-get window retained (delete oldest claims)
                    (rw (apart, get) at absent)
                  ∙ get-delete_other oldest event claims apart)
        ]
      ]

  pub receipt-IsPending :
      (window sequence : ℕ) (s : SourceState)
      → IsSound s
      → (sequence == answer.sequence) ≡ false
      → IsPending s
      → IsPending (left s (receipt window sequence s))
  unfolding receipt
  receipt-IsPending window sequence s sound unlike h =
      elim (Bool-cases (ltb sequence 1 || ltb s.next sequence)) [
        | inl outside ↦ rw (outside, receipt) h
        | inr inside ↦ elim (Option-cases (get sequence s.pending)) [
          | inl absent ↦ rw (inside, absent, receipt) h
          | inr (other, at) ↦
              rw (inside, at, receipt)
                (record {
                  own_claim = h.own_claim;
                  own =
                      forget_oldest-get window (set other tt s.retained) s.claims (free other at)
                      ∙ h.own;
                  public = h.public;
                  pending =
                      get-delete_other sequence h.own_claim.sequence s.pending apart ∙ h.pending;
                })
        ]
      ]
    where
      apart : (sequence == h.own_claim.sequence) ≡ false
      apart = ap (λ x. sequence == x.sequence) h.public ∙ unlike

      free :
          (other : String)
          → get sequence s.pending ≡ some other
          → get event (set other tt s.retained) ≡ none
      free other at = elim (Option-cases (get event (set other tt s.retained))) [
        | inl absent ↦ absent
        | inr (u, there) ↦ elim (set-cases other event tt u s.retained there) [
          | inl (is, v) ↦
              let (c, mine, same) = sound.pending_claimed sequence other at in
              let q : c ≡ h.own_claim =
                some-injective (sym mine ∙ ap (λ i. get i s.claims) is ∙ h.own) in
              absurd (
                let bad =
                  (==_iff sequence h.own_claim.sequence).1 (sym same ∙ ap (λ x. x.sequence) q) in
                let no = apart in cc)
          | inr before ↦
              let (c, digest, mine, gone, emitted) = sound.retained_claimed event before in
              let q = ap (λ x. get x.sequence s.pending) (some-injective (sym mine ∙ h.own)) in
              absurd (let bad = sym gone ∙ q ∙ h.pending in cc)
        ]
      ]
