-- ===== src/Audit/SourceState/Again.antt =====
-- Claiming an event again in src/audit/providers/source-state.ts.
use kya_os_mcp.Common.{
  ◌≡◌, refl, sym, inl, inr, true, false, ◌&&◌, List, [], ◌∷◌, none, String, ◌==◌, string_eq, nat_eq,
  option_eq, All, ==_iff, ==_refl, Bool-cases,
}
use kya_os_mcp.Common.Map.{get}
use kya_os_mcp.Audit.SourceState.{
  SourceState, SourceStates, PublicClaim, claim, state_of, with_state, claim_event, abandon_claim,
  mark_emitted, mark_receipted, get_state,
}
use kya_os_mcp.Audit.SourceState.Calls.{
  SourceCall, claiming, abandoning, emitting, receipting, reading, source_call, source_calls,
  AllInOrder, AllSound, source_call-AllSound, state_of-with_state,
}
use kya_os_mcp.Audit.SourceState.Pending.{
  IsPending, claim-first, claim-again, claim-IsPending, abandon-IsPending, emit-IsPending,
  receipt-IsPending,
}

module _ (event : String) (answer : PublicClaim) where
  module _ (source : String) where
    -- A call that neither abandons the event nor receipts its sequence.
    abbrev pub IsOthers : SourceCall → Type 0
    IsOthers (abandoning j other sequence) = (j == source && other == event) ≡ false
    IsOthers (receipting j sequence) = (j == source && sequence == answer.sequence) ≡ false
    IsOthers _ = Unit

    after_with_state :
        (j : String) (s : SourceState) (p : SourceStates)
        → IsPending event answer (state_of source p)
        → ((j == source) ≡ true → IsPending event answer (state_of j p) → IsPending event answer s)
        → IsPending event answer (state_of source (with_state j s p))
    after_with_state j s p h step = elim (Bool-cases (j == source)) [
      | inl same ↦
          rw (state_of-with_state j source s p, same)
            (step same (rw (sym ((==_iff j source).0 same)) at h))
      | inr other ↦ rw (state_of-with_state j source s p, other) h
    ]

    source_call-IsPending :
        (c : SourceCall) (p : SourceStates)
        → AllSound p
        → IsOthers c
        → IsPending event answer (state_of source p)
        → IsPending event answer (state_of source (source_call c p))
    unfolding source_call claim_event abandon_claim mark_emitted mark_receipted get_state
    source_call-IsPending (claiming j other) p sound o h =
        after_with_state j _ p h
          (λ same now. claim-IsPending event answer other (state_of j p) (sound j).0 now)
    source_call-IsPending (abandoning j other sequence) p sound o h =
        after_with_state j _ p h (λ same now.
          abandon-IsPending event answer other sequence (state_of j p) (sound j).0 (rw same at o)
            now)
    source_call-IsPending (emitting j other sequence digest) p sound o h =
        after_with_state j _ p h
          (λ same now. emit-IsPending event answer other sequence digest (state_of j p) now)
    source_call-IsPending (receipting j sequence) p sound o h =
        after_with_state j _ p h (λ same now.
          receipt-IsPending event answer p.redelivery_window sequence (state_of j p) (sound j).0
            (rw same at o) now)
    source_call-IsPending (reading j) p sound o h = after_with_state j _ p h (λ same now. now)

    source_calls-IsPending :
        (calls : List SourceCall) (p : SourceStates)
        → AllSound p
        → AllInOrder calls p
        → All IsOthers calls
        → IsPending event answer (state_of source p)
        → IsPending event answer (state_of source (source_calls calls p))
    unfolding source_calls
    source_calls-IsPending [] p sound k o h = h
    source_calls-IsPending (c ∷ calls) p sound (now, later) (here, there) h =
        source_calls-IsPending calls (source_call c p) (source_call-AllSound c p sound now) later
          there (source_call-IsPending c p sound here h)

-- From a provider whose every source is in order, and for an event that its source does not know: after
-- the event was claimed, and whatever is claimed, abandoned, emitted, read, and receipted once it was
-- emitted, without abandoning this event and without a receipt of its sequence, claiming it again
-- answers with the first claim.
pub claim_event_again :
    (source event : String) (calls : List SourceCall) (p : SourceStates)
    → AllSound p
    → get event (state_of source p).claims ≡ none
    → AllInOrder (claiming source event ∷ calls) p
    → All (IsOthers event (claim_event source event p).0 source) calls
    → (claim_event source event (source_calls (claiming source event ∷ calls) p)).0
      ≡ (claim_event source event p).0
unfolding claim_event source_calls source_call
claim_event_again source event calls p sound fresh (now, order) others =
    let answer = (claim_event source event p).0 in
    let q = source_call (claiming source event) p in
    claim-again event answer (state_of source (source_calls calls q)) (
      source_calls-IsPending event answer source calls q
        (source_call-AllSound (claiming source event) p sound now) order others
        (rw
          (state_of-with_state source source (claim event (state_of source p)).1 p, ==_refl source)
          (claim-first event answer (state_of source p) fresh refl)))
