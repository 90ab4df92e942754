-- ===== src/Audit/SourceState/Calls.antt =====
-- Any sequence of calls of the source states.
use kya_os_mcp.Common.{
  ℕ, ◌-◌, ◌≤◌, ◌<◌, ◌≡◌, refl, ap, ◌∙◌, inl, inr, Bool, true, false, List, [], ◌∷◌, some, String,
  arith, ◌==◌, string_eq, nat_eq, ==_iff, ==_refl, Bool-cases, if◌then◌else◌, length, All, All-map,
}
use kya_os_mcp.Common.Map.{Map, get, get-set, keys}
use kya_os_mcp.Audit.SourceState.{
  SourceClaim, SourceState, SourceStates, AuditSourceState, or_created, state_of, with_state,
  claim_event, abandon_claim, mark_emitted, mark_receipted, get_state, state_report,
}
use kya_os_mcp.Audit.SourceState.Maps.{IsAscending, get-above}
use kya_os_mcp.Audit.SourceState.Sound.{IsSound, claim-IsSound, claim-retained}
use kya_os_mcp.Audit.SourceState.Steps.{
  abandon-IsSound, emit-IsSound, abandon-retained, emit-retained,
}
use kya_os_mcp.Audit.SourceState.Receipts.{IsEmitted, receipt-IsSound}

pub data SourceCall : Type 0 where
  claiming : String → String → SourceCall
  abandoning : String → String → ℕ → SourceCall
  emitting : String → String → ℕ → String → SourceCall
  receipting : String → ℕ → SourceCall
  reading : String → SourceCall

unfoldable pub source_call : SourceCall → SourceStates → SourceStates
unfolding claim_event abandon_claim mark_emitted mark_receipted get_state
source_call (claiming source event) p = (claim_event source event p).1
source_call (abandoning source event sequence) p = abandon_claim source event sequence p
source_call (emitting source event sequence digest) p =
    (mark_emitted source event sequence digest p).1
source_call (receipting source sequence) p = (mark_receipted source sequence p).1
source_call (reading source) p = (get_state source p).1

unfoldable pub source_calls : List SourceCall → SourceStates → SourceStates
unfolding source_call
source_calls [] p = p
source_calls (c ∷ calls) p = source_calls calls (source_call c p)

-- A receipt is of an event that was emitted.
abbrev pub IsInOrder : SourceCall → SourceStates → Type 0
IsInOrder (receipting source sequence) p = IsEmitted sequence (state_of source p)
IsInOrder _ p = Unit

abbrev pub AllInOrder : List SourceCall → SourceStates → Type 0
AllInOrder [] p = Unit
AllInOrder (c ∷ calls) p = IsInOrder c p × AllInOrder calls (source_call c p)

-- Every source's state is sound and retains no more than the window.
abbrev pub AllSound : SourceStates → Type 0
AllSound p =
    (source : String)
    → IsSound (state_of source p) × (length (state_of source p).retained ≤ p.redelivery_window)

pub state_of-with_state :
    (i j : String) (s : SourceState) (p : SourceStates)
    → state_of j (with_state i s p) ≡ (if i == j then s else state_of j p)
unfolding state_of with_state
state_of-with_state i j s p = ap or_created (get-set i j s p.states) ∙ split (i == j)
  where
    split :
        (b : Bool)
        → or_created (if b then some s else get j p.states)
          ≡ (if b then s else or_created (get j p.states))
    split true = refl
    split false = refl

with_state-AllSound :
    (source : String) (s : SourceState) (p : SourceStates)
    → AllSound p
    → IsSound s
    → length s.retained ≤ p.redelivery_window
    → AllSound (with_state source s p)
unfolding with_state
with_state-AllSound source s p h sound le j = elim (Bool-cases (source == j)) [
  | inl same ↦ rw (state_of-with_state source j s p, same) (sound, le)
  | inr other ↦ rw (state_of-with_state source j s p, other) (h j)
]

pub source_call-AllSound :
    (c : SourceCall) (p : SourceStates) → AllSound p → IsInOrder c p → AllSound (source_call c p)
unfolding source_call claim_event abandon_claim mark_emitted mark_receipted get_state
source_call-AllSound (claiming source event) p h k =
    let (sound, le) = h source in
    with_state-AllSound source _ p h (claim-IsSound event (state_of source p) sound)
      (let e = claim-retained event (state_of source p) sound in omega arith)
source_call-AllSound (abandoning source event sequence) p h k =
    let (sound, le) = h source in
    with_state-AllSound source _ p h (abandon-IsSound event sequence (state_of source p) sound)
      (let e = ap length (abandon-retained event sequence (state_of source p)) in omega arith)
source_call-AllSound (emitting source event sequence digest) p h k =
    let (sound, le) = h source in
    with_state-AllSound source _ p h (emit-IsSound event sequence digest (state_of source p) sound)
      (let e = ap length (emit-retained event sequence digest (state_of source p)) in omega arith)
source_call-AllSound (receipting source sequence) p h k =
    let (sound, le) = h source in
    let (kept, bound) =
      receipt-IsSound p.redelivery_window sequence (state_of source p) sound le k in
    with_state-AllSound source _ p h kept bound
source_call-AllSound (reading source) p h k =
    let (sound, le) = h source in with_state-AllSound source _ p h sound le

-- From a provider whose every source is in order, whatever is claimed, abandoned, emitted and read, and
-- receipted once it was emitted: for every source, each pending sequence is that of a claim, each claim
-- is pending or was emitted and is retained, no two claims share a sequence, none is above the last,
-- there are no more claims than pending and retained events, and no more of the latter than the window.
pub source_calls-AllSound :
    (calls : List SourceCall) (p : SourceStates)
    → AllSound p
    → AllInOrder calls p
    → AllSound (source_calls calls p)
unfolding source_calls
source_calls-AllSound [] p h k = h
source_calls-AllSound (c ∷ calls) p h (now, later) =
    source_calls-AllSound calls (source_call c p) (source_call-AllSound c p h now) later

All-keys :
    (lo hi : ℕ) (m : Map ℕ String)
    → IsAscending lo m
    → ((n : ℕ) (e : String) → get n m ≡ some e → n ≤ hi)
    → All (λ n. (lo < n) × (n ≤ hi)) (keys m)
unfolding get
All-keys lo hi [] h below = tt
All-keys lo hi ((n, e) ∷ m) (lt, h) below = (
  (lt, below n e (rw (==_refl n, get) refl)),
  All-map (keys m) (λ i (up, le). (omega arith, le)) (All-keys n hi m h rest),
)
  where
    rest : (i : ℕ) (f : String) → get i m ≡ some f → i ≤ hi
    rest i f at = elim (Bool-cases (n == i)) [
      | inl same ↦
          absurd (let up = get-above i n f m h at in let q = (==_iff n i).0 same in omega arith)
      | inr other ↦ below i f (rw (other, get) at)
    ]

-- What a report says of a state.
abbrev pub IsReported : SourceState → AuditSourceState → Type 0
IsReported s r =
    (r.highest_receipted ≤ r.highest_emitted)
    × All (λ n. (r.highest_receipted < n) × (n ≤ r.highest_emitted)) r.pending_sequences
    × ((e : String) (c : SourceClaim)
        → get e s.claims ≡ some c
        → c.sequence ≤ r.highest_receipted
        → get e s.retained ≡ some tt)

state_report-IsReported : (s : SourceState) → IsSound s → IsReported s (state_report s)
unfolding state_report get
state_report-IsReported s h = of s.pending refl
  where
    below : (n : ℕ) (e : String) → get n s.pending ≡ some e → n ≤ s.next
    below n e at =
        let (c, own, is) = h.pending_claimed n e at in let le = h.within e c own in omega arith

    of : (m : Map ℕ String) → s.pending ≡ m → IsReported s (state_report s)
    of [] is =
        rw (is, state_report)
          (
            omega arith,
            tt,
            λ e c own le. elim (h.held e c own) [
              | inl p ↦ absurd (let bad = rw is at p in cc)
              | inr r ↦ r
            ],
          )
    of ((n, e) ∷ m) is =
        let up : IsAscending 0 ((n, e) ∷ m) = rw is at h.ascending in
        let le : n ≤ s.next = below n e (rw (is, ==_refl n, get) refl) in
        let all =
          All-keys (n - 1) s.next ((n, e) ∷ m) (omega (arith, up.0), up.1)
            (λ i f at. below i f (rw is at)) in
        rw (is, state_report)
          (
            omega arith,
            all,
            λ f c own low. elim (h.held f c own) [
              | inl p ↦ absurd (
                  let above =
                    get-above c.sequence (n - 1) f ((n, e) ∷ m) (omega (arith, up.0), up.1)
                      (rw is at p) in
                  let lt = up.0 in omega arith)
              | inr r ↦ r
            ],
          )

-- For a source whose state is sound: the reported watermark of receipts is not above the last sequence,
-- every reported pending sequence is above the watermark and not above the last, and a claim up to the
-- watermark is of an event that is retained as receipted.
pub get_state_watermark :
    (source : String) (p : SourceStates)
    → IsSound (state_of source p)
    → IsReported (state_of source p) (get_state source p).0
unfolding get_state
get_state_watermark source p h = state_report-IsReported (state_of source p) h
