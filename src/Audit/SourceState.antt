-- ===== src/Audit/SourceState.antt =====
-- `MemoryAuditSourceState` of src/audit/providers/source-state.ts: the sequence numbers that a source
-- of audit events claims. A sequence is the number that its text writes; a `Set` is a `Map` to nothing.
pub mod Maps
pub mod Sound
pub mod Steps
pub mod Receipts
pub mod Calls
pub mod Pending
pub mod Again
mod Tests
use kya_os_mcp.Common.{
  ℕ, ◌+◌, ◌-◌, ◌^◌, Bool, true, false, ◌&&◌, ◌||◌, not, List, [], ◌∷◌, Option, none, some, String,
  ltb, leb, ◌==◌, string_eq, option_eq, nat_eq, if◌then◌else◌, Result, ok, err, length,
}
use kya_os_mcp.Common.Map.{Map, get, set, delete, has, keys}

abbrev pub EventSet : Type 0
EventSet = Map {0, 0} String Unit

pub record SourceClaim : Type 0 where
  pub sequence : ℕ
  pub previous_source_event_digest : Option String
  pub event_digest : Option String

-- `MutableSourceState`.
pub record SourceState : Type 0 where
  pub next : ℕ
  pub pending : Map ℕ String
  pub claims : Map String SourceClaim
  pub retained : EventSet
  pub latest_digest : Option String

pub record SourceStates : Type 0 where
  pub states : Map String SourceState
  pub redelivery_window : ℕ

pub data SourceError : Type 0 where
  invalid_window unknown_claim unknown_sequence event_id_conflict : SourceError

pub record PublicClaim : Type 0 where
  pub sequence : ℕ
  pub previous : Option String

pub record AuditSourceState : Type 0 where
  pub highest_emitted : ℕ
  pub highest_receipted : ℕ
  pub pending_sequences : List ℕ

abbrev pub default_redelivery_window : ℕ
default_redelivery_window = 1024

abbrev pub or_default : Option ℕ → ℕ
or_default none = default_redelivery_window
or_default (some window) = window

-- The constructor; the window is a whole number here.
unfoldable pub new_source_states : Option ℕ → Result SourceError SourceStates
new_source_states window =
    if ltb (or_default window) (2 ^ 53)
    then ok (record { states = []; redelivery_window = or_default window })
    else err invalid_window

abbrev pub created : SourceState
created = record { next = 0; pending = []; claims = []; retained = []; latest_digest = none }

abbrev pub public_claim : SourceClaim → PublicClaim
public_claim c = record { sequence = c.sequence; previous = c.previous_source_event_digest }

abbrev pub refreshed : String → EventSet → EventSet
refreshed event retained =
    if has event retained then set event tt (delete event retained) else retained

abbrev pub next_claim : SourceState → SourceClaim
next_claim s = record {
  sequence = s.next + 1;
  previous_source_event_digest = s.latest_digest;
  event_digest = none;
}

unfoldable pub claim : String → SourceState → PublicClaim × SourceState
claim event s = elim (get event s.claims) [
  | some existing ↦ (public_claim existing, record s { retained = refreshed event s.retained })
  | none ↦ (
    public_claim (next_claim s),
    record s {
      next = s.next + 1;
      pending = set (s.next + 1) event s.pending;
      claims = set event (next_claim s) s.claims;
      latest_digest = none;
    },
  )
]

-- Whether a claim is the last one and was not emitted.
abbrev pub is_abandonable : ℕ → ℕ → SourceClaim → Bool
is_abandonable next sequence c =
    c.sequence == sequence && (c.event_digest == none && c.sequence == next)

unfoldable pub abandon : String → ℕ → SourceState → SourceState
abandon event sequence s = elim (get event s.claims) [
  | none ↦ s
  | some c ↦
      if is_abandonable s.next sequence c
      then record s {
        next = s.next - 1;
        pending = delete c.sequence s.pending;
        claims = delete event s.claims;
        latest_digest = c.previous_source_event_digest;
      }
      else s
]

abbrev pub emits : SourceClaim → String → Bool
emits c digest = c.event_digest == none || c.event_digest == some digest

unfoldable pub emit : String → ℕ → String → SourceState → Result SourceError SourceState
emit event sequence digest s = elim (get event s.claims) [
  | none ↦ err unknown_claim
  | some c ↦
      if not (c.sequence == sequence)
      then err unknown_claim
      else (if not (emits c digest)
          then err event_id_conflict
          else ok (record s {
            claims = set event (record c { event_digest = some digest }) s.claims;
            latest_digest = if sequence == s.next then some digest else s.latest_digest;
          }))
]

-- The loop over the retained events, oldest first.
unfoldable pub forget_oldest :
    ℕ → EventSet → Map String SourceClaim → EventSet × Map String SourceClaim
forget_oldest window [] claims = ([], claims)
forget_oldest window ((oldest, u) ∷ retained) claims =
    let rest = forget_oldest window retained (delete oldest claims) in
    if leb (length ((oldest, u) ∷ retained)) window then ((oldest, u) ∷ retained, claims) else rest

-- A receipted event is retained.
abbrev pub moved : ℕ → String → SourceState → SourceState
moved sequence event s = record s {
  pending = delete sequence s.pending;
  retained = set event tt s.retained;
}

abbrev pub trimmed : ℕ → SourceState → SourceState
unfolding forget_oldest
trimmed window s =
    let kept = forget_oldest window s.retained s.claims in
    record s { retained = kept.0; claims = kept.1 }

unfoldable pub receipt : ℕ → ℕ → SourceState → Result SourceError SourceState
unfolding forget_oldest
receipt window sequence s =
    if ltb sequence 1 || ltb s.next sequence
    then err unknown_sequence
    else elim (get sequence s.pending) [
      | none ↦ ok s
      | some event ↦ ok (trimmed window (moved sequence event s))
    ]

abbrev watermark : ℕ → List ℕ → ℕ
watermark next [] = next
watermark next (first ∷ rest) = first - 1

unfoldable pub state_report : SourceState → AuditSourceState
state_report s = record {
  highest_emitted = s.next;
  highest_receipted = watermark s.next (keys s.pending);
  pending_sequences = keys s.pending;
}

abbrev pub or_created : Option SourceState → SourceState
or_created none = created
or_created (some s) = s

unfoldable pub state_of : String → SourceStates → SourceState
state_of source p = or_created (get source p.states)

-- Every call stores the state that it read or created.
unfoldable pub with_state : String → SourceState → SourceStates → SourceStates
with_state source s p = record p { states = set source s p.states }

unfoldable pub claim_event : String → String → SourceStates → PublicClaim × SourceStates
unfolding claim state_of with_state
claim_event source event p =
    let (answer, s) = claim event (state_of source p) in (answer, with_state source s p)

unfoldable pub abandon_claim : String → String → ℕ → SourceStates → SourceStates
unfolding abandon state_of with_state
abandon_claim source event sequence p =
    with_state source (abandon event sequence (state_of source p)) p

-- What a call leaves: the state of its result, or the one that it read.
abbrev pub left : SourceState → Result SourceError SourceState → SourceState
left before (ok s) = s
left before (err e) = before

abbrev pub thrown : Result SourceError SourceState → Option SourceError
thrown (ok s) = none
thrown (err e) = some e

unfoldable pub mark_emitted :
    String → String → ℕ → String → SourceStates → Option SourceError × SourceStates
unfolding emit state_of with_state
mark_emitted source event sequence digest p =
    let r = emit event sequence digest (state_of source p) in
    (thrown r, with_state source (left (state_of source p) r) p)

unfoldable pub mark_receipted : String → ℕ → SourceStates → Option SourceError × SourceStates
unfolding receipt state_of with_state
mark_receipted source sequence p =
    let r = receipt p.redelivery_window sequence (state_of source p) in
    (thrown r, with_state source (left (state_of source p) r) p)

unfoldable pub get_state : String → SourceStates → AuditSourceState × SourceStates
unfolding state_report state_of with_state
get_state source p = (state_report (state_of source p), with_state source (state_of source p) p)
