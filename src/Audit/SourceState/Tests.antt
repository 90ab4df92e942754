-- ===== src/Audit/SourceState/Tests.antt =====
-- Two events of one source, with a window that retains one.
use kya_os_mcp.Common.{
  ◌≡◌, refl, sym, ap, ◌∙◌, some-injective, List, [], ◌∷◌, some, String, arith, string_eq, nat_eq,
  option_eq,
}
use kya_os_mcp.Common.Map.{get, set}
use kya_os_mcp.Audit.SourceState.{
  SourceClaim, SourceState, SourceStates, state_of, with_state, claim, claim_event, emit,
  mark_emitted, get_state,
}
use kya_os_mcp.Audit.SourceState.Sound.{created-IsSound}
use kya_os_mcp.Audit.SourceState.Calls.{
  SourceCall, AllInOrder, claiming, emitting, receipting, reading, AllSound, source_call,
  source_calls, source_calls-AllSound, IsReported, get_state_watermark,
}
use kya_os_mcp.Audit.SourceState.Again.{claim_event_again}

abbrev states : SourceStates
states = record { states = []; redelivery_window = 1 }

states-AllSound : AllSound states
unfolding state_of get
states-AllSound source = (created-IsSound, omega arith)

abbrev two_events : List SourceCall
two_events = claiming "s" "a" ∷ emitting "s" "a" 1 "d1" ∷ claiming "s" "b" ∷ receipting "s" 1 ∷ []

abbrev emitted : SourceState
unfolding source_calls source_call state_of with_state get set claim claim_event emit mark_emitted
emitted =
    state_of "s"
      (source_calls (claiming "s" "a" ∷ emitting "s" "a" 1 "d1" ∷ claiming "s" "b" ∷ []) states)

in_order : AllInOrder two_events states
unfolding emitted source_calls source_call state_of with_state get set claim claim_event emit
    mark_emitted
in_order = (tt, (tt, (tt, ((λ event c at own. ("d1", shown event c at own)), tt))))
  where
    shown :
        (event : String) (c : SourceClaim)
        → get 1 emitted.pending ≡ some event
        → get event emitted.claims ≡ some c
        → c.event_digest ≡ some "d1"
    shown event c at own =
        ap (λ x. x.event_digest)
          (some-injective (sym own ∙ ap (λ i. get i emitted.claims) (sym (some-injective at))))

source_calls-AllSound_example : AllSound (source_calls two_events states)
source_calls-AllSound_example = source_calls-AllSound two_events states states-AllSound in_order

get_state_watermark_example :
    IsReported
      (state_of "s" (source_calls two_events states))
      (get_state "s" (source_calls two_events states)).0
get_state_watermark_example =
    get_state_watermark "s" (source_calls two_events states)
      (source_calls-AllSound two_events states states-AllSound in_order "s").0

claim_event_again_example :
    (claim_event "s" "a"
      (source_calls (claiming "s" "a" ∷ claiming "s" "b" ∷ reading "s" ∷ []) states)).0
    ≡ (claim_event "s" "a" states).0
unfolding state_of get
claim_event_again_example =
    claim_event_again "s" "a" (claiming "s" "b" ∷ reading "s" ∷ []) states states-AllSound refl
      (tt, (tt, (tt, tt))) (tt, (tt, tt))
