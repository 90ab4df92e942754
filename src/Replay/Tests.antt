-- ===== src/Replay/Tests.antt =====
-- Concrete calls on the nonce stores, and the theorems of the replay modules at them.
use kya_os_mcp.Common.{ℕ, ◌≡◌, refl, true, false, List, [], ◌∷◌, Option, none, some, String, arith}
use kya_os_mcp.Replay.Provider.{Key, NonceCache, new_cache, consume, replayed}
use kya_os_mcp.Replay.Provider.Log.{
  Call, consume_call, has_call, cleanup_call, calls, log_calls, calls-log_calls,
}
use kya_os_mcp.Replay.Provider.Once.{after_calls, consume_once}
use kya_os_mcp.Replay.Admission.{nonce_retention_seconds}
use kya_os_mcp.Replay.Admission.Window.{retention_covers_window}

abbrev key : Key
key = (some "did:a", "n")

abbrev empty : NonceCache
empty = record { nonces = []; writes_since_sweep = 0; last_sweep_at = 0 }

-- A lookup, another nonce that is consumed, and a sweep.
abbrev between : List (ℕ × Call)
between = (100, has_call key) ∷ (200, consume_call (none, "n") 5) ∷ (300, cleanup_call) ∷ []

calls-log_calls_example :
    calls ((1, consume_call key 1) ∷ between) (new_cache 0)
    ≡ log_calls ((1, consume_call key 1) ∷ between) []
calls-log_calls_example =
    calls-log_calls 0 ((1, consume_call key 1) ∷ between)
      (omega arith, (omega arith, (omega arith, (omega arith, tt))))

consume_once_example :
    (consume 900 key 7 (after_calls between (consume 0 key 1 empty).0)).1 ≡ replayed
unfolding consume kya_os_mcp.Common.Map.get
consume_once_example =
    consume_once 0 900 key 1 7 between empty tt refl
      ((omega arith, tt), ((omega arith, tt), ((omega arith, tt), tt))) (omega arith) (omega arith)

retention_covers_window_example :
    (consume 2999 key 7
      (after_calls between (consume 0 key (nonce_retention_seconds 1 2 0) empty).0)).1
    ≡ replayed
unfolding nonce_retention_seconds consume kya_os_mcp.Common.Map.get
retention_covers_window_example =
    retention_covers_window 0 2999 2 key 1 7 between empty tt refl
      ((omega arith, tt), ((omega arith, tt), ((omega arith, tt), tt))) (omega arith) (omega arith)
