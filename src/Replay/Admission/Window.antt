-- ===== src/Replay/Admission/Window.antt =====
-- The retention a verifier asks for covers the time in which it would accept the proof again.
use kya_os_mcp.Common.{ℕ, ◌+◌, ◌*◌, ◌/◌, ◌≤◌, ◌<◌, ◌≡◌, List, arith, All}
use kya_os_mcp.Common.Map.{IsMap}
use kya_os_mcp.Replay.Provider.{Key, key_eq, NonceCache, consume, admitted, replayed}
use kya_os_mcp.Replay.Provider.Log.{Call}
use kya_os_mcp.Replay.Provider.Once.{IsNoAdd, after_calls, consume_once}
use kya_os_mcp.Replay.Admission.{nonce_retention_seconds}

covers :
    (ttl valid_until now_ms : ℕ)
    → (valid_until + 1) * 1000 ≤ now_ms + nonce_retention_seconds ttl valid_until now_ms * 1000
unfolding nonce_retention_seconds
covers ttl valid_until now_ms = omega arith

-- In a cache that holds each key once: a nonce that is admitted with the retention for a proof
-- valid until some second is a replay through the end of that second, whatever is consumed, looked
-- up or swept within the retention, with no write past `consume`, and whatever lifetime is
-- configured.
pub retention_covers_window :
    (now later valid_until : ℕ) (key : Key) (ttl ttl_again : ℕ) (ks : List (ℕ × Call))
    (c : NonceCache)
    → IsMap c.nonces
    → (consume now key (nonce_retention_seconds ttl valid_until now) c).1 ≡ admitted
    → All (λ (t, k). (t < now + nonce_retention_seconds ttl valid_until now * 1000) × IsNoAdd k) ks
    → later / 1000 ≤ valid_until
    → 0 < ttl_again
    → (consume later key ttl_again
        (after_calls ks (consume now key (nonce_retention_seconds ttl valid_until now) c).0)).1
      ≡ replayed
retention_covers_window now later valid_until key ttl ttl_again ks c m first within accepted
      positive =
    consume_once now later key (nonce_retention_seconds ttl valid_until now) ttl_again ks c m first
      within (omega (arith, covers ttl valid_until now)) positive
