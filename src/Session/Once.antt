-- ===== src/Session/Once.antt =====
-- A handshake opens at most one session.
use kya_os_mcp.Common.{
  ℕ, ◌+◌, ◌*◌, ◌/◌, ◌≤◌, ◌<◌, ◌≡◌, ◌≢◌, refl, ap, ◌∙◌, inl, inr, List, Option, none, some, String,
  arith, ltb, le_of_ltb, All, Bool-cases, string_eq,
}
use kya_os_mcp.Common.Map.{IsMap}
use kya_os_mcp.Replay.Provider.{key_eq, NonceCache, Admission, admitted, replayed, bad_ttl, consume}
use kya_os_mcp.Replay.Provider.Log.{Call}
use kya_os_mcp.Replay.Provider.Once.{after_calls, IsNoAdd, consume_once}
use kya_os_mcp.Replay.Admission.{nonce_retention_seconds}
use kya_os_mcp.Session.{
  SessionConfig, HandshakeRequest, SessionContext, success, SessionManager, distance, differs,
  open_session, retention, after_consume, validate_handshake,
}

module _ (config : SessionConfig) where
  opened-nonces :
      (now : ℕ) (id : Option String) (request : HandshakeRequest) (m : SessionManager)
      → (open_session config now id request m).0.nonces ≡ m.nonces
  unfolding open_session
  opened-nonces now none request m = refl
  opened-nonces now (some id) request m = refl

  consumed :
      (now : ℕ) (id : Option String) (request : HandshakeRequest) (m : SessionManager)
      (r : NonceCache × Admission) (s : SessionContext)
      → (after_consume config now id request m r).1 ≡ success s
      → (r.1 ≡ admitted) × ((after_consume config now id request m r).0.nonces ≡ r.0)
  unfolding after_consume
  consumed now id request m (nonces, admitted) s h =
      (refl, opened-nonces now id request (record m { nonces = nonces }))
  consumed now id request m (nonces, replayed) s h = absurd (cc)
  consumed now id request m (nonces, bad_ttl) s h = absurd (cc)

  -- What a handshake that opened a session has passed.
  record IsOpened (now_ms retain_ms consume_ms : ℕ) (id : Option String)
      (request : HandshakeRequest) (m : SessionManager) : Type 0 where
    within : distance (now_ms / 1000) request.timestamp ≤ config.timestamp_skew_seconds
    fresh :
        (consume consume_ms
          (request.agent_did, request.nonce)
          (retention config retain_ms request)
          m.nonces).1
        ≡ admitted
    recorded :
        (validate_handshake config now_ms retain_ms consume_ms id request m).0.nonces
        ≡ (consume consume_ms
            (request.agent_did, request.nonce)
            (retention config retain_ms request)
            m.nonces).0

  opened :
      (now_ms retain_ms consume_ms : ℕ) (id : Option String) (request : HandshakeRequest)
      (m : SessionManager) (s : SessionContext)
      → (validate_handshake config now_ms retain_ms consume_ms id request m).1 ≡ success s
      → IsOpened now_ms retain_ms consume_ms id request m
  unfolding validate_handshake
  opened now_ms retain_ms consume_ms id request m s h =
      elim (Bool-cases
        (ltb config.timestamp_skew_seconds (distance (now_ms / 1000) request.timestamp))) [
          | inl stale ↦ absurd (let bad = rw (stale, validate_handshake) at h in cc)
          | inr timely ↦ elim (Bool-cases (differs config.server_did request.audience)) [
            | inl other ↦ absurd (let bad = rw (timely, other, validate_handshake) at h in cc)
            | inr ours ↦
                let (fresh, recorded) =
                  consumed (now_ms / 1000) id request m
                    (consume consume_ms (request.agent_did, request.nonce)
                      (retention config retain_ms request) m.nonces)
                    s (rw (timely, ours, validate_handshake) at h) in
                record {
                  within =
                      le_of_ltb config.timestamp_skew_seconds
                        (distance (now_ms / 1000) request.timestamp) timely;
                  fresh = fresh;
                  recorded = rw (timely, ours, validate_handshake) recorded;
                }
          ]
        ]

  retention-covers :
      (retain_ms : ℕ) (request : HandshakeRequest)
      → ((request.timestamp + config.timestamp_skew_seconds + 1) * 1000
          ≤ retain_ms + retention config retain_ms request * 1000)
        × (0 < retention config retain_ms request)
  unfolding retention nonce_retention_seconds
  retention-covers retain_ms request = (omega arith, omega arith)

  -- For a manager whose nonce cache holds each key once: after a handshake opened a session, and
  -- whatever nonces are consumed, looked up or swept while its own is retained, with no write past
  -- `consume`, a handshake with the same nonce, agent and timestamp opens none, at any time, where
  -- the cache reads the clock in the same second as the skew check.
  pub handshake_once :
      (now retain write later retain_again write_again : ℕ) (id id_again : Option String)
      (request again : HandshakeRequest) (m after : SessionManager) (s other : SessionContext)
      (ks : List (ℕ × Call))
      → IsMap m.nonces.nonces
      → (validate_handshake config now retain write id request m).1 ≡ success s
      → retain ≤ write
      → All (λ (t, k). (t < write + retention config retain request * 1000) × IsNoAdd k) ks
      → after.nonces
        ≡ after_calls ks (validate_handshake config now retain write id request m).0.nonces
      → again.nonce ≡ request.nonce
      → again.agent_did ≡ request.agent_did
      → again.timestamp ≡ request.timestamp
      → write_again / 1000 ≡ later / 1000
      → (validate_handshake config later retain_again write_again id_again again after).1
        ≢ success other
  handshake_once now retain write later retain_again write_again id id_again request again m after s
        other ks maps first ordered calls nonces same_nonce same_agent same_timestamp second
        reopened =
      let one = opened now retain write id request m s first in
      let two = opened later retain_again write_again id_again again after other reopened in
      let (covers, _) = retention-covers retain request in
      let (_, positive) = retention-covers retain_again again in
      let within = two.within in
      let replay =
        consume_once write write_again (request.agent_did, request.nonce)
          (retention config retain request) (retention config retain_again again) ks m.nonces maps
          one.fresh calls (omega arith) positive in
      let cache : after.nonces
          ≡ after_calls ks
              (consume write (request.agent_did, request.nonce) (retention config retain request)
                m.nonces).0 =
        nonces ∙ ap (after_calls ks) one.recorded in
      let fresh = rw (same_agent, same_nonce, cache) at two.fresh in cc
