-- ===== src/Session.antt =====
-- src/session/manager.ts over its default stores, the in-memory session store and nonce cache.
-- Each reading of the clock is an argument in milliseconds. The random session id is an argument,
-- `none` where the source of randomness rejects. A session's client information is left out.
pub mod Once
mod Sweep
pub mod Expired
mod Tests
use kya_os_mcp.Common.{
  ℕ, ◌+◌, ◌-◌, ◌*◌, ◌/◌, Bool, true, false, ◌&&◌, not, List, [], ◌∷◌, Option, none, some, String,
  ltb, if◌then◌else◌, string_eq, ◌==◌,
}
use kya_os_mcp.Common.Map.{Map, get}
use kya_os_mcp.Replay.Provider.{NonceCache, Admission, admitted, replayed, bad_ttl, consume}
use kya_os_mcp.Replay.Admission.{nonce_retention_seconds}
use kya_os_mcp.Stores.SessionStore.{SessionStore, set_session, delete_session}

pub data MetaPolicy : Type 0 where
  strict allow_extensions : MetaPolicy

-- The lifetimes are in minutes, the skew in seconds.
pub record SessionConfig : Type 0 where
  pub timestamp_skew_seconds : ℕ
  pub session_ttl_minutes : ℕ
  pub absolute_session_lifetime : Option ℕ
  pub server_did : Option String
  pub meta_policy : MetaPolicy

pub record HandshakeRequest : Type 0 where
  pub nonce : String
  pub audience : String
  pub timestamp : ℕ
  pub agent_did : Option String

pub record SessionContext : Type 0 where
  pub session_id : String
  pub audience : String
  pub nonce : String
  pub timestamp : ℕ
  pub created_at : ℕ
  pub last_activity : ℕ
  pub ttl_minutes : ℕ
  pub agent_did : Option String
  pub server_did : Option String
  pub meta_policy : MetaPolicy

pub data HandshakeResult : Type 0 where
  success : SessionContext → HandshakeResult
  stale_timestamp audience_mismatch nonce_replay internal : HandshakeResult

pub record SessionManager : Type 0 where
  pub sessions : SessionStore SessionContext
  pub nonces : NonceCache

-- `Math.abs(now - timestamp)`
abbrev pub distance : ℕ → ℕ → ℕ
distance a b = a - b + (b - a)

-- A value that is absent or the empty string is falsy.
abbrev pub is_truthy : Option String → Bool
is_truthy none = false
is_truthy (some s) = not (s == "")

abbrev pub differs : Option String → String → Bool
differs none audience = false
differs (some did) audience = not (did == "") && not (audience == did)

abbrev pub nonce_ttl_seconds : HandshakeRequest → ℕ
nonce_ttl_seconds request = if is_truthy request.agent_did then 120 else 60

-- What `...(serverDid && { serverDid })` leaves.
abbrev pub present_did : Option String → Option String
present_did none = none
present_did (some did) = if did == "" then none else some did

module _ (config : SessionConfig) where
  abbrev pub new_session : ℕ → String → HandshakeRequest → SessionContext
  new_session now id request = record {
    session_id = id;
    audience = request.audience;
    nonce = request.nonce;
    timestamp = request.timestamp;
    created_at = now;
    last_activity = now;
    ttl_minutes = config.session_ttl_minutes;
    agent_did = request.agent_did;
    server_did = present_did config.server_did;
    meta_policy = config.meta_policy;
  }

  unfoldable pub open_session :
      ℕ → Option String → HandshakeRequest → SessionManager → SessionManager × HandshakeResult
  unfolding set_session
  open_session now none request m = (m, internal)
  open_session now (some id) request m = (
    record m { sessions = set_session id (new_session now id request) m.sessions },
    success (new_session now id request),
  )

  abbrev pub retention : ℕ → HandshakeRequest → ℕ
  unfolding nonce_retention_seconds
  retention now_ms request =
      nonce_retention_seconds (nonce_ttl_seconds request)
        (request.timestamp + config.timestamp_skew_seconds) now_ms

  unfoldable pub after_consume :
      ℕ
      → Option String
      → HandshakeRequest
      → SessionManager
      → NonceCache × Admission
      → SessionManager × HandshakeResult
  unfolding open_session
  after_consume now id request m (nonces, admitted) =
      open_session now id request (record m { nonces = nonces })
  after_consume now id request m (nonces, replayed) = (record m { nonces = nonces }, nonce_replay)
  after_consume now id request m (nonces, bad_ttl) = (record m { nonces = nonces }, internal)

  -- The clock is read for the skew, for the retention, and by the nonce cache.
  unfoldable pub validate_handshake :
      ℕ
      → ℕ
      → ℕ
      → Option String
      → HandshakeRequest
      → SessionManager
      → SessionManager × HandshakeResult
  unfolding consume retention after_consume
  validate_handshake now_ms retain_ms consume_ms id request m =
      if ltb config.timestamp_skew_seconds (distance (now_ms / 1000) request.timestamp)
      then (m, stale_timestamp)
      else (if differs config.server_did request.audience
          then (m, audience_mismatch)
          else after_consume (now_ms / 1000) id request m (
              consume consume_ms (request.agent_did, request.nonce) (retention retain_ms request)
                m.nonces))

  abbrev pub too_old : ℕ → Option ℕ → SessionContext → Bool
  too_old now none session = false
  too_old now (some lifetime) session = ltb (lifetime * 60) (now - session.created_at)

  -- Idle for too long, or past the absolute lifetime.
  abbrev pub is_expired : ℕ → SessionContext → Bool
  is_expired now session =
      if ltb (session.ttl_minutes * 60) (now - session.last_activity)
      then true
      else too_old now config.absolute_session_lifetime session

  unfoldable pub read_session :
      ℕ → String → SessionManager → Option SessionContext → SessionManager × Option SessionContext
  unfolding set_session delete_session
  read_session now id m none = (m, none)
  read_session now id m (some session) =
      if is_expired now session
      then (record m { sessions = delete_session id m.sessions }, none)
      else (
        record m { sessions = set_session id (record session { last_activity = now }) m.sessions },
        some (record session { last_activity = now }),
      )

  unfoldable pub get_session : ℕ → String → SessionManager → SessionManager × Option SessionContext
  unfolding read_session get
  get_session now_ms id m = read_session (now_ms / 1000) id m (get id m.sessions.sessions)

  -- The loop of `cleanup` over the entries read before it.
  unfoldable pub delete_expired :
      ℕ → List (String × SessionContext) → SessionStore SessionContext → SessionStore SessionContext
  unfolding delete_session
  delete_expired now [] store = store
  delete_expired now ((id, session) ∷ entries) store =
      delete_expired now entries (if is_expired now session then delete_session id store else store)

  unfoldable pub cleanup : ℕ → ℕ → SessionManager → SessionManager
  unfolding delete_expired kya_os_mcp.Stores.SessionStore.cleanup kya_os_mcp.Replay.Provider.cleanup
  cleanup now_ms nonces_ms m = record {
    sessions =
        kya_os_mcp.Stores.SessionStore.cleanup
          (delete_expired (now_ms / 1000) m.sessions.sessions m.sessions);
    nonces = kya_os_mcp.Replay.Provider.cleanup nonces_ms m.nonces;
  }
