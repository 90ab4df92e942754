-- ===== src/Session/Tests.antt =====
-- One handshake, its replay, and a session that idles.
use kya_os_mcp.Common.{◌≡◌, ◌≢◌, refl, [], none, some, arith, string_eq}
use kya_os_mcp.Common.Map.{get, has, set}
use kya_os_mcp.Replay.Provider.{new_cache}
use kya_os_mcp.Replay.Provider.Once.{after_calls}
use kya_os_mcp.Stores.SessionStore.{new_store}
use kya_os_mcp.Session.{
  strict, SessionConfig, HandshakeRequest, SessionContext, success, SessionManager, new_session,
  validate_handshake,
}
use kya_os_mcp.Session.Once.{handshake_once}

abbrev config : SessionConfig
config = record {
  timestamp_skew_seconds = 120;
  session_ttl_minutes = 30;
  absolute_session_lifetime = some 60;
  server_did = some "did:web:server";
  meta_policy = strict;
}

abbrev request : HandshakeRequest
request = record { nonce = "n1"; audience = "did:web:server"; timestamp = 1000; agent_did = none }

abbrev fresh_manager : SessionManager
unfolding new_store new_cache
fresh_manager = record { sessions = new_store 10; nonces = new_cache 1000000 }

abbrev first_session : SessionContext
first_session = new_session config 1000 "kyaos_1" request

first_succeeds :
    (validate_handshake config 1000000 1000000 1000000 (some "kyaos_1") request fresh_manager).1
    ≡ success first_session
unfolding validate_handshake fresh_manager get
first_succeeds = refl

abbrev after_first : SessionManager
unfolding validate_handshake fresh_manager
after_first =
    (validate_handshake config 1000000 1000000 1000000 (some "kyaos_1") request fresh_manager).0

handshake_once_example :
    (validate_handshake config 1050000 1050000 1050000 (some "kyaos_2") request after_first).1
    ≢ success (new_session config 1050 "kyaos_2" request)
unfolding after_first fresh_manager validate_handshake after_calls get has set
handshake_once_example =
    handshake_once config 1000000 1000000 1000000 1050000 1050000 1050000 (some "kyaos_1")
      (some "kyaos_2") request request fresh_manager after_first first_session
      (new_session config 1050 "kyaos_2" request) [] tt first_succeeds (omega arith) tt refl refl
      refl refl refl

abbrev read_later : SessionContext
read_later = record first_session { last_activity = 2000 }
