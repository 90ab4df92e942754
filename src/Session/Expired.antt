-- ===== src/Session/Expired.antt =====
-- Reads and sweeps of sessions by their lifetimes.
use kya_os_mcp.Common.{
  ℕ, ◌+◌, ◌-◌, ◌*◌, ◌/◌, ◌≤◌, ◌≡◌, refl, sym, ap, ◌∙◌, inl, inr, true, false, not, Option, none,
  some, Option-cases, some-injective, String, arith, ltb, ltb_of_lt, lt_of_ltb, le_of_ltb,
  Bool-cases, if◌then◌else◌, string_eq, ==_refl,
}
use kya_os_mcp.Common.Map.{Map, get, get-set, IsMap, only_if, has}
use kya_os_mcp.Stores.SessionStore.{SessionStore, set_session}
use kya_os_mcp.Session.{
  SessionConfig, SessionContext, SessionManager, too_old, is_expired, read_session, get_session,
  cleanup,
}
use kya_os_mcp.Session.Sweep.{cleanup-get}

has-present :
    (id : String) (u : SessionContext) (m : Map String SessionContext)
    → get id m ≡ some u
    → has id m ≡ true
unfolding has
has-present id u m h = rw (h, has) refl

module _ (config : SessionConfig) where
  -- The session that a read finds, or nothing.
  abbrev answer : ℕ → Option SessionContext → Option SessionContext
  answer now none = none
  answer now (some session) =
      if is_expired config now session then none else some (record session { last_activity = now })

  read_session-answer :
      (now : ℕ) (id : String) (m : SessionManager) (o : Option SessionContext)
      → (read_session config now id m o).1 ≡ answer now o
  unfolding read_session
  read_session-answer now id m none = refl
  read_session-answer now id m (some session) = elim (Bool-cases (is_expired config now session)) [
    | inl old ↦ rw (old, read_session) refl
    | inr live ↦ rw (live, read_session) refl
  ]

  get_session-answer :
      (now_ms : ℕ) (id : String) (m : SessionManager)
      → (get_session config now_ms id m).1 ≡ answer (now_ms / 1000) (get id m.sessions.sessions)
  unfolding get_session
  get_session-answer now_ms id m =
      read_session-answer (now_ms / 1000) id m (get id m.sessions.sessions)

  too_old_mono :
      (now later : ℕ) (lifetime : Option ℕ) (session : SessionContext)
      → now ≤ later
      → too_old config now lifetime session ≡ true
      → too_old config later lifetime session ≡ true
  too_old_mono now later none session le h = h
  too_old_mono now later (some lifetime) session le h =
      ltb_of_lt (lifetime * 60) (later - session.created_at)
        (omega (arith, lt_of_ltb (lifetime * 60) (now - session.created_at) h))

  -- A session that is expired stays expired.
  is_expired_mono :
      (now later : ℕ) (session : SessionContext)
      → now ≤ later
      → is_expired config now session ≡ true
      → is_expired config later session ≡ true
  is_expired_mono now later session le h =
      elim (Bool-cases (ltb (session.ttl_minutes * 60) (later - session.last_activity))) [
        | inl idle ↦ rw idle refl
        | inr active ↦
            elim (Bool-cases (ltb (session.ttl_minutes * 60) (now - session.last_activity))) [
              | inl idle ↦
                  let far =
                    lt_of_ltb (session.ttl_minutes * 60) (now - session.last_activity) idle in
                  let near =
                    le_of_ltb (session.ttl_minutes * 60) (later - session.last_activity) active in
                  absurd (omega arith)
              | inr active' ↦ rw active (
                  too_old_mono now later config.absolute_session_lifetime session le
                    (rw active' at h))
            ]
      ]

  -- For a store that holds each id once: a sweep changes the answer of no read at or after its time.
  pub cleanup-get_session :
      (swept nonces_ms now_ms : ℕ) (id : String) (m : SessionManager)
      → IsMap m.sessions.sessions
      → swept ≤ now_ms
      → (get_session config now_ms id (cleanup config swept nonces_ms m)).1
        ≡ (get_session config now_ms id m).1
  cleanup-get_session swept nonces_ms now_ms id m maps le =
      get_session-answer now_ms id (cleanup config swept nonces_ms m)
      ∙ ap (answer (now_ms / 1000)) (cleanup-get config swept nonces_ms id m maps)
      ∙ left_alone (get id m.sessions.sessions)
      ∙ sym (get_session-answer now_ms id m)
    where
      left_alone :
          (o : Option SessionContext)
          → answer
              (now_ms / 1000)
              (only_if (λ session. not (is_expired config (swept / 1000) session)) o)
            ≡ answer (now_ms / 1000) o
      left_alone none = refl
      left_alone (some session) = elim (Bool-cases (is_expired config (swept / 1000) session)) [
        | inr live ↦ rw live refl
        | inl old ↦
            rw (old, is_expired_mono (swept / 1000) (now_ms / 1000) session (omega arith) old) refl
      ]

  live-bounds :
      (now : ℕ) (session : SessionContext)
      → is_expired config now session ≡ false
      → (now ≤ session.last_activity + session.ttl_minutes * 60)
        × (too_old config now config.absolute_session_lifetime
              (record session { last_activity = now })
            ≡ false)
  live-bounds now session h =
      elim (Bool-cases (ltb (session.ttl_minutes * 60) (now - session.last_activity))) [
        | inl idle ↦ absurd (let bad = rw idle at h in cc)
        | inr active ↦
            let near = le_of_ltb (session.ttl_minutes * 60) (now - session.last_activity) active in
            (omega arith, same_age config.absolute_session_lifetime (rw active at h))
      ]
    where
      same_age :
          (lifetime : Option ℕ)
          → too_old config now lifetime session ≡ false
          → too_old config now lifetime (record session { last_activity = now }) ≡ false
      same_age none h = h
      same_age (some lifetime) h = h

  set_session-present :
      (id : String) (u v : SessionContext) (store : SessionStore SessionContext)
      → get id store.sessions ≡ some u
      → get id (set_session id v store).sessions ≡ some v
  unfolding set_session
  set_session-present id u v store h =
      rw (has-present id u store.sessions h, set_session)
        (get-set id id v store.sessions ∙ rw (==_refl id) refl)

  read-stored :
      (now_ms : ℕ) (id : String) (m : SessionManager) (stored : SessionContext)
      → get id m.sessions.sessions ≡ some stored
      → is_expired config (now_ms / 1000) stored ≡ false
      → get id (get_session config now_ms id m).0.sessions.sessions
        ≡ some (record stored { last_activity = now_ms / 1000 })
  unfolding get_session read_session
  read-stored now_ms id m stored found live =
      ap (λ o. get id (read_session config (now_ms / 1000) id m o).0.sessions.sessions) found
      ∙ rw (live, read_session)
          (set_session-present id stored (record stored { last_activity = now_ms / 1000 })
            m.sessions found)

  -- A read answers with a session only if it is stored, was active within its idle time and, where
  -- an absolute lifetime is set, is not older than that. It answers with the stored session, its
  -- last activity moved to the second of the read, and stores what it answers.
  pub get_session-answers :
      (now_ms : ℕ) (id : String) (m : SessionManager) (s : SessionContext)
      → (get_session config now_ms id m).1 ≡ some s
      → (stored : SessionContext) × (get id m.sessions.sessions ≡ some stored)
        × (s ≡ record stored { last_activity = now_ms / 1000 })
        × (now_ms / 1000 ≤ stored.last_activity + stored.ttl_minutes * 60)
        × (too_old config (now_ms / 1000) config.absolute_session_lifetime s ≡ false)
        × (get id (get_session config now_ms id m).0.sessions.sessions ≡ some s)
  get_session-answers now_ms id m s h =
      let answered = sym (get_session-answer now_ms id m) ∙ h in
      elim (Option-cases (get id m.sessions.sessions)) [
        | inl absent ↦ absurd (let bad = rw absent at answered in cc)
        | inr (stored, found) ↦ elim (Bool-cases (is_expired config (now_ms / 1000) stored)) [
          | inl old ↦ absurd (let bad = rw (found, old) at answered in cc)
          | inr live ↦
              let same = some-injective (rw (found, live) at answered) in
              let (active, young) = live-bounds (now_ms / 1000) stored live in
              (
                stored,
                found,
                sym same,
                active,
                ap (too_old config (now_ms / 1000) config.absolute_session_lifetime) (sym same)
                    ∙ young,
                read-stored now_ms id m stored found live ∙ ap some same,
              )
        ]
      ]
