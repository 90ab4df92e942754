-- ===== src/Session/Sweep.antt =====
-- What `cleanup` of src/session/manager.ts leaves in the session store.
use kya_os_mcp.Common.{
  ℕ, ◌/◌, ◌≡◌, refl, ◌∙◌, inl, inr, not, [], ◌∷◌, none, String, Bool-cases, string_eq, ◌==◌, ==_iff,
}
use kya_os_mcp.Common.Map.{Map, get, get-delete, IsMap, only_if}
use kya_os_mcp.Stores.SessionStore.{SessionStore, set_session, delete_session}
use kya_os_mcp.Session.{
  SessionConfig, SessionContext, SessionManager, is_expired, delete_expired, cleanup,
}

module _ (config : SessionConfig) where
  delete_expired-other :
      (now : ℕ) (entries : Map String SessionContext) (store : SessionStore SessionContext)
      (id : String)
      → get id entries ≡ none
      → get id (delete_expired config now entries store).sessions ≡ get id store.sessions
  unfolding delete_expired delete_session get
  delete_expired-other now [] store id h = refl
  delete_expired-other now ((j, session) ∷ entries) store id h = elim (Bool-cases (j == id)) [
    | inl same ↦ absurd (let bad = rw (same, get) at h in cc)
    | inr apart ↦
        let rest = rw (apart, get) at h in
        elim (Bool-cases (is_expired config now session)) [
          | inl old ↦
              rw (old, delete_expired)
                (delete_expired-other now entries (delete_session j store) id rest
                  ∙ get-delete j id store.sessions
                  ∙ rw apart refl)
          | inr live ↦ rw (live, delete_expired) (delete_expired-other now entries store id rest)
        ]
  ]

  delete_expired-get :
      (now : ℕ) (entries : Map String SessionContext) (store : SessionStore SessionContext)
      (id : String)
      → IsMap entries
      → get id store.sessions ≡ get id entries
      → get id (delete_expired config now entries store).sessions
        ≡ only_if (λ session. not (is_expired config now session)) (get id entries)
  unfolding delete_expired delete_session get
  delete_expired-get now [] store id maps h = h
  delete_expired-get now ((j, session) ∷ entries) store id (fresh, maps) h =
      elim (Bool-cases (j == id)) [
        | inl same ↦
            let at = (==_iff j id).0 same in
            let gone = rw at at fresh in
            elim (Bool-cases (is_expired config now session)) [
              | inl old ↦
                  rw (old, same, delete_expired)
                    (delete_expired-other now entries (delete_session j store) id gone
                      ∙ get-delete j id store.sessions
                      ∙ rw (same, old) refl)
              | inr live ↦
                  rw (live, same, delete_expired)
                    (delete_expired-other now entries store id gone ∙ h ∙ rw (same, live) refl)
            ]
        | inr apart ↦
            let stored = rw (apart, get) at h in
            elim (Bool-cases (is_expired config now session)) [
              | inl old ↦
                  rw (old, apart, delete_expired)
                    (delete_expired-get now entries (delete_session j store) id maps
                      (get-delete j id store.sessions ∙ rw apart stored))
              | inr live ↦
                  rw (live, apart, delete_expired)
                    (delete_expired-get now entries store id maps stored)
            ]
      ]

  -- The sessions that a sweep leaves.
  pub cleanup-get :
      (now_ms nonces_ms : ℕ) (id : String) (m : SessionManager)
      → IsMap m.sessions.sessions
      → get id (cleanup config now_ms nonces_ms m).sessions.sessions
        ≡ only_if
            (λ session. not (is_expired config (now_ms / 1000) session))
            (get id m.sessions.sessions)
  unfolding cleanup kya_os_mcp.Stores.SessionStore.cleanup
  cleanup-get now_ms nonces_ms id m maps =
      delete_expired-get (now_ms / 1000) m.sessions.sessions m.sessions id maps refl
