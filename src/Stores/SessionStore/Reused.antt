-- ===== src/Stores/SessionStore/Reused.antt =====
-- A session id that is deleted and set again keeps its old place in the insertion order.
use kya_os_mcp.Common.{
  ℕ, ◌<◌, ◌≡◌, refl, sym, ap, ◌∙◌, inl, inr, true, false, List, [], ◌∷◌, ◌++◌, none, some, String,
  arith, leb, ◌==◌, string_eq, ==_iff, ==_refl, Bool-cases, length,
}
use kya_os_mcp.Common.Map.{Map, get, set, delete, has, get-set, get-delete, length-delete-lt}
use kya_os_mcp.Stores.SessionStore.Bounds.{
  set_session-get, set_call, store_calls, store_calls-max_sessions,
}
use kya_os_mcp.Stores.SessionStore.{
  SessionStore, evict_loop, evict_if_needed, set_session, delete_session, size,
}

module _ {V : Type 0} where
  evict_loop_oldest :
      (n : ℕ) (a : String) (v : V) (order : List String) (m : Map String V)
      → get a m ≡ some v
      → length m ≡ n
      → (evict_loop n (a ∷ order) m).1 ≡ delete a m
  unfolding evict_loop
  evict_loop_oldest n a v order m h full =
      let is_full : leb n (length m) ≡ true = ground arith in rw (is_full, evict_loop) (one order)
    where
      lower : leb n (length (delete a m)) ≡ false
      lower = let e = length-delete-lt a v m h in ground arith

      one : (o : List String) → (evict_loop n o (delete a m)).1 ≡ delete a m
      one [] = refl
      one (x ∷ o) = rw (lower, evict_loop) refl

  evicts_oldest :
      (a b : String) (v new : V) (order : List String) (s : SessionStore V)
      → s.insertion_order ≡ a ∷ order
      → get a s.sessions ≡ some v
      → size s ≡ s.max_sessions
      → get b s.sessions ≡ none
      → get a (set_session b new s).sessions ≡ none
  unfolding set_session evict_if_needed has
  evicts_oldest a b v new order s placed stored full absent =
      let evicted : (evict_loop s.max_sessions s.insertion_order s.sessions).1
          ≡ delete a s.sessions =
        ap (λ o. (evict_loop s.max_sessions o s.sessions).1) placed
        ∙ evict_loop_oldest s.max_sessions a v order s.sessions stored full in
      let apart : (b == a) ≡ false = elim (Bool-cases (b == a)) [
        | inl same ↦ absurd (let at = ap (λ i. get i s.sessions) ((==_iff b a).0 same) in cc)
        | inr other ↦ other
      ] in
      rw (absent, has, set_session)
        (ap (λ m. get a (set b new m)) evicted
          ∙ get-set b a new (delete a s.sessions)
          ∙ rw (apart, get-delete a a s.sessions, ==_refl a) refl)

  appended_order :
      (a : String) (v : V) (s : SessionStore V)
      → get a s.sessions ≡ none
      → size s < s.max_sessions
      → (set_session a v s).insertion_order ≡ s.insertion_order ++ a ∷ []
  unfolding set_session evict_if_needed has evict_loop
  appended_order a v s absent room =
      rw (absent, has, set_session) (ap (λ o. o ++ a ∷ []) (kept s.insertion_order))
    where
      kept : (o : List String) → (evict_loop s.max_sessions o s.sessions).0 ≡ o
      kept [] = refl
      kept (x ∷ o) =
          let h : leb s.max_sessions (length s.sessions) ≡ false = ground arith in
          rw (h, evict_loop) refl

  max_kept :
      (a : String) (v : V) (t : SessionStore V) → (set_session a v t).max_sessions ≡ t.max_sessions
  unfolding store_calls
  max_kept a v t = store_calls-max_sessions (set_call a v ∷ []) t

-- Where a full store's oldest place in the order is a session's, that session is deleted and set
-- again, and the store is full again, setting another new session evicts it, although every other
-- session was set before it.
pub reused-evicted :
    {V : Type 0} (a b : String) (old again new : V) (order : List String) (s : SessionStore V)
    → s.insertion_order ≡ a ∷ order
    → get a s.sessions ≡ some old
    → size s ≡ s.max_sessions
    → size (set_session a again (delete_session a s)) ≡ s.max_sessions
    → get b (set_session a again (delete_session a s)).sessions ≡ none
    → get a (set_session b new (set_session a again (delete_session a s))).sessions ≡ none
unfolding delete_session
reused-evicted a b old again new order s placed stored full refilled absent =
    let d = delete_session a s in
    let room : size d < d.max_sessions =
      let e = length-delete-lt a old s.sessions stored in omega arith in
    let gone : get a d.sessions ≡ none = get-delete a a s.sessions ∙ rw (==_refl a) refl in
    let there : get a (set_session a again d).sessions ≡ some again =
      set_session-get a a again d room ∙ rw (==_refl a) refl in
    evicts_oldest a b again new (order ++ a ∷ []) (set_session a again d)
      (appended_order a again d gone room ∙ ap (λ o. o ++ a ∷ []) placed) there
      (refilled ∙ sym (max_kept a again d)) absent
