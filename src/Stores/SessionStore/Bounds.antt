-- ===== src/Stores/SessionStore/Bounds.antt =====
-- The store never holds more sessions than its limit, and forgets none before it is full.
use kya_os_mcp.Common.{
  ℕ, ◌+◌, ◌≤◌, ◌<◌, max, ◌≡◌, refl, ap, ◌∙◌, ◌≢◌, inl, inr, true, false, List, [], ◌∷◌, ◌++◌, none,
  some, String, arith, leb, ◌==◌, string_eq, ==_iff, ==_refl, includes, includes-append,
  includes-keep_if, if◌then◌else◌, Bool-cases, Option-cases, length,
}
use kya_os_mcp.Common.Map.{
  Map, get, set, delete, has, get-set, get-delete, length-set-le, length-set, length-delete-le,
}
use kya_os_mcp.Stores.SessionStore.{
  SessionStore, new_store, evict_loop, evict_if_needed, set_session, delete_session, cleanup, clear,
  size,
}

-- Every session's id is in the insertion order.
abbrev IsOrdered : {V : Type 0} → List String → Map String V → Type 0
IsOrdered order m = (id : String) → get id m ≢ none → includes id order ≡ true

pub record IsBounded {V : Type 0} (s : SessionStore V) : Type 0 where
  pub ordered : IsOrdered s.insertion_order s.sessions
  pub bounded : size s ≤ max 1 s.max_sessions

module _ {V : Type 0} where
  IsOrdered-nil : (m : Map String V) → IsOrdered [] m → length m ≡ 0
  unfolding get
  IsOrdered-nil [] h = refl
  IsOrdered-nil ((j, w) ∷ m) h = absurd (let bad = h j (ground (arith, ==_refl j)) in cc)

  -- After the loop there is room for one more, unless the limit is 0.
  evict_loop-IsOrdered :
      (n : ℕ) (order : List String) (m : Map String V)
      → IsOrdered order m
      → IsOrdered (evict_loop n order m).0 (evict_loop n order m).1
        × (length (evict_loop n order m).1 + 1 ≤ max 1 n)
  unfolding evict_loop
  evict_loop-IsOrdered n [] m h = (h, let e = IsOrdered-nil m h in omega arith)
  evict_loop-IsOrdered n (oldest ∷ order) m h = elim (Bool-cases (leb n (length m))) [
    | inl full ↦ rw (full, evict_loop) (evict_loop-IsOrdered n order (delete oldest m) rest)
    | inr room ↦ rw (room, evict_loop) (h, ground arith)
  ]
    where
      rest : IsOrdered order (delete oldest m)
      rest id there = let e = get-delete oldest id m in ground (arith, ==_iff oldest id, h id)

  IsOrdered-set :
      (order : List String) (id : String) (v : V) (m : Map String V)
      → IsOrdered order m
      → IsOrdered (order ++ id ∷ []) (set id v m)
  IsOrdered-set order id v m h j there =
      let e = get-set id j v m in
      ground (arith, ==_iff id j, h j, includes-append j order (id ∷ []))

  IsOrdered-set_same :
      (order : List String) (id : String) (u v : V) (m : Map String V)
      → get id m ≡ some u
      → IsOrdered order m
      → IsOrdered order (set id v m)
  IsOrdered-set_same order id u v m stored h j there =
      let e = get-set id j v m in
      elim (Bool-cases (id == j)) [
        | inl same ↦ h j (λ n. let at = ap (λ i. get i m) ((==_iff id j).0 same) in cc)
        | inr other ↦ h j (λ n. ground arith)
      ]

  pub set_session-IsBounded :
      (id : String) (v : V) (s : SessionStore V) → IsBounded s → IsBounded (set_session id v s)
  unfolding set_session evict_if_needed has
  set_session-IsBounded id v s h = elim (Option-cases (get id s.sessions)) [
    | inr (u, stored) ↦
        rw (stored, has, set_session)
          (record {
            ordered = IsOrdered-set_same s.insertion_order id u v s.sessions stored h.ordered;
            bounded =
                let e = length-set id v u s.sessions stored in let b = h.bounded in omega arith;
          })
    | inl absent ↦
        let (ordered, room) =
          evict_loop-IsOrdered s.max_sessions s.insertion_order s.sessions h.ordered in
        rw (absent, has, set_session)
          (record {
            ordered =
                IsOrdered-set (evict_if_needed s).insertion_order id v (evict_if_needed s).sessions
                  ordered;
            bounded = omega (arith, length-set-le id v (evict_if_needed s).sessions);
          })
  ]

  has-get : (id : String) (m : Map String V) → get id m ≢ none → has id m ≡ true
  unfolding has
  has-get id m h = elim (Option-cases (get id m)) [
    | inl absent ↦ absurd (h absent)
    | inr (v, stored) ↦ rw (stored, has) refl
  ]

pub data StoreCall (V : Type 0) : Type 0 where
  set_call : String → V → StoreCall V
  delete_call : String → StoreCall V
  cleanup_call clear_call : StoreCall V

module _ {V : Type 0} where
  unfoldable pub store_calls : List (StoreCall V) → SessionStore V → SessionStore V
  unfolding set_session delete_session cleanup clear
  store_calls [] s = s
  store_calls (set_call id v ∷ ks) s = store_calls ks (set_session id v s)
  store_calls (delete_call id ∷ ks) s = store_calls ks (delete_session id s)
  store_calls (cleanup_call ∷ ks) s = store_calls ks (cleanup s)
  store_calls (clear_call ∷ ks) s = store_calls ks (clear s)

  pub store_calls-IsBounded :
      (ks : List (StoreCall V)) (s : SessionStore V) → IsBounded s → IsBounded (store_calls ks s)
  unfolding store_calls delete_session cleanup clear get
  store_calls-IsBounded [] s h = h
  store_calls-IsBounded (set_call id v ∷ ks) s h =
      store_calls-IsBounded ks (set_session id v s) (set_session-IsBounded id v s h)
  store_calls-IsBounded (delete_call id ∷ ks) s h =
      store_calls-IsBounded ks (delete_session id s) (record {
        ordered = λ j there.
            let e = get-delete id j s.sessions in h.ordered j (λ n. ground (arith, ==_iff id j));
        bounded = let b = h.bounded in omega (arith, length-delete-le id s.sessions);
      })
  store_calls-IsBounded (cleanup_call ∷ ks) s h = store_calls-IsBounded ks (cleanup s) (record {
    ordered = λ j there.
        includes-keep_if (λ id. has id s.sessions) j s.insertion_order (has-get j s.sessions there)
          (h.ordered j there);
    bounded = h.bounded;
  })
  store_calls-IsBounded (clear_call ∷ ks) s h =
      store_calls-IsBounded ks (clear s)
        (record { ordered = λ j there. absurd (there refl); bounded = omega arith })

  pub store_calls-max_sessions :
      (ks : List (StoreCall V)) (s : SessionStore V)
      → (store_calls ks s).max_sessions ≡ s.max_sessions
  unfolding store_calls set_session delete_session cleanup clear evict_if_needed
  store_calls-max_sessions [] s = refl
  store_calls-max_sessions (set_call id v ∷ ks) s =
      store_calls-max_sessions ks (set_session id v s) ∙ elim (Bool-cases (has id s.sessions)) [
        | inl there ↦ rw (there, set_session) refl
        | inr absent ↦ rw (absent, set_session) refl
      ]
  store_calls-max_sessions (delete_call id ∷ ks) s =
      store_calls-max_sessions ks (delete_session id s)
  store_calls-max_sessions (cleanup_call ∷ ks) s = store_calls-max_sessions ks (cleanup s)
  store_calls-max_sessions (clear_call ∷ ks) s = store_calls-max_sessions ks (clear s)

  evict_loop_room :
      (n : ℕ) (order : List String) (m : Map String V)
      → leb n (length m) ≡ false
      → (evict_loop n order m).1 ≡ m
  unfolding evict_loop
  evict_loop_room n [] m h = refl
  evict_loop_room n (oldest ∷ order) m h = rw (h, evict_loop) refl

-- Whatever calls a new store receives, it holds at most as many sessions as its limit, or one where
-- the limit is 0.
pub store_calls-bounded :
    {V : Type 0} (ks : List (StoreCall V)) (max_sessions : ℕ)
    → size (store_calls ks (new_store max_sessions)) ≤ max 1 max_sessions
unfolding new_store get store_calls
store_calls-bounded ks max_sessions =
    let h =
      store_calls-IsBounded ks (new_store max_sessions)
        (record { ordered = λ j there. absurd (there refl); bounded = omega arith }) in
    let b = h.bounded in let e = store_calls-max_sessions ks (new_store max_sessions) in omega arith

-- A store that is not full keeps every session when one is set, and then holds the new one.
pub set_session-get :
    {V : Type 0} (id j : String) (v : V) (s : SessionStore V)
    → size s < s.max_sessions
    → get j (set_session id v s).sessions ≡ (if id == j then some v else get j s.sessions)
unfolding set_session evict_if_needed
set_session-get id j v s room = elim (Bool-cases (has id s.sessions)) [
  | inl there ↦ rw (there, set_session) (get-set id j v s.sessions)
  | inr absent ↦
      let same = evict_loop_room s.max_sessions s.insertion_order s.sessions (ground arith) in
      rw (absent, set_session) (ap (λ m. get j (set id v m)) same ∙ get-set id j v s.sessions)
]
