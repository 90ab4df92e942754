-- ===== src/Stores/PendingFlow/Once.antt =====
-- A pending flow is consumed once.
use kya_os_mcp.Common.{
  ℕ, ◌+◌, ◌-◌, ◌≤◌, ◌<◌, ◌≡◌, refl, ap, ◌∙◌, ◌≢◌, inl, inr, true, ◌||◌, List, [], ◌∷◌, none, some,
  String, arith, leb, ltb, string_eq, ==_iff, ==_refl, Bool-cases, Option-cases, All,
}
use kya_os_mcp.Common.Map.{
  Map, get, set, get-set, get-delete, IsMap, set-IsMap, get-filter_values, only_if, delete-IsMap,
  filter_values, filter_values-IsMap,
}
use kya_os_mcp.Stores.PendingFlow.{
  PendingFlow, Pending, FlowStore, sweep_every, sweep_interval_ms, evict_expired, put, get_flow,
  consume, delete_flow, cleanup,
}

pub data FlowCall : Type 0 where
  put_call : ℕ → String → PendingFlow → ℕ → FlowCall
  get_call : ℕ → String → FlowCall
  consume_call : ℕ → String → FlowCall
  delete_call : String → FlowCall
  cleanup_call : ℕ → FlowCall

unfoldable pub flow_calls : List FlowCall → FlowStore → FlowStore
unfolding put get_flow consume delete_flow cleanup
flow_calls [] s = s
flow_calls (put_call now token flow ttl ∷ ks) s = flow_calls ks (put now token flow ttl s)
flow_calls (get_call now token ∷ ks) s = flow_calls ks (get_flow now token s).0
flow_calls (consume_call now token ∷ ks) s = flow_calls ks (consume now token s).0
flow_calls (delete_call token ∷ ks) s = flow_calls ks (delete_flow token s)
flow_calls (cleanup_call now ∷ ks) s = flow_calls ks (cleanup now s)

-- A call that does not put a flow under the token.
abbrev pub IsNoPut : String → FlowCall → Type 0
IsNoPut token (put_call now t flow ttl) = t ≢ token
IsNoPut token _ = Unit

abbrev IsGone : String → FlowStore → Type 0
IsGone token s = IsMap s.pending × (get token s.pending ≡ none)

module _ (token : String) where
  evict-none :
      (now : ℕ) (m : Map String Pending)
      → IsMap m
      → get token m ≡ none
      → get token (evict_expired now m) ≡ none
  unfolding evict_expired
  evict-none now m h e = get-filter_values (λ p. ltb now p.expires_at) token m h ∙ rw e refl

  evict-IsMap : (now : ℕ) (m : Map String Pending) → IsMap m → IsMap (evict_expired now m)
  unfolding evict_expired
  evict-IsMap now m h = filter_values-IsMap (λ p. ltb now p.expires_at) m h

  delete-IsGone : (t : String) (s : FlowStore) → IsGone token s → IsGone token (delete_flow t s)
  unfolding delete_flow
  delete-IsGone t s (h, e) =
      (delete-IsMap t s.pending h, get-delete t token s.pending ∙ ground arith)

  put-IsGone :
      (now : ℕ) (t : String) (flow : PendingFlow) (ttl : ℕ) (s : FlowStore)
      → t ≢ token
      → IsGone token s
      → IsGone token (put now t flow ttl s)
  unfolding put
  put-IsGone now t flow ttl s other (h, e) =
      elim (Bool-cases (
        leb sweep_every (s.writes_since_sweep + 1)
        || leb sweep_interval_ms (now - s.last_sweep_at))) [
          | inl due ↦ rw (due, put) (evict-IsMap now written maps, evict-none now written maps gone)
          | inr early ↦ rw (early, put) (maps, gone)
        ]
    where
      written : Map String Pending
      written = set t (record { flow = flow; expires_at = now + ttl }) s.pending

      maps : IsMap written
      maps = set-IsMap t (record { flow = flow; expires_at = now + ttl }) s.pending h

      gone : get token written ≡ none
      gone =
          get-set t token (record { flow = flow; expires_at = now + ttl }) s.pending
          ∙ ground (arith, ==_iff t token)

  get-IsGone :
      (now : ℕ) (t : String) (s : FlowStore) → IsGone token s → IsGone token (get_flow now t s).0
  unfolding get_flow delete_flow
  get-IsGone now t s g = elim (Option-cases (get t s.pending)) [
    | inl absent ↦ rw (absent, get_flow) g
    | inr (entry, stored) ↦ elim (Bool-cases (leb entry.expires_at now)) [
      | inl past ↦ rw (stored, past, get_flow) (delete-IsGone t s g)
      | inr live ↦ rw (stored, live, get_flow) g
    ]
  ]

  consume-IsGone :
      (now : ℕ) (t : String) (s : FlowStore) → IsGone token s → IsGone token (consume now t s).0
  unfolding consume delete_flow
  consume-IsGone now t s g = elim (Option-cases (get t s.pending)) [
    | inl absent ↦ rw (absent, consume) g
    | inr (entry, stored) ↦ rw (stored, consume) (delete-IsGone t s g)
  ]

  flow_calls-IsGone :
      (ks : List FlowCall) (s : FlowStore)
      → All (IsNoPut token) ks
      → IsGone token s
      → IsGone token (flow_calls ks s)
  unfolding flow_calls cleanup
  flow_calls-IsGone [] s n g = g
  flow_calls-IsGone (put_call now t flow ttl ∷ ks) s (other, n) g =
      flow_calls-IsGone ks (put now t flow ttl s) n (put-IsGone now t flow ttl s other g)
  flow_calls-IsGone (get_call now t ∷ ks) s (_, n) g =
      flow_calls-IsGone ks (get_flow now t s).0 n (get-IsGone now t s g)
  flow_calls-IsGone (consume_call now t ∷ ks) s (_, n) g =
      flow_calls-IsGone ks (consume now t s).0 n (consume-IsGone now t s g)
  flow_calls-IsGone (delete_call t ∷ ks) s (_, n) g =
      flow_calls-IsGone ks (delete_flow t s) n (delete-IsGone t s g)
  flow_calls-IsGone (cleanup_call now ∷ ks) s (_, n) (h, e) =
      flow_calls-IsGone ks (cleanup now s) n
        (evict-IsMap now s.pending h, evict-none now s.pending h e)

  consumed-IsGone :
      (now : ℕ) (s : FlowStore) → IsMap s.pending → IsGone token (consume now token s).0
  unfolding consume
  consumed-IsGone now s h = elim (Option-cases (get token s.pending)) [
    | inl absent ↦ rw (absent, consume) (h, absent)
    | inr (entry, stored) ↦
        rw (stored, consume)
          (
            delete-IsMap token s.pending h,
            get-delete token token s.pending ∙ rw (==_refl token) refl,
          )
  ]

-- In a store that holds each token once: once a token is consumed, whatever the outcome and
-- whatever calls follow that put no flow under it again, consuming it gives no flow.
pub consume_flow_once :
    (now later : ℕ) (token : String) (ks : List FlowCall) (s : FlowStore)
    → IsMap s.pending
    → All (IsNoPut token) ks
    → (consume later token (flow_calls ks (consume now token s).0)).1 ≡ none
unfolding consume
consume_flow_once now later token ks s h n =
    let (_, gone) =
      flow_calls-IsGone token ks (consume now token s).0 n (consumed-IsGone token now s h) in
    rw (gone, consume) refl

-- In a store that holds each token once, a flow that is put is consumed by its token until it
-- expires, even if putting it swept the store.
pub consume-put :
    (now later : ℕ) (token : String) (flow : PendingFlow) (ttl : ℕ) (s : FlowStore)
    → IsMap s.pending
    → later < now + ttl
    → now ≤ later
    → (consume later token (put now token flow ttl s)).1 ≡ some flow
unfolding consume put evict_expired
consume-put now later token flow ttl s h live ordered =
    elim (Bool-cases (
      leb sweep_every (s.writes_since_sweep + 1)
      || leb sweep_interval_ms (now - s.last_sweep_at))) [
        | inl due ↦
            let kept : get token (filter_values (λ p. ltb now p.expires_at) written) ≡ some entry =
              get-filter_values (λ p. ltb now p.expires_at) token written maps
              ∙ ap (only_if (λ p. ltb now p.expires_at)) there
              ∙ still in
            rw (due, put, kept, consume) (ground arith)
        | inr early ↦ rw (early, put, there, consume) (ground arith)
      ]
  where
    entry : Pending
    entry = record { flow = flow; expires_at = now + ttl }

    written : Map String Pending
    written = set token entry s.pending

    maps : IsMap written
    maps = set-IsMap token entry s.pending h

    there : get token written ≡ some entry
    there = get-set token token entry s.pending ∙ rw (==_refl token) refl

    still : only_if (λ p. ltb now p.expires_at) (some entry) ≡ some entry
    still = let e : ltb now (now + ttl) ≡ true = ground arith in rw e refl
