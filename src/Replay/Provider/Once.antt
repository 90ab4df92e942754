-- ===== src/Replay/Provider/Once.antt =====
-- A nonce is admitted once in its lifetime.
use kya_os_mcp.Common.{
  ℕ, ◌+◌, ◌-◌, ◌*◌, ◌<◌, ◌≡◌, refl, sym, ap, ◌∙◌, inl, inr, true, false, ◌&&◌, List, [], ◌∷◌,
  Option, none, some, arith, ltb, leb, ◌==◌, ==_iff, ==_refl, string_eq, option_eq, if◌then◌else◌,
  Bool-cases, All,
}
use kya_os_mcp.Common.Map.{get, set, get-set, get-delete, IsMap, set-IsMap, delete-IsMap}
use kya_os_mcp.Replay.Expiry.{is_later, is_live, evict_expired-IsMap, get-evict_expired}
use kya_os_mcp.Replay.Provider.{
  Key, key_eq, sweep_every, sweep_interval_ms, NonceCache, sweep_if_due, admitted, replayed,
  consume, has_entry, has, cleanup,
}
use kya_os_mcp.Replay.Provider.Log.{Call, consume_call, has_call, add_call, cleanup_call, call}

unfoldable pub after_calls : List (ℕ × Call) → NonceCache → NonceCache
unfolding call
after_calls [] c = c
after_calls ((now, k) ∷ ks) c = after_calls ks (call now k c).0

-- Admission uses `consume`; `add` overwrites what `consume` recorded.
abbrev pub IsNoAdd : Call → Type 0
IsNoAdd (add_call key ttl) = ⊥
IsNoAdd _ = Unit

record IsHeld (key : Key) (expiry : ℕ) (c : NonceCache) : Type 0 where
  is_map : IsMap c.nonces
  held : get key c.nonces ≡ some expiry

module _ (key : Key) (expiry : ℕ) where
  evict-IsHeld :
      (now : ℕ) (c : NonceCache)
      → now < expiry
      → IsHeld key expiry c
      → IsHeld key expiry (cleanup now c)
  unfolding cleanup
  evict-IsHeld now c lt h = record {
    is_map = evict_expired-IsMap now c.nonces h.is_map;
    held = get-evict_expired key now c.nonces h.is_map ∙ rw (h.held) (ground arith);
  }

  sweep-IsHeld :
      (now : ℕ) (c : NonceCache)
      → now < expiry
      → IsHeld key expiry c
      → IsHeld key expiry (sweep_if_due now c)
  unfolding sweep_if_due cleanup
  sweep-IsHeld now c lt h =
      elim (Bool-cases (
        ltb (c.writes_since_sweep + 1) sweep_every
        && ltb (now - c.last_sweep_at) sweep_interval_ms)) [
          | inl e ↦ rw (e, sweep_if_due) (record { is_map = h.is_map; held = h.held })
          | inr e ↦
              let swept = evict-IsHeld now c lt h in
              rw (e, sweep_if_due) (record { is_map = swept.is_map; held = swept.held })
        ]

  consume-IsHeld :
      (now : ℕ) (j : Key) (ttl : ℕ) (c : NonceCache)
      → now < expiry
      → IsHeld key expiry c
      → IsHeld key expiry (consume now j ttl c).0
  unfolding consume is_live
  consume-IsHeld now j ttl c lt h = elim (Bool-cases (leb ttl 0)) [
    | inl zero ↦ rw (zero, consume) h
    | inr positive ↦ elim (Bool-cases (is_live j now c.nonces)) [
      | inl used ↦ rw (positive, used, consume) h
      | inr new ↦
          rw (positive, new, consume)
            (sweep-IsHeld now (record c { nonces = set j (now + ttl * 1000) c.nonces }) lt
              (record {
                is_map = set-IsMap j (now + ttl * 1000) c.nonces h.is_map;
                held = get-set j key (now + ttl * 1000) c.nonces ∙ other new;
              }))
    ]
  ]
    where
      other :
          is_live j now c.nonces ≡ false
          → (if j == key then some (now + ttl * 1000) else get key c.nonces) ≡ some expiry
      other new = elim (Bool-cases (j == key)) [
        | inl same ↦ absurd (
            let live =
              ap (λ i. is_later now (get i c.nonces)) ((==_iff j key).0 same)
              ∙ ap (is_later now) h.held in
            ground (arith, new, live))
        | inr apart ↦ rw apart (h.held)
      ]

  has_entry-IsHeld :
      (now : ℕ) (j : Key) (c : NonceCache) (o : Option ℕ)
      → get j c.nonces ≡ o
      → now < expiry
      → IsHeld key expiry c
      → IsHeld key expiry (has_entry now j c o).0
  has_entry-IsHeld now j c none e lt h = h
  has_entry-IsHeld now j c (some x) e lt h = elim (Bool-cases (leb x 0)) [
    | inl zero ↦ rw (zero, has_entry) h
    | inr positive ↦ elim (Bool-cases (leb x now)) [
      | inr future ↦ rw (positive, future, has_entry) h
      | inl past ↦
          rw (positive, past, has_entry)
            (record {
              is_map = delete-IsMap j c.nonces h.is_map;
              held = get-delete j key c.nonces ∙ other past;
            })
    ]
  ]
    where
      other : leb x now ≡ true → (if j == key then none else get key c.nonces) ≡ some expiry
      other past = elim (Bool-cases (j == key)) [
        | inl same ↦ absurd (
            let at : some x ≡ some expiry =
              sym e ∙ ap (λ i. get i c.nonces) ((==_iff j key).0 same) ∙ h.held in
            ground (arith, past, at))
        | inr apart ↦ rw apart (h.held)
      ]

  call-IsHeld :
      (now : ℕ) (k : Call) (c : NonceCache)
      → IsNoAdd k
      → now < expiry
      → IsHeld key expiry c
      → IsHeld key expiry (call now k c).0
  unfolding call has
  call-IsHeld now (consume_call j ttl) c n lt h = consume-IsHeld now j ttl c lt h
  call-IsHeld now (has_call j) c n lt h = has_entry-IsHeld now j c (get j c.nonces) refl lt h
  call-IsHeld now (add_call j ttl) c n lt h = elim n [ ]
  call-IsHeld now cleanup_call c n lt h = evict-IsHeld now c lt h

  after_calls-IsHeld :
      (ks : List (ℕ × Call)) (c : NonceCache)
      → All (λ (now, k). (now < expiry) × IsNoAdd k) ks
      → IsHeld key expiry c
      → IsHeld key expiry (after_calls ks c)
  unfolding after_calls
  after_calls-IsHeld [] c a h = h
  after_calls-IsHeld ((now, k) ∷ ks) c ((lt, n), a) h =
      after_calls-IsHeld ks (call now k c).0 a (call-IsHeld now k c n lt h)

  consume_held :
      (now ttl : ℕ) (c : NonceCache)
      → now < expiry
      → 0 < ttl
      → IsHeld key expiry c
      → (consume now key ttl c).1 ≡ replayed
  unfolding consume is_live
  consume_held now ttl c lt positive h =
      let some_ttl : leb ttl 0 ≡ false = ground arith in
      let live : is_live key now c.nonces ≡ true = ap (is_later now) h.held ∙ ground arith in
      rw (some_ttl, live, consume) refl

admitted-IsHeld :
    (now : ℕ) (key : Key) (ttl : ℕ) (c : NonceCache)
    → IsMap c.nonces
    → (consume now key ttl c).1 ≡ admitted
    → IsHeld key (now + ttl * 1000) (consume now key ttl c).0
unfolding consume is_live
admitted-IsHeld now key ttl c m h = elim (Bool-cases (leb ttl 0)) [
  | inl zero ↦ absurd (let bad = rw (zero, consume) at h in cc)
  | inr positive ↦ elim (Bool-cases (is_live key now c.nonces)) [
    | inl used ↦ absurd (let bad = rw (positive, used, consume) at h in cc)
    | inr new ↦
        rw (positive, new, consume)
          (sweep-IsHeld key (now + ttl * 1000) now
            (record c { nonces = set key (now + ttl * 1000) c.nonces }) (ground arith)
            (record {
              is_map = set-IsMap key (now + ttl * 1000) c.nonces m;
              held = get-set key key (now + ttl * 1000) c.nonces ∙ rw (==_refl key) refl;
            }))
  ]
]

-- In a cache that holds each key once: after a nonce is admitted with a lifetime, and whatever is
-- consumed, looked up or swept within that lifetime, with no write past `consume`, consuming it
-- again within the lifetime, for any positive one, reports a replay.
pub consume_once :
    (now later : ℕ) (key : Key) (ttl ttl_again : ℕ) (ks : List (ℕ × Call)) (c : NonceCache)
    → IsMap c.nonces
    → (consume now key ttl c).1 ≡ admitted
    → All (λ (t, k). (t < now + ttl * 1000) × IsNoAdd k) ks
    → later < now + ttl * 1000
    → 0 < ttl_again
    → (consume later key ttl_again (after_calls ks (consume now key ttl c).0)).1 ≡ replayed
consume_once now later key ttl ttl_again ks c m first within lt positive =
    consume_held key (now + ttl * 1000) later ttl_again (after_calls ks (consume now key ttl c).0)
      lt positive
      (after_calls-IsHeld key (now + ttl * 1000) ks (consume now key ttl c).0 within
        (admitted-IsHeld now key ttl c m first))
