-- ===== src/Replay/Card/Once.antt =====
-- A card proof's nonce is fresh once.
use kya_os_mcp.Common.{
  ℕ, ◌+◌, ◌*◌, ◌<◌, max, ◌≡◌, refl, ap, ◌∙◌, inl, inr, true, false, List, [], ◌∷◌, some, arith, leb,
  ◌==◌, ==_iff, ==_refl, nat_eq, list_eq, Bool-cases, All,
}
use kya_os_mcp.Common.Map.{Map, get, set, get-set, IsMap, set-IsMap}
use kya_os_mcp.Text.{Text}
use kya_os_mcp.Replay.Expiry.{is_later, is_live, evict_expired-IsMap, get-evict_expired}
use kya_os_mcp.Replay.Card.{sweep_every, CardCache, card_key, fresh, seen_before, cleanup, consume}

pub data CardCall : Type 0 where
  consume_call : ℕ → ℕ → Text → Text → ℕ → CardCall
  cleanup_call : ℕ → CardCall

unfoldable pub card_call : CardCall → CardCache → CardCache
unfolding consume cleanup
card_call (consume_call now sweep_now nonce did min_ttl) c =
    (consume now sweep_now nonce did min_ttl c).0
card_call (cleanup_call now) c = cleanup now c

unfoldable pub card_calls : List CardCall → CardCache → CardCache
unfolding card_call
card_calls [] c = c
card_calls (k ∷ ks) c = card_calls ks (card_call k c)

-- Every reading of the clock comes before `end`.
abbrev pub IsBefore : ℕ → CardCall → Type 0
IsBefore end (consume_call now sweep_now nonce did min_ttl) = (now < end) × (sweep_now < end)
IsBefore end (cleanup_call now) = now < end

record IsHeld (key : Text) (expiry : ℕ) (c : CardCache) : Type 0 where
  is_map : IsMap c.seen
  held : get key c.seen ≡ some expiry

module _ (key : Text) (expiry : ℕ) where
  cleanup-IsHeld :
      (now : ℕ) (c : CardCache)
      → now < expiry
      → IsHeld key expiry c
      → IsHeld key expiry (cleanup now c)
  unfolding cleanup
  cleanup-IsHeld now c lt h = record {
    is_map = evict_expired-IsMap now c.seen h.is_map;
    held = get-evict_expired key now c.seen h.is_map ∙ rw (h.held) (ground arith);
  }

  written-IsHeld :
      (now at : ℕ) (j : Text) (c : CardCache)
      → now < expiry
      → is_live j now c.seen ≡ false
      → IsHeld key expiry c
      → get key (set j at c.seen) ≡ some expiry
  unfolding is_live
  written-IsHeld now at j c lt new h = get-set j key at c.seen ∙ elim (Bool-cases (j == key)) [
    | inl same ↦ absurd (
        let live =
          ap (λ i. is_later now (get i c.seen)) ((==_iff j key).0 same)
          ∙ ap (is_later now) h.held in
        ground (arith, new, live))
    | inr apart ↦ rw apart (h.held)
  ]

  consume-IsHeld :
      (now sweep_now : ℕ) (nonce did : Text) (min_ttl : ℕ) (c : CardCache)
      → now < expiry
      → sweep_now < expiry
      → IsHeld key expiry c
      → IsHeld key expiry (consume now sweep_now nonce did min_ttl c).0
  unfolding consume
  consume-IsHeld now sweep_now nonce did min_ttl c lt swept h =
      elim (Bool-cases (is_live (card_key did nonce) now c.seen)) [
        | inl used ↦ rw (used, consume) h
        | inr new ↦ elim (Bool-cases (leb ttl 0)) [
          | inl zero ↦ rw (new, zero, consume) h
          | inr positive ↦ elim (Bool-cases (leb sweep_every (c.inserts_since_sweep + 1))) [
            | inl due ↦
                rw (new, positive, due, consume)
                  (cleanup-IsHeld sweep_now (record c { seen = written; inserts_since_sweep = 0 })
                    swept (record { is_map = maps; held = holds new }))
            | inr early ↦
                rw (new, positive, early, consume) (record { is_map = maps; held = holds new })
          ]
        ]
      ]
    where
      ttl : ℕ
      ttl = max c.ttl_ms (min_ttl * 1000)

      written : Map Text ℕ
      written = set (card_key did nonce) (now + ttl) c.seen

      maps : IsMap written
      maps = set-IsMap (card_key did nonce) (now + ttl) c.seen h.is_map

      holds : is_live (card_key did nonce) now c.seen ≡ false → get key written ≡ some expiry
      holds new = written-IsHeld now (now + ttl) (card_key did nonce) c lt new h

  card_calls-IsHeld :
      (ks : List CardCall) (c : CardCache)
      → All (IsBefore expiry) ks
      → IsHeld key expiry c
      → IsHeld key expiry (card_calls ks c)
  unfolding card_calls card_call
  card_calls-IsHeld [] c a h = h
  card_calls-IsHeld (consume_call now sweep_now nonce did min_ttl ∷ ks) c ((lt, swept), a) h =
      card_calls-IsHeld ks (consume now sweep_now nonce did min_ttl c).0 a
        (consume-IsHeld now sweep_now nonce did min_ttl c lt swept h)
  card_calls-IsHeld (cleanup_call now ∷ ks) c (lt, a) h =
      card_calls-IsHeld ks (cleanup now c) a (cleanup-IsHeld now c lt h)

fresh-IsHeld :
    (now sweep_now : ℕ) (nonce did : Text) (min_ttl : ℕ) (c : CardCache)
    → IsMap c.seen
    → sweep_now < now + max c.ttl_ms (min_ttl * 1000)
    → (consume now sweep_now nonce did min_ttl c).1 ≡ fresh
    → IsHeld
        (card_key did nonce)
        (now + max c.ttl_ms (min_ttl * 1000))
        (consume now sweep_now nonce did min_ttl c).0
unfolding consume
fresh-IsHeld now sweep_now nonce did min_ttl c m lt h = elim (Bool-cases (is_live key now c.seen)) [
  | inl used ↦ absurd (let bad = rw (used, consume) at h in cc)
  | inr new ↦ elim (Bool-cases (leb ttl 0)) [
    | inl zero ↦ absurd (let bad = rw (new, zero, consume) at h in cc)
    | inr positive ↦ elim (Bool-cases (leb sweep_every (c.inserts_since_sweep + 1))) [
      | inl due ↦
          rw (new, positive, due, consume)
            (cleanup-IsHeld key (now + ttl) sweep_now
              (record c { seen = written; inserts_since_sweep = 0 }) lt
              (record { is_map = maps; held = holds }))
      | inr early ↦ rw (new, positive, early, consume) (record { is_map = maps; held = holds })
    ]
  ]
]
  where
    key : Text
    key = card_key did nonce

    ttl : ℕ
    ttl = max c.ttl_ms (min_ttl * 1000)

    written : Map Text ℕ
    written = set key (now + ttl) c.seen

    maps : IsMap written
    maps = set-IsMap key (now + ttl) c.seen m

    holds : get key written ≡ some (now + ttl)
    holds = get-set key key (now + ttl) c.seen ∙ rw (==_refl key) refl

-- In a cache that holds each key once: after a card proof's nonce was fresh, and whatever is
-- consumed or swept while it is retained, its own sweep included, the same DID and nonce read as
-- seen before, for as long as they are retained.
pub card_consume_once :
    (now sweep_now later later_sweep : ℕ) (nonce did : Text) (min_ttl again : ℕ)
    (ks : List CardCall) (c : CardCache)
    → IsMap c.seen
    → (consume now sweep_now nonce did min_ttl c).1 ≡ fresh
    → sweep_now < now + max c.ttl_ms (min_ttl * 1000)
    → All (IsBefore (now + max c.ttl_ms (min_ttl * 1000))) ks
    → later < now + max c.ttl_ms (min_ttl * 1000)
    → (consume later later_sweep nonce did again
        (card_calls ks (consume now sweep_now nonce did min_ttl c).0)).1
      ≡ seen_before
unfolding consume is_live
card_consume_once now sweep_now later later_sweep nonce did min_ttl again ks c m first swept within
      lt =
    let key = card_key did nonce in
    let end = now + max c.ttl_ms (min_ttl * 1000) in
    let after = card_calls ks (consume now sweep_now nonce did min_ttl c).0 in
    let h =
      card_calls-IsHeld key end ks (consume now sweep_now nonce did min_ttl c).0 within
        (fresh-IsHeld now sweep_now nonce did min_ttl c m swept first) in
    let live : is_live key later after.seen ≡ true = ap (is_later later) h.held ∙ ground arith in
    rw (live, consume) refl
