-- ===== src/Replay/Provider.antt =====
-- `MemoryNonceCacheProvider` of src/providers/memory.ts. `key` is `JSON.stringify` of the agent's
-- DID, or null, and the nonce, which tells any two pairs apart: the pair stands for it.
use kya_os_mcp.Common.{
  ℕ, ◌+◌, ◌-◌, ◌*◌, ◌≡◌, ◌↔◌, Bool, true, false, ◌&&◌, List, [], ◌∷◌, Option, none, some, String,
  arith, ltb, leb, Eq, ◌==◌, ==_iff, string_eq, option_eq, if◌then◌else◌,
}
use kya_os_mcp.Common.Map.{Map, get, set, delete}
use kya_os_mcp.Replay.Expiry.{is_live, evict_expired}
pub mod Log
pub mod Once

abbrev pub Key : Type 0
Key = Option String × String

abbrev key_beq : Key → Key → Bool
key_beq (d, n) (e, m) = d == e && n == m

pub key_beq_iff : (a b : Key) → (key_beq a b ≡ true) ↔ (a ≡ b)
key_beq_iff (d, n) (e, m) = ground (arith, ==_iff d e, ==_iff n m)

instance abbrev pub key_eq : Eq Key
key_eq = record { same = key_beq; same_iff = key_beq_iff }

abbrev pub sweep_every : ℕ
sweep_every = 1000

abbrev pub sweep_interval_ms : ℕ
sweep_interval_ms = 60000

pub record NonceCache : Type 0 where
  pub nonces : Map Key ℕ
  pub writes_since_sweep : ℕ
  pub last_sweep_at : ℕ

unfoldable pub new_cache : ℕ → NonceCache
new_cache now = record { nonces = []; writes_since_sweep = 0; last_sweep_at = now }

-- `sweepIfDue`
unfoldable pub sweep_if_due : ℕ → NonceCache → NonceCache
sweep_if_due now c =
    let writes = c.writes_since_sweep + 1 in
    if ltb writes sweep_every && ltb (now - c.last_sweep_at) sweep_interval_ms
    then record c { writes_since_sweep = writes }
    else record { nonces = evict_expired now c.nonces; writes_since_sweep = 0; last_sweep_at = now }

-- The answer of `consume`; a lifetime of zero throws.
pub data Admission : Type 0 where
  admitted replayed bad_ttl : Admission

unfoldable pub consume : ℕ → Key → ℕ → NonceCache → NonceCache × Admission
unfolding is_live sweep_if_due
consume now key ttl_seconds c =
    if leb ttl_seconds 0
    then (c, bad_ttl)
    else if is_live key now c.nonces
    then (c, replayed)
    else (
      sweep_if_due now (record c { nonces = set key (now + ttl_seconds * 1000) c.nonces }),
      admitted,
    )

-- `has`: an expiry of 0 reads as absent, and is left in place.
abbrev pub has_entry : ℕ → Key → NonceCache → Option ℕ → NonceCache × Bool
has_entry now key c none = (c, false)
has_entry now key c (some expiry) =
    if leb expiry 0
    then (c, false)
    else if leb expiry now
    then (record c { nonces = delete key c.nonces }, false)
    else (c, true)

unfoldable pub has : ℕ → Key → NonceCache → NonceCache × Bool
has now key c = has_entry now key c (get key c.nonces)

unfoldable pub add : ℕ → Key → ℕ → NonceCache → NonceCache
unfolding sweep_if_due
add now key ttl_seconds c =
    sweep_if_due now (record c { nonces = set key (now + ttl_seconds * 1000) c.nonces })

unfoldable pub cleanup : ℕ → NonceCache → NonceCache
cleanup now c = record c { nonces = evict_expired now c.nonces }
