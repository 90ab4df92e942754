-- ===== src/Replay/Card.antt =====
-- `InMemoryNonceCache` of src/card/proof/nonce-cache.ts. DIDs and nonces are code units, since the
-- key joins them with a NUL.
pub mod Keys
pub mod Once
use kya_os_mcp.Common.{ℕ, ◌+◌, ◌*◌, max, nat_eq, list_eq, List, ◌∷◌, ◌++◌, leb, if◌then◌else◌}
use kya_os_mcp.Common.Map.{Map, set}
use kya_os_mcp.Text.{Text}
use kya_os_mcp.Replay.Expiry.{is_live, evict_expired}

abbrev pub sweep_every : ℕ
sweep_every = 1000

-- `ttl_ms` is fixed when the cache is built.
pub record CardCache : Type 0 where
  pub seen : Map Text ℕ
  pub ttl_ms : ℕ
  pub inserts_since_sweep : ℕ

unfoldable pub card_key : Text → Text → Text
card_key did nonce = did ++ 0 ∷ nonce

-- A retention that is not positive throws.
pub data Seen : Type 0 where
  fresh seen_before bad_retention : Seen

-- `now` is the clock as the sweep reads it.
unfoldable pub cleanup : ℕ → CardCache → CardCache
cleanup now c = record c { seen = evict_expired now c.seen }

-- The clock is read at `now`, and again at `sweep_now` if a sweep is due.
unfoldable pub consume : ℕ → ℕ → Text → Text → ℕ → CardCache → CardCache × Seen
unfolding is_live cleanup
consume now sweep_now nonce did min_ttl_sec c =
    let key = card_key did nonce in
    let ttl = max c.ttl_ms (min_ttl_sec * 1000) in
    let written = set key (now + ttl) c.seen in
    if is_live key now c.seen
    then (c, seen_before)
    else if leb ttl 0
    then (c, bad_retention)
    else if leb sweep_every (c.inserts_since_sweep + 1)
    then (cleanup sweep_now (record c { seen = written; inserts_since_sweep = 0 }), fresh)
    else (record c { seen = written; inserts_since_sweep = c.inserts_since_sweep + 1 }, fresh)
