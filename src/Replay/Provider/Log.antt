-- ===== src/Replay/Provider/Log.antt =====
-- The cache answers as a log of its writes that forgets nothing.
use kya_os_mcp.Common.{
  ℕ, ◌+◌, ◌-◌, ◌*◌, ◌≤◌, ◌≡◌, refl, ap, ◌∙◌, inl, inr, Bool, false, ◌&&◌, List, [], ◌∷◌, Option,
  none, some, arith, ltb, leb, ◌==◌, string_eq, option_eq, if◌then◌else◌, Bool-cases,
}
use kya_os_mcp.Common.Map.{get, set, IsMap, set-IsMap, delete-IsMap}
use kya_os_mcp.Replay.Expiry.{
  is_later, is_live, evict_expired-IsMap, is_live-evict_expired, is_live-set, is_live-delete,
}
use kya_os_mcp.Replay.Provider.{
  Key, key_eq, sweep_every, sweep_interval_ms, NonceCache, new_cache, sweep_if_due, Admission,
  admitted, replayed, bad_ttl, consume, has_entry, has, add, cleanup,
}

-- A call on the cache.
pub data Call : Type 0 where
  consume_call : Key → ℕ → Call
  has_call : Key → Call
  add_call : Key → ℕ → Call
  cleanup_call : Call

pub data Answer : Type 0 where
  admission : Admission → Answer
  present : Bool → Answer
  done : Answer

unfoldable pub call : ℕ → Call → NonceCache → NonceCache × Answer
unfolding consume has add cleanup
call now (consume_call key ttl) c = let (after, a) = consume now key ttl c in (after, admission a)
call now (has_call key) c = let (after, b) = has now key c in (after, present b)
call now (add_call key ttl) c = (add now key ttl c, done)
call now cleanup_call c = (cleanup now c, done)

-- Each call with the time at which it is made.
unfoldable pub calls : List (ℕ × Call) → NonceCache → List Answer
unfolding call
calls [] c = []
calls ((now, k) ∷ ks) c = let (after, a) = call now k c in a ∷ calls ks after

-- The log: every write, the last one first. A key is used while its last write has not expired.
abbrev pub Log : Type 0
Log = List (Key × ℕ)

unfoldable pub is_used : Key → ℕ → Log → Bool
is_used key now [] = false
is_used key now ((j, expiry) ∷ log) =
    let rest = is_used key now log in if j == key then ltb now expiry else rest

unfoldable pub log_call : ℕ → Call → Log → Log × Answer
unfolding is_used
log_call now (consume_call key ttl) log =
    if leb ttl 0
    then (log, admission bad_ttl)
    else if is_used key now log
    then (log, admission replayed)
    else ((key, now + ttl * 1000) ∷ log, admission admitted)
log_call now (has_call key) log = (log, present (is_used key now log))
log_call now (add_call key ttl) log = ((key, now + ttl * 1000) ∷ log, done)
log_call now cleanup_call log = (log, done)

unfoldable pub log_calls : List (ℕ × Call) → Log → List Answer
unfolding log_call
log_calls [] log = []
log_calls ((now, k) ∷ ks) log = let (after, a) = log_call now k log in a ∷ log_calls ks after

-- The calls come in the order of their times, from `now` on.
abbrev pub IsOrdered : ℕ → List (ℕ × Call) → Type 0
IsOrdered now [] = Unit
IsOrdered now ((t, k) ∷ ks) = (now ≤ t) × IsOrdered t ks

-- From `now` on, the cache remembers what the log does.
pub record IsLogged (now : ℕ) (c : NonceCache) (log : Log) : Type 0 where
  pub is_map : IsMap c.nonces
  pub agrees : (key : Key) (t : ℕ) → now ≤ t → is_live key t c.nonces ≡ is_used key t log

sweep-IsLogged :
    (now : ℕ) (c : NonceCache) (log : Log)
    → IsLogged now c log
    → IsLogged now (sweep_if_due now c) log
unfolding sweep_if_due
sweep-IsLogged now c log h =
    elim (Bool-cases (
      ltb (c.writes_since_sweep + 1) sweep_every
      && ltb (now - c.last_sweep_at) sweep_interval_ms)) [
        | inl e ↦ rw (e, sweep_if_due) (record { is_map = h.is_map; agrees = h.agrees })
        | inr e ↦
            rw (e, sweep_if_due)
              (record {
                is_map = evict_expired-IsMap now c.nonces h.is_map;
                agrees = λ key t le.
                    is_live-evict_expired key now t c.nonces h.is_map le ∙ h.agrees key t le;
              })
      ]

write-IsLogged :
    (now : ℕ) (key : Key) (ttl : ℕ) (c : NonceCache) (log : Log)
    → IsLogged now c log
    → IsLogged now (add now key ttl c) ((key, now + ttl * 1000) ∷ log)
unfolding add is_used
write-IsLogged now key ttl c log h =
    sweep-IsLogged now (record c { nonces = set key (now + ttl * 1000) c.nonces })
      ((key, now + ttl * 1000) ∷ log)
      (record {
        is_map = set-IsMap key (now + ttl * 1000) c.nonces h.is_map;
        agrees = λ j t le.
            is_live-set key j (now + ttl * 1000) t c.nonces
            ∙ ap (λ b. if key == j then ltb t (now + ttl * 1000) else b) (h.agrees j t le);
      })

later-IsLogged :
    (now t : ℕ) (c : NonceCache) (log : Log) → now ≤ t → IsLogged now c log → IsLogged t c log
later-IsLogged now t c log le h = record {
  is_map = h.is_map;
  agrees = λ key u lu. h.agrees key u (omega arith);
}

-- One call: the same answer, and cache and log still agree.
abbrev IsMatched : ℕ → NonceCache × Answer → Log × Answer → Type 0
IsMatched now (c, a) (log, b) = (a ≡ b) × IsLogged now c log

consume-IsMatched :
    (now : ℕ) (key : Key) (ttl : ℕ) (c : NonceCache) (log : Log)
    → IsLogged now c log
    → IsMatched now (call now (consume_call key ttl) c) (log_call now (consume_call key ttl) log)
unfolding call consume log_call
consume-IsMatched now key ttl c log h = elim (Bool-cases (leb ttl 0)) [
  | inl zero ↦ rw (zero, call, log_call) (refl, h)
  | inr positive ↦ elim (Bool-cases (is_used key now log)) [
    | inl used ↦
        let live = h.agrees key now (omega arith) ∙ used in
        rw (positive, used, live, call, log_call) (refl, h)
    | inr new ↦
        let fresh = h.agrees key now (omega arith) ∙ new in
        rw (positive, new, fresh, call, log_call) (refl, write-IsLogged now key ttl c log h)
  ]
]

has_entry-IsMatched :
    (now : ℕ) (key : Key) (c : NonceCache) (log : Log) (o : Option ℕ)
    → get key c.nonces ≡ o
    → IsLogged now c log
    → (is_later now o ≡ is_used key now log)
    → IsMatched now
        (let (after, b) = has_entry now key c o in (after, present b))
        (log, present (is_used key now log))
has_entry-IsMatched now key c log none e h same = (ap present same, h)
has_entry-IsMatched now key c log (some expiry) e h same = elim (Bool-cases (leb expiry 0)) [
  | inl zero ↦ rw (zero, has_entry) (ap present (ground arith), h)
  | inr positive ↦ elim (Bool-cases (leb expiry now)) [
    | inl past ↦
        rw (positive, past, has_entry)
          (
            ap present (ground arith),
            record {
              is_map = delete-IsMap key c.nonces h.is_map;
              agrees = λ j t le.
                  is_live-delete key j expiry now t c.nonces e (ground arith) le ∙ h.agrees j t le;
            },
          )
    | inr future ↦ rw (positive, future, has_entry) (ap present (ground arith), h)
  ]
]

call-IsMatched :
    (now : ℕ) (k : Call) (c : NonceCache) (log : Log)
    → IsLogged now c log
    → IsMatched now (call now k c) (log_call now k log)
unfolding call has cleanup log_call is_live
call-IsMatched now (consume_call key ttl) c log h = consume-IsMatched now key ttl c log h
call-IsMatched now (has_call key) c log h =
    has_entry-IsMatched now key c log (get key c.nonces) refl h (h.agrees key now (omega arith))
call-IsMatched now (add_call key ttl) c log h = (refl, write-IsLogged now key ttl c log h)
call-IsMatched now cleanup_call c log h = (
  refl,
  record {
    is_map = evict_expired-IsMap now c.nonces h.is_map;
    agrees = λ key t le. is_live-evict_expired key now t c.nonces h.is_map le ∙ h.agrees key t le;
  },
)

calls-IsLogged :
    (now : ℕ) (ks : List (ℕ × Call)) (c : NonceCache) (log : Log)
    → IsLogged now c log
    → IsOrdered now ks
    → calls ks c ≡ log_calls ks log
unfolding calls log_calls
calls-IsLogged now [] c log h o = refl
calls-IsLogged now ((t, k) ∷ ks) c log h (le, o) =
    let (same, next) = call-IsMatched t k c log (later-IsLogged now t c log le h) in
    let rest = calls-IsLogged t ks (call t k c).0 (log_call t k log).0 next o in cc

-- For calls made in the order of the clock, the cache with its sweeps gives the same answers as a
-- log that keeps every write for ever.
pub calls-log_calls :
    (now : ℕ) (ks : List (ℕ × Call)) → IsOrdered now ks → calls ks (new_cache now) ≡ log_calls ks []
unfolding new_cache is_used is_live get
calls-log_calls now ks o =
    calls-IsLogged now ks (new_cache now) [] (record { is_map = tt; agrees = λ key t le. refl }) o
