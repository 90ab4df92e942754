-- ===== src/Delegation/StatusCache/Staleness.antt =====
-- The age of the answers of src/delegation/status-cache.ts.
use kya_os_mcp.Common.{
  ℕ, ◌+◌, ◌≤◌, ◌≡◌, refl, sym, ap, ◌∙◌, ◌⊎◌, inl, inr, Bool, ◌||◌, List, [], ◌∷◌, Option, none,
  some, some-injective, String, arith, leb, ltb, le_of_ltb, ◌==◌, string_eq, ==_iff, Bool-cases,
  Option-cases, length, All, Any,
}
use kya_os_mcp.Common.Map.{Map, get, set, delete, has, get-set, get-delete}
use kya_os_mcp.Stores.TtlCache.{Entry, TtlCache, delete_key, read, evict_loop, write}
use kya_os_mcp.Delegation.Graph.{CredentialStatus}
use kya_os_mcp.Delegation.StatusCache.{
  StatusListResolver, Times, with_status_cache, status_key, resolved, after_read, check_status,
}

get-delete_kept :
    {V : Type 0} (k j : String) (v : V) (m : Map String V)
    → get j (delete k m) ≡ some v
    → get j m ≡ some v
get-delete_kept k j v m h = elim (Bool-cases (k == j)) [
  | inl same ↦ absurd (let bad = rw (get-delete k j m, same) at h in cc)
  | inr other ↦ rw (get-delete k j m, other) at h
]

get-evict_loop :
    {V : Type 0} (n : ℕ) (order : List String) (m : Map String (Entry V)) (k : String) (e : Entry V)
    → get k (evict_loop n order m).1 ≡ some e
    → get k m ≡ some e
unfolding evict_loop
get-evict_loop n [] m k e h = h
get-evict_loop n (oldest ∷ order) m k e h = elim (Bool-cases (leb n (length m))) [
  | inr room ↦ rw (room, evict_loop) at h
  | inl full ↦ elim (Bool-cases (oldest == "")) [
    | inl empty ↦ get-evict_loop n order m k e (rw (full, empty, evict_loop) at h)
    | inr real ↦
        get-delete_kept oldest k e m
          (get-evict_loop n order (delete oldest m) k e (rw (full, real, evict_loop) at h))
  ]
]

-- What is stored after a write was stored before, or is what was written.
get-write :
    (now : ℕ) (key : String) (value : Bool) (c : TtlCache Bool) (k : String) (e : Entry Bool)
    → get k (write now key value c).entries ≡ some e
    → ((key ≡ k) × (e.value ≡ value) × (e.expires_at ≡ now + c.ttl_ms)) ⊎ (get k c.entries ≡ some e)
unfolding write has delete_key
get-write now key value c k e h = elim (Bool-cases (leb c.ttl_ms 0 || leb c.max_entries 0)) [
  | inl off ↦ inr (rw (off, write) at h)
  | inr on ↦ elim (Option-cases (get key c.entries)) [
    | inl absent ↦
        elim (written (evict_loop c.max_entries c.insertion_order c.entries).1
          (rw (on, absent, has, write) at h)) [
            | inl new ↦ inl new
            | inr old ↦ inr (get-evict_loop c.max_entries c.insertion_order c.entries k e old)
          ]
    | inr (u, there) ↦
        elim (written
          (evict_loop c.max_entries (delete_key key c).insertion_order (delete key c.entries)).1
          (rw (on, there, has, write) at h)) [
            | inl new ↦ inl new
            | inr old ↦ inr (
                get-delete_kept key k e c.entries (
                  get-evict_loop c.max_entries (delete_key key c).insertion_order
                    (delete key c.entries) k e old))
          ]
  ]
]
  where
    written :
        (m : Map String (Entry Bool))
        → get k (set key (record { value = value; expires_at = now + c.ttl_ms }) m) ≡ some e
        → ((key ≡ k) × (e.value ≡ value) × (e.expires_at ≡ now + c.ttl_ms)) ⊎ (get k m ≡ some e)
    written m at = elim (Bool-cases (key == k)) [
      | inr other ↦ inr (
          rw (get-set key k (record { value = value; expires_at = now + c.ttl_ms }) m, other) at at)
      | inl same ↦
          let q = some-injective (
            rw (get-set key k (record { value = value; expires_at = now + c.ttl_ms }) m, same) at
              at) in
          inl ((==_iff key k).0 same, ap (λ x. x.value) (sym q), ap (λ x. x.expires_at) (sym q))
    ]

ttl_ms-write :
    (now : ℕ) (key : String) (value : Bool) (c : TtlCache Bool)
    → (write now key value c).ttl_ms ≡ c.ttl_ms
unfolding write
ttl_ms-write now key value c = elim (Bool-cases (leb c.ttl_ms 0 || leb c.max_entries 0)) [
  | inl off ↦ rw (off, write) refl
  | inr on ↦ rw (on, write) refl
]

-- `IsMade` holds of the calls that were made.
module _ (resolver : StatusListResolver) (IsMade : Times × CredentialStatus → Type 0) where
  -- The resolver gave this answer for the key in a call that was made, which wrote it at the time.
  pub record WasAnswered (key : String) (answer : Bool) (written_at : ℕ) : Type 0 where
    pub call : Times × CredentialStatus
    pub made : IsMade call
    pub key_is : status_key call.1 ≡ key
    pub answered : resolver call.0.asked_at call.1 ≡ some answer
    pub written : call.0.written_at ≡ written_at

  abbrev pub IsKept : ℕ → TtlCache Bool → Type 0
  IsKept max_staleness_ms c =
      (c.ttl_ms ≡ max_staleness_ms)
      × ((k : String) (e : Entry Bool)
          → get k c.entries ≡ some e
          → (t : ℕ) × WasAnswered k e.value t × (e.expires_at ≡ t + max_staleness_ms))

  read-IsKept :
      (max now : ℕ) (key : String) (c : TtlCache Bool)
      → IsKept max c
      → IsKept max (read now key c).0
        × ((b : Bool)
            → (read now key c).1 ≡ some b
            → (t : ℕ) × WasAnswered key b t × (now ≤ t + max))
  unfolding read delete_key
  read-IsKept max now key c h = elim (Option-cases (get key c.entries)) [
    | inl absent ↦ rw (absent, read) (h, λ b hit. absurd (cc))
    | inr (entry, there) ↦ elim (Bool-cases (ltb entry.expires_at now)) [
      | inl over ↦
          rw (there, over, read)
            ((h.0, λ k e at. h.1 k e (get-delete_kept key k e c.entries at)), λ b hit. absurd (cc))
      | inr live ↦
          let (t, was, until) = h.1 key entry there in
          let le = le_of_ltb entry.expires_at now live in
          rw (there, live, read) (h, λ b hit. (t, rw (some-injective hit) at was, omega arith))
    ]
  ]

  pub check_status-IsKept :
      (max : ℕ) (times : Times) (status : CredentialStatus) (c : TtlCache Bool)
      → times.read_at ≤ times.asked_at
      → times.asked_at ≤ times.written_at
      → IsMade (times, status)
      → IsKept max c
      → IsKept max (check_status resolver times status c).1
        × ((b : Bool)
            → (check_status resolver times status c).0 ≡ some b
            → (t : ℕ) × WasAnswered (status_key status) b t × (times.read_at ≤ t + max))
  unfolding check_status
  check_status-IsKept max times status c before after made h =
      let key = status_key status in
      let (kept, hits) = read-IsKept max times.read_at key c h in
      of (read times.read_at key c) refl kept hits
    where
      of :
          (r : TtlCache Bool × Option Bool)
          → read times.read_at (status_key status) c ≡ r
          → IsKept max r.0
          → ((b : Bool)
              → r.1 ≡ some b
              → (t : ℕ) × WasAnswered (status_key status) b t × (times.read_at ≤ t + max))
          → IsKept max (after_read resolver times status r).1
            × ((b : Bool)
                → (after_read resolver times status r).0 ≡ some b
                → (t : ℕ) × WasAnswered (status_key status) b t × (times.read_at ≤ t + max))
      of (d, some hit) is kept hits = (kept, hits)
      of (d, none) is kept hits = asked (resolver times.asked_at status) refl
        where
          asked :
              (o : Option Bool)
              → resolver times.asked_at status ≡ o
              → IsKept max (resolved resolver times.written_at (status_key status) d o).1
                × ((b : Bool)
                    → (resolved resolver times.written_at (status_key status) d o).0 ≡ some b
                    → (t : ℕ) × WasAnswered (status_key status) b t × (times.read_at ≤ t + max))
          asked none said = (kept, λ b bad. absurd (cc))
          asked (some revoked) said =
              let was : WasAnswered (status_key status) revoked times.written_at = record {
                call = (times, status);
                made = made;
                key_is = refl;
                answered = said;
                written = refl;
              } in
              (
                (
                  ttl_ms-write times.written_at (status_key status) revoked d ∙ kept.0,
                  λ k e at. elim (get-write times.written_at (status_key status) revoked d k e at) [
                    | inr old ↦ kept.1 k e old
                    | inl (key, value, expiry) ↦ (
                      times.written_at,
                      rw (sym key, value) was,
                      expiry ∙ ap (λ n. times.written_at + n) kept.0,
                    )
                  ],
                ),
                λ b is_b. (times.written_at, rw (some-injective is_b) at was, omega arith),
              )

-- Within a call the clock does not go back.
abbrev pub IsOrdered : Times → Type 0
IsOrdered times = (times.read_at ≤ times.asked_at) × (times.asked_at ≤ times.written_at)

module _ (resolver : StatusListResolver) where
  unfoldable pub check_statuses : List (Times × CredentialStatus) → TtlCache Bool → TtlCache Bool
  unfolding check_status
  check_statuses [] c = c
  check_statuses ((times, status) ∷ calls) c =
      check_statuses calls (check_status resolver times status c).1

  check_statuses-IsKept :
      (IsMade : Times × CredentialStatus → Type 0) (max : ℕ)
      (calls : List (Times × CredentialStatus)) (c : TtlCache Bool)
      → All (λ call. IsOrdered call.0) calls
      → All IsMade calls
      → IsKept resolver IsMade max c
      → IsKept resolver IsMade max (check_statuses calls c)
  unfolding check_statuses
  check_statuses-IsKept IsMade max [] c ordered all h = h
  check_statuses-IsKept IsMade max ((times, status) ∷ calls) c ((before, after), ordered)
        (made, all) h =
      check_statuses-IsKept IsMade max calls (check_status resolver times status c).1 ordered all
        (check_status-IsKept resolver IsMade max times status c before after made h).0

  empty-IsKept :
      (IsMade : Times × CredentialStatus → Type 0) (max : ℕ) (max_entries : Option ℕ)
      → IsKept resolver IsMade max (with_status_cache max max_entries)
  unfolding with_status_cache get
  empty-IsKept IsMade max max_entries = (refl, λ k e at. absurd (cc))

  -- After any calls in each of which the clock does not go back, an answer of the cache is what the
  -- resolver answers at the asking time of one of these calls or of this one, for that call's status,
  -- which has the same key; and this call reads no later than the declared staleness after the time
  -- of writing of that call.
  pub status_staleness :
      (max_staleness_ms : ℕ) (max_entries : Option ℕ) (calls : List (Times × CredentialStatus))
      (times : Times) (status : CredentialStatus) (answer : Bool)
      → All (λ call. IsOrdered call.0) calls
      → IsOrdered times
      → (check_status resolver times status
          (check_statuses calls (with_status_cache max_staleness_ms max_entries))).0
        ≡ some answer
      → (call : Times × CredentialStatus) × Any (λ made. made ≡ call) ((times, status) ∷ calls)
        × (status_key call.1 ≡ status_key status)
        × (resolver call.0.asked_at call.1 ≡ some answer)
        × (times.read_at ≤ call.0.written_at + max_staleness_ms)
  status_staleness max_staleness_ms max_entries calls times status answer ordered (before, after)
        h =
      let (t, was, le) =
        (check_status-IsKept resolver IsMade max_staleness_ms times status _ before after (inl refl)
            (check_statuses-IsKept IsMade max_staleness_ms calls _ ordered
              (all_made calls (λ call there. inr there))
              (empty-IsKept IsMade max_staleness_ms max_entries))).1
          answer h in
      let e = was.written in (was.call, was.made, was.key_is, was.answered, omega arith)
    where
      IsMade : Times × CredentialStatus → Type 0
      IsMade call = Any (λ made. made ≡ call) ((times, status) ∷ calls)

      all_made :
          (some_calls : List (Times × CredentialStatus))
          → ((call : Times × CredentialStatus) → Any (λ made. made ≡ call) some_calls → IsMade call)
          → All IsMade some_calls
      all_made [] k = tt
      all_made (call ∷ rest) k =
          (k call (inl refl), all_made rest (λ other there. k other (inr there)))
