-- ===== src/Stores/TtlCache/Bounds.antt =====
-- The cache's order is the order of its keys, and it never holds more entries than its limit.
use kya_os_mcp.Common.{
  ℕ, suc, ◌+◌, ◌≤◌, ◌<◌, ◌≡◌, refl, sym, ap, ◌∙◌, ◌≢◌, inl, inr, Bool, false, List, [], ◌∷◌, ◌++◌,
  Option, none, some, String, arith, leb, ltb, ◌==◌, ◌||◌, string_eq, ==_iff, ==_refl,
  if◌then◌else◌, Bool-cases, Option-cases, length, All,
}
use mathlib.Core.Path.{subst}
use kya_os_mcp.Common.Map.{
  Map, get, set, delete, has, keys, get-set, get-delete, IsMap, set-IsMap, delete-IsMap,
  delete_absent, keys-set_new, length-set-le, length-delete-le,
}
use kya_os_mcp.Stores.TtlCache.{
  Entry, TtlCache, remove_first, delete_key, read_entry, read, evict_loop, write, delete_each,
  delete_where, clear,
}

-- No entry stands under the empty key.
pub record IsCache {V : Type 0} (c : TtlCache V) : Type 0 where
  pub is_map : IsMap c.entries
  pub named : get "" c.entries ≡ none
  pub ordered : c.insertion_order ≡ keys c.entries
  pub bounded : length c.entries ≤ c.max_entries

module _ {V : Type 0} where
  keys-delete :
      (key : String) (m : Map String V) → IsMap m → remove_first key (keys m) ≡ keys (delete key m)
  unfolding remove_first delete
  keys-delete key [] h = refl
  keys-delete key ((j, w) ∷ m) (fresh, h) = elim (Bool-cases (j == key)) [
    | inl same ↦
        let at : get key m ≡ none = ap (λ i. get i m) (sym ((==_iff j key).0 same)) ∙ fresh in
        rw (same, remove_first, delete) (ap keys (sym (delete_absent key m at)))
    | inr other ↦ rw (other, remove_first, delete) (ap (λ ks. j ∷ ks) (keys-delete key m h))
  ]

  get-delete-none : (k j : String) (m : Map String V) → get j m ≡ none → get j (delete k m) ≡ none
  get-delete-none k j m h = rw (get-delete k j m) (ground arith)

module _ {V : Type 0} where
  delete_key-IsCache : (key : String) (c : TtlCache V) → IsCache c → IsCache (delete_key key c)
  unfolding delete_key
  delete_key-IsCache key c h = record {
    is_map = delete-IsMap key c.entries h.is_map;
    named = get-delete-none key "" c.entries h.named;
    ordered = ap (remove_first key) h.ordered ∙ keys-delete key c.entries h.is_map;
    bounded = let b = h.bounded in omega (arith, length-delete-le key c.entries);
  }

  -- The loop drops the oldest entries until there is room.
  record IsRoomy (n : ℕ) (key : String) (order : List String) (m : Map String (Entry V))
      : Type 0 where
    is_map : IsMap m
    named : get "" m ≡ none
    unset : get key m ≡ none
    ordered : order ≡ keys m
    roomy : length m < n

  evict_loop-IsRoomy :
      (n : ℕ) (key : String) (m : Map String (Entry V))
      → 0 < n
      → IsMap m
      → get "" m ≡ none
      → get key m ≡ none
      → IsRoomy n key (evict_loop n (keys m) m).0 (evict_loop n (keys m) m).1
  unfolding evict_loop delete get
  evict_loop-IsRoomy n key [] pos h named unset = record {
    is_map = h;
    named = named;
    unset = unset;
    ordered = refl;
    roomy = omega arith;
  }
  evict_loop-IsRoomy n key ((j, w) ∷ m) pos (fresh, h) named unset =
      elim (Bool-cases (leb n (suc (length m)))) [
        | inr room ↦
            rw (room, evict_loop)
              (record {
                is_map = (fresh, h);
                named = named;
                unset = unset;
                ordered = refl;
                roomy = ground arith;
              })
        | inl full ↦
            let other : (j == "") ≡ false = ground arith in
            let gone : delete j ((j, w) ∷ m) ≡ m =
              rw (==_refl j, delete) (delete_absent j m fresh) in
            let rest = evict_loop-IsRoomy n key m pos h (rw (other, get) at named) (ground arith) in
            rw (full, other, evict_loop)
              (subst (λ d. IsRoomy n key (evict_loop n (keys m) d).0 (evict_loop n (keys m) d).1)
                (sym gone) rest)
      ]

  IsRoomy-IsCache :
      (now : ℕ) (key : String) (value : V) (c old : TtlCache V)
      → key ≢ ""
      → 0 < c.max_entries
      → IsCache old
      → get key old.entries ≡ none
      → IsCache (record c {
        entries =
            set key
              (record { value = value; expires_at = now + c.ttl_ms })
              (evict_loop c.max_entries old.insertion_order old.entries).1;
        insertion_order = (evict_loop c.max_entries old.insertion_order old.entries).0 ++ key ∷ [];
      })
  IsRoomy-IsCache now key value c old real pos h unset =
      let entry : Entry V = record { value = value; expires_at = now + c.ttl_ms } in
      let after = evict_loop c.max_entries old.insertion_order old.entries in
      let r =
        subst
          (λ o.
            IsRoomy c.max_entries key (evict_loop c.max_entries o old.entries).0
              (evict_loop c.max_entries o old.entries).1)
          (sym h.ordered)
          (evict_loop-IsRoomy c.max_entries key old.entries pos h.is_map h.named unset) in
      record {
        is_map = set-IsMap key entry after.1 r.is_map;
        named = get-set key "" entry after.1 ∙ (let n = r.named in ground (arith, ==_iff key ""));
        ordered = ap (λ o. o ++ key ∷ []) r.ordered ∙ sym (keys-set_new key entry after.1 r.unset);
        bounded = let b = r.roomy in omega (arith, length-set-le key entry after.1);
      }

  pub write-IsCache :
      (now : ℕ) (key : String) (value : V) (c : TtlCache V)
      → key ≢ ""
      → IsCache c
      → IsCache (write now key value c)
  unfolding write has delete_key
  write-IsCache now key value c real h = elim (Bool-cases (leb c.ttl_ms 0 || leb c.max_entries 0)) [
    | inl off ↦ rw (off, write) h
    | inr on ↦ elim (Option-cases (get key c.entries)) [
      | inl absent ↦
          rw (on, absent, has, write)
            (IsRoomy-IsCache now key value c c real (ground arith) h absent)
      | inr (entry, stored) ↦
          rw (on, stored, has, write)
            (IsRoomy-IsCache now key value c (delete_key key c) real (ground arith)
              (delete_key-IsCache key c h) (get-delete key key c.entries ∙ rw (==_refl key) refl))
    ]
  ]

  delete_each-IsCache :
      (p : String → Bool) (ks : List String) (c : TtlCache V)
      → IsCache c
      → IsCache (delete_each p ks c)
  unfolding delete_each
  delete_each-IsCache p [] c h = h
  delete_each-IsCache p (k ∷ ks) c h =
      delete_each-IsCache p ks (if p k then delete_key k c else c) (elim (Bool-cases (p k)) [
        | inl holds ↦ rw holds (delete_key-IsCache k c h)
        | inr fails ↦ rw fails h
      ])

  read-IsCache : (now : ℕ) (key : String) (c : TtlCache V) → IsCache c → IsCache (read now key c).0
  unfolding read
  read-IsCache now key c h = entry (get key c.entries)
    where
      entry : (o : Option (Entry V)) → IsCache (read_entry now key c o).0
      entry none = h
      entry (some e) = elim (Bool-cases (ltb e.expires_at now)) [
        | inl past ↦ rw (past, read_entry) (delete_key-IsCache key c h)
        | inr fresh ↦ rw (fresh, read_entry) h
      ]

pub data CacheCall (V : Type 0) : Type 0 where
  read_call : ℕ → String → CacheCall V
  write_call : ℕ → String → V → CacheCall V
  delete_call : String → CacheCall V
  delete_where_call : (String → Bool) → CacheCall V
  clear_call : CacheCall V

module _ {V : Type 0} where
  unfoldable pub cache_calls : List (CacheCall V) → TtlCache V → TtlCache V
  unfolding read write delete_key delete_where clear
  cache_calls [] c = c
  cache_calls (read_call now key ∷ ks) c = cache_calls ks (read now key c).0
  cache_calls (write_call now key v ∷ ks) c = cache_calls ks (write now key v c)
  cache_calls (delete_call key ∷ ks) c = cache_calls ks (delete_key key c)
  cache_calls (delete_where_call p ∷ ks) c = cache_calls ks (delete_where p c)
  cache_calls (clear_call ∷ ks) c = cache_calls ks (clear c)

  -- No value is written under the empty key.
  abbrev pub IsNamed : CacheCall V → Type 0
  IsNamed (write_call now key v) = key ≢ ""
  IsNamed _ = Unit

  -- A cache whose insertion order is the order of its keys, each there once and none empty, and
  -- that keeps to its limit, stays so whatever calls it receives, if none of them writes under the
  -- empty key.
  pub cache_calls-IsCache :
      (ks : List (CacheCall V)) (c : TtlCache V)
      → All IsNamed ks
      → IsCache c
      → IsCache (cache_calls ks c)
  unfolding cache_calls delete_where clear get
  cache_calls-IsCache [] c n h = h
  cache_calls-IsCache (read_call now key ∷ ks) c (_, n) h =
      cache_calls-IsCache ks (read now key c).0 n (read-IsCache now key c h)
  cache_calls-IsCache (write_call now key v ∷ ks) c (real, n) h =
      cache_calls-IsCache ks (write now key v c) n (write-IsCache now key v c real h)
  cache_calls-IsCache (delete_call key ∷ ks) c (_, n) h =
      cache_calls-IsCache ks (delete_key key c) n (delete_key-IsCache key c h)
  cache_calls-IsCache (delete_where_call p ∷ ks) c (_, n) h =
      cache_calls-IsCache ks (delete_where p c) n (delete_each-IsCache p (keys c.entries) c h)
  cache_calls-IsCache (clear_call ∷ ks) c (_, n) h =
      cache_calls-IsCache ks (clear c) n
        (record { is_map = tt; named = refl; ordered = refl; bounded = omega arith })
