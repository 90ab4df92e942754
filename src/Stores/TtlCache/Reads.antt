-- ===== src/Stores/TtlCache/Reads.antt =====
-- What reads give after a write, and the entry that no write evicts.
use kya_os_mcp.Common.{
  ℕ, ◌+◌, ◌<◌, ◌≡◌, refl, ◌∙◌, ◌≢◌, inl, inr, false, List, [], ◌∷◌, none, some, String, arith, leb,
  ◌==◌, ◌||◌, string_eq, ==_iff, ==_refl, if◌then◌else◌, Bool-cases, Option-cases, length,
}
use kya_os_mcp.Common.Map.{Map, get, set, delete, has, get-set, get-delete}
use kya_os_mcp.Stores.TtlCache.{Entry, TtlCache, delete_key, read, evict_loop, write}

module _ {V : Type 0} where
  evict_loop-keeps_empty :
      (n : ℕ) (order : List String) (m : Map String (Entry V))
      → get "" (evict_loop n order m).1 ≡ get "" m
  unfolding evict_loop
  evict_loop-keeps_empty n [] m = refl
  evict_loop-keeps_empty n (oldest ∷ order) m = elim (Bool-cases (leb n (length m))) [
    | inr room ↦ rw (room, evict_loop) refl
    | inl full ↦ elim (Bool-cases (oldest == "")) [
      | inl empty ↦ rw (full, empty, evict_loop) (evict_loop-keeps_empty n order m)
      | inr real ↦
          rw (full, real, evict_loop)
            (evict_loop-keeps_empty n order (delete oldest m)
              ∙ get-delete oldest "" m
              ∙ rw real refl)
    ]
  ]

  -- No write under another key ever evicts the entry under the empty key, however full the cache
  -- is.
  pub write-keeps_empty :
      (now : ℕ) (key : String) (value : V) (c : TtlCache V)
      → key ≢ ""
      → get "" (write now key value c).entries ≡ get "" c.entries
  unfolding write has delete_key
  write-keeps_empty now key value c real =
      elim (Bool-cases (leb c.ttl_ms 0 || leb c.max_entries 0)) [
        | inl off ↦ rw (off, write) refl
        | inr on ↦
            let other : (key == "") ≡ false = ground (arith, ==_iff key "") in
            let entry : Entry V = record { value = value; expires_at = now + c.ttl_ms } in
            elim (Option-cases (get key c.entries)) [
              | inl absent ↦
                  rw (on, absent, has, write)
                    (get-set key "" entry (evict_loop c.max_entries c.insertion_order c.entries).1
                      ∙ rw other (evict_loop-keeps_empty c.max_entries c.insertion_order c.entries))
              | inr (e, stored) ↦
                  rw (on, stored, has, write)
                    (get-set key "" entry
                        (evict_loop c.max_entries (delete_key key c).insertion_order
                          (delete key c.entries)).1
                      ∙ rw other (
                          evict_loop-keeps_empty c.max_entries (delete_key key c).insertion_order
                            (delete key c.entries)
                          ∙ get-delete key "" c.entries
                          ∙ rw other refl))
            ]
      ]

  -- What is written, in a cache that stores at all, reads back until its time is over, and not after.
  pub read-write :
      (now later : ℕ) (key : String) (value : V) (c : TtlCache V)
      → 0 < c.ttl_ms
      → 0 < c.max_entries
      → (read later key (write now key value c)).1
        ≡ (if leb later (now + c.ttl_ms) then some value else none)
  unfolding read write
  read-write now later key value c live room =
      let on : (leb c.ttl_ms 0 || leb c.max_entries 0) ≡ false = ground arith in
      let entry : Entry V = record { value = value; expires_at = now + c.ttl_ms } in
      let old = if has key c.entries then delete_key key c else c in
      let there : get key
            (set key entry (evict_loop c.max_entries old.insertion_order old.entries).1)
          ≡ some entry =
        get-set key key entry (evict_loop c.max_entries old.insertion_order old.entries).1
        ∙ rw (==_refl key) refl in
      rw (on, write, there) (ground arith)
