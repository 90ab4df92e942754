-- ===== src/Stores/TtlCache.antt =====
-- `TtlCache` of src/utils/ttl-cache.ts.
pub mod Bounds
pub mod Reads
use kya_os_mcp.Common.{
  ℕ, ◌+◌, Bool, ◌||◌, List, [], ◌∷◌, ◌++◌, Option, some, none, String, ◌==◌, string_eq, leb, ltb,
  length, if◌then◌else◌,
}
use kya_os_mcp.Common.Map.{Map, get, set, delete, has, keys}

pub record Entry {ℓ} (V : Type ℓ) : Type ℓ where
  pub value : V
  pub expires_at : ℕ

pub record TtlCache {ℓ} (V : Type ℓ) : Type ℓ where
  pub entries : Map String (Entry V)
  pub insertion_order : List String
  pub ttl_ms : ℕ
  pub max_entries : ℕ

-- `indexOf` and `splice`: the first occurrence goes.
unfoldable pub remove_first : String → List String → List String
remove_first key [] = []
remove_first key (k ∷ ks) = let rest = remove_first key ks in if k == key then ks else k ∷ rest

module _ {ℓ} {V : Type ℓ} where
  unfoldable pub delete_key : String → TtlCache V → TtlCache V
  unfolding remove_first
  delete_key key c = record c {
    entries = delete key c.entries;
    insertion_order = remove_first key c.insertion_order;
  }

  abbrev read_entry : ℕ → String → TtlCache V → Option (Entry V) → TtlCache V × Option V
  read_entry now key c none = (c, none)
  read_entry now key c (some entry) =
      if ltb entry.expires_at now then (delete_key key c, none) else (c, some entry.value)

  unfoldable pub read : ℕ → String → TtlCache V → TtlCache V × Option V
  unfolding delete_key
  read now key c = read_entry now key c (get key c.entries)

  -- The loop of `set`: an empty key leaves the order but not the map.
  unfoldable pub evict_loop :
      ℕ → List String → Map String (Entry V) → List String × Map String (Entry V)
  evict_loop max_entries [] entries = ([], entries)
  evict_loop max_entries (oldest ∷ order) entries =
      let rest =
        evict_loop max_entries order (if oldest == "" then entries else delete oldest entries) in
      if leb max_entries (length entries) then rest else (oldest ∷ order, entries)

  unfoldable pub write : ℕ → String → V → TtlCache V → TtlCache V
  unfolding delete_key evict_loop
  write now key value c =
      let old = if has key c.entries then delete_key key c else c in
      let (order, entries) = evict_loop c.max_entries old.insertion_order old.entries in
      if leb c.ttl_ms 0 || leb c.max_entries 0 then c else record c {
        entries = set key (record { value = value; expires_at = now + c.ttl_ms }) entries;
        insertion_order = order ++ key ∷ [];
      }

  -- The loop of `deleteWhere` over a copy of the keys.
  unfoldable pub delete_each : (String → Bool) → List String → TtlCache V → TtlCache V
  unfolding delete_key
  delete_each p [] c = c
  delete_each p (k ∷ ks) c = delete_each p ks (if p k then delete_key k c else c)

  unfoldable pub delete_where : (String → Bool) → TtlCache V → TtlCache V
  unfolding delete_each
  delete_where p c = delete_each p (keys c.entries) c

  unfoldable pub clear : TtlCache V → TtlCache V
  clear c = record c { entries = []; insertion_order = [] }
