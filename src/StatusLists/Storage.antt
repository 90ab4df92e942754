-- ===== src/StatusLists/Storage.antt =====
-- src/delegation/storage/memory-statuslist-storage.ts: the status list credentials, every version
-- of each, and the counters that indices are allocated from. `P` is the type of a proof. The
-- snapshots that the code clones are values here.
pub mod History
use kya_os_mcp.Common.{
  ℕ, zero, suc, ◌+◌, ◌-◌, Bool, ◌||◌, List, [], ◌∷◌, ◌++◌, Option, none, some, String, ltb, leb,
  length, get_elem?, if◌then◌else◌, string_eq,
}
use kya_os_mcp.Common.Map.{Map, get, set, keys}
use kya_os_mcp.Text.{Text}

-- `StatusList2021Credential`: the fields that are read or written. The purpose may be missing from
-- a stored list.
pub record StatusListCredential (P : Type 0) : Type 0 where
  pub id : String
  pub issuer : String
  pub status_purpose : Option String
  pub encoded_list : Text
  pub proof : Option P

pub record MemoryStatusListStorage (P : Type 0) : Type 0 where
  pub status_lists : Map String (StatusListCredential P)
  pub versions : Map String (List (StatusListCredential P))
  pub index_counters : Map String ℕ

abbrev pub or_zero : Option ℕ → ℕ
or_zero none = 0
or_zero (some n) = n

module _ {P : Type 0} where
  unfoldable pub get_status_list :
      String → MemoryStatusListStorage P → Option (StatusListCredential P)
  unfolding get
  get_status_list id storage = get id storage.status_lists

  abbrev pub or_empty : Option (List (StatusListCredential P)) → List (StatusListCredential P)
  or_empty none = []
  or_empty (some history) = history

  unfoldable pub set_status_list :
      String → StatusListCredential P → MemoryStatusListStorage P → MemoryStatusListStorage P
  unfolding get set
  set_status_list id credential storage = record storage {
    status_lists = set id credential storage.status_lists;
    versions = set id (or_empty (get id storage.versions) ++ credential ∷ []) storage.versions;
  }

  unfoldable pub get_index_count : String → MemoryStatusListStorage P → ℕ
  unfolding get
  get_index_count id storage = or_zero (get id storage.index_counters)

  unfoldable pub allocate_index : String → MemoryStatusListStorage P → MemoryStatusListStorage P × ℕ
  unfolding get_index_count set
  allocate_index id storage =
      let current = get_index_count id storage in
      (record storage { index_counters = set id (current + 1) storage.index_counters }, current)

  abbrev pub version_of :
      ℕ → Option (List (StatusListCredential P)) → Option (StatusListCredential P)
  version_of version none = none
  version_of version (some history) = get_elem? history (version - 1)

  unfoldable pub get_status_list_version :
      String → ℕ → MemoryStatusListStorage P → Option (StatusListCredential P)
  unfolding get
  get_status_list_version id version storage =
      if ltb 9007199254740991 version || ltb version 1
      then none
      else version_of version (get id storage.versions)

  unfoldable pub get_status_list_version_count : String → MemoryStatusListStorage P → ℕ
  unfolding get
  get_status_list_version_count id storage = length (or_empty (get id storage.versions))

  unfoldable pub clear : MemoryStatusListStorage P
  clear = record { status_lists = []; versions = []; index_counters = [] }

  unfoldable pub get_all_status_list_ids : MemoryStatusListStorage P → List String
  get_all_status_list_ids storage = keys storage.status_lists
