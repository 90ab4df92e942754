-- ===== src/Stores/SessionStore.antt =====
-- `MemorySessionStore` of src/session/session-store.ts. A session is a value of any type.
pub mod Bounds
pub mod Reused
use kya_os_mcp.Common.{
  ℕ, List, [], ◌∷◌, ◌++◌, Option, some, none, String, string_eq, leb, length, keep_if,
  if◌then◌else◌,
}
use kya_os_mcp.Common.Map.{Map, get, set, delete, has}

pub record SessionStore {ℓ} (V : Type ℓ) : Type ℓ where
  pub sessions : Map String V
  pub insertion_order : List String
  pub max_sessions : ℕ

module _ {ℓ} {V : Type ℓ} where
  unfoldable pub new_store : ℕ → SessionStore V
  new_store max_sessions = record {
    sessions = [];
    insertion_order = [];
    max_sessions = max_sessions;
  }

  abbrev pub get_session : String → SessionStore V → Option V
  get_session id s = get id s.sessions

  -- `evictIfNeeded`: the loop goes on along the insertion order while the store is full.
  unfoldable pub evict_loop : ℕ → List String → Map String V → List String × Map String V
  evict_loop max_sessions [] sessions = ([], sessions)
  evict_loop max_sessions (oldest ∷ order) sessions =
      let rest = evict_loop max_sessions order (delete oldest sessions) in
      if leb max_sessions (length sessions) then rest else (oldest ∷ order, sessions)

  unfoldable pub evict_if_needed : SessionStore V → SessionStore V
  unfolding evict_loop
  evict_if_needed s =
      let (order, sessions) = evict_loop s.max_sessions s.insertion_order s.sessions in
      record s { sessions = sessions; insertion_order = order }

  unfoldable pub set_session : String → V → SessionStore V → SessionStore V
  unfolding evict_if_needed
  set_session id session s =
      let room = evict_if_needed s in
      if has id s.sessions then record s { sessions = set id session s.sessions } else record room {
        sessions = set id session room.sessions;
        insertion_order = room.insertion_order ++ id ∷ [];
      }

  unfoldable pub delete_session : String → SessionStore V → SessionStore V
  delete_session id s = record s { sessions = delete id s.sessions }

  unfoldable pub cleanup : SessionStore V → SessionStore V
  cleanup s = record s { insertion_order = keep_if (λ id. has id s.sessions) s.insertion_order }

  unfoldable pub clear : SessionStore V → SessionStore V
  clear s = record s { sessions = []; insertion_order = [] }

  abbrev pub size : SessionStore V → ℕ
  size s = length s.sessions
