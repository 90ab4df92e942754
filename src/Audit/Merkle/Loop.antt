-- ===== src/Audit/Merkle/Loop.antt =====
-- The loop of `verifyInclusion` of src/audit/merkle.ts is a climb along the sides of the path.
use kya_os_mcp.Common.{ℕ, ◌≡◌, refl, false, List, [], ◌∷◌, Option, none, nat_eq, list_eq, ◌==◌}
use kya_os_mcp.Audit.Digests.{Bytes, Digest}
use kya_os_mcp.Audit.Merkle.{node_hash, inclusion_loop}
use kya_os_mcp.Audit.Merkle.Directions.{Side, left_sibling, right_sibling}
use kya_os_mcp.Audit.Merkle.Climb.{IsLoop}

module _ (sha256 : Bytes → Option Digest) where
  -- One level up.
  abbrev pub join : Side → Digest → Digest → Option Digest
  join left_sibling sibling calculated = node_hash sha256 sibling calculated
  join right_sibling sibling calculated = node_hash sha256 calculated sibling

  pub inclusion_loop-IsLoop :
      (expected : Digest)
      → IsLoop join
          (λ c. c == expected)
          (λ path position last o. inclusion_loop sha256 path position last o expected)
  unfolding inclusion_loop
  inclusion_loop-IsLoop expected = record {
    failed = fails;
    ended = λ position last c. refl;
    stepped = λ s path position last c. refl;
  }
    where
      fails :
          (path : List Digest) (position last : ℕ)
          → inclusion_loop sha256 path position last none expected ≡ false
      fails [] position last = refl
      fails (s ∷ path) position last = refl
