-- ===== src/Audit/Merkle.antt =====
-- src/audit/merkle.ts: the RFC 9162 Merkle tree over audit entry digests. The hasher is a
-- parameter that answers with a digest or fails. `none` stands for a rejected call.
pub mod Directions
pub mod Levels
pub mod Climb
pub mod Loop
pub mod Proofs
pub mod Inclusion
use kya_os_mcp.Common.{
  ℕ, zero, suc, ◌+◌, ◌-◌, ◌*◌, ◌/◌, ◌%◌, Bool, true, false, ◌&&◌, ◌||◌, not, List, [], ◌∷◌, ◌++◌,
  Option, none, some, arith, ltb, leb, length, if◌then◌else◌, nat_eq, list_eq, ◌==◌,
}
use kya_os_mcp.Audit.Digests.{Bytes, Digest, digest_bytes}

pub record AuditInclusionVerification : Type 0 where
  pub leaf : Digest
  pub leaf_index : ℕ
  pub tree_size : ℕ
  pub root : Digest
  pub audit_path : List Digest

pub record AuditConsistencyVerification : Type 0 where
  pub old_size : ℕ
  pub new_size : ℕ
  pub old_root : Digest
  pub new_root : Digest
  pub audit_path : List Digest

-- `concat`
abbrev pub concat : List Bytes → Bytes
concat [] = []
concat (value ∷ values) = value ++ concat values

-- The loop that doubles `power`; each round doubles it, so `value` rounds are enough.
unfoldable pub double_while : ℕ → ℕ → ℕ → ℕ
double_while zero power value = power
double_while (suc f) power value =
    let rest = double_while f (power * 2) value in if ltb (power * 2) value then rest else power

unfoldable pub largest_power_of_two_less_than : ℕ → ℕ
unfolding double_while
largest_power_of_two_less_than value = double_while value 1 value

abbrev pub max_safe_integer : ℕ
max_safe_integer = 9007199254740991

-- `validateSize` does not throw.
abbrev pub validate_size : ℕ → Bool
validate_size size = leb size max_safe_integer

-- The first `n` items, and the items after them.
unfoldable pub slice_to {ℓ} : {A : Type ℓ} → ℕ → List A → List A
slice_to zero xs = []
slice_to (suc n) [] = []
slice_to (suc n) (x ∷ xs) = x ∷ slice_to n xs

unfoldable pub slice_from {ℓ} : {A : Type ℓ} → ℕ → List A → List A
slice_from zero xs = xs
slice_from (suc n) [] = []
slice_from (suc n) (x ∷ xs) = slice_from n xs

abbrev pub and_then {ℓ κ} : {A : Type ℓ} {B : Type κ} → Option A → (A → Option B) → Option B
and_then none f = none
and_then (some a) f = f a

-- `[...path, sibling]`, when both calls succeed.
abbrev pub extend : Option (List Digest) → Option Digest → Option (List Digest)
extend (some path) (some sibling) = some (path ++ sibling ∷ [])
extend _ _ = none

-- `(position & 1) === 1`
abbrev pub is_odd : ℕ → Bool
is_odd position = position % 2 == 1

-- The inner loop of the verifications: both positions are halved while the first is even and
-- not 0. It is halved at most its own number of times.
unfoldable pub halve_while_even : ℕ → ℕ → ℕ → ℕ × ℕ
halve_while_even zero position last = (position, last)
halve_while_even (suc f) position last =
    let rest = halve_while_even f (position / 2) (last / 2) in
    if not (is_odd position) && not (position == 0) then rest else (position, last)

unfoldable pub after_left : ℕ → ℕ → ℕ × ℕ
unfolding halve_while_even
after_left position last = halve_while_even position position last

-- The message that a leaf's hash is of.
abbrev pub leaf_message : Digest → Option Bytes
unfolding digest_bytes
leaf_message entry_digest =
    and_then (digest_bytes entry_digest) (λ b. some (concat ((0 ∷ []) ∷ b ∷ [])))

abbrev pub node_message : Digest → Digest → Option Bytes
unfolding digest_bytes
node_message left right =
    and_then (digest_bytes left)
      (λ l. and_then (digest_bytes right) (λ r. some (concat ((1 ∷ []) ∷ l ∷ r ∷ []))))

module _ (sha256 : Bytes → Option Digest) where
  unfoldable pub leaf_hash : Digest → Option Digest
  unfolding leaf_message
  leaf_hash entry_digest = and_then (leaf_message entry_digest) sha256

  unfoldable pub node_hash : Digest → Digest → Option Digest
  unfolding node_message
  node_hash left right = and_then (node_message left right) sha256

  abbrev pub node_of : Option Digest → Option Digest → Option Digest
  unfolding node_hash
  node_of left right = and_then left (λ l. and_then right (λ r. node_hash l r))

  -- `root`, with the depth of recursion it may use.
  unfoldable pub root_in : ℕ → List Digest → Option Digest
  unfolding leaf_hash node_of
  root_in f [] = sha256 []
  root_in f (leaf ∷ []) = leaf_hash leaf
  root_in zero (a ∷ b ∷ leaves) = none
  root_in (suc f) (a ∷ b ∷ leaves) =
      let split = largest_power_of_two_less_than (length (a ∷ b ∷ leaves)) in
      node_of (root_in f (slice_to split (a ∷ b ∷ leaves)))
        (root_in f (slice_from split (a ∷ b ∷ leaves)))

  unfoldable pub root : List Digest → Option Digest
  unfolding root_in
  root leaves = root_in (length leaves) leaves

  -- `buildInclusionProof`, likewise.
  unfoldable pub build_inclusion_proof : ℕ → List Digest → ℕ → Option (List Digest)
  unfolding root_in
  build_inclusion_proof f [] leaf_index = none
  build_inclusion_proof f (leaf ∷ []) leaf_index = some []
  build_inclusion_proof zero (a ∷ b ∷ leaves) leaf_index = none
  build_inclusion_proof (suc f) (a ∷ b ∷ leaves) leaf_index =
      let all = a ∷ b ∷ leaves in
      let split = largest_power_of_two_less_than (length all) in
      if ltb leaf_index split
      then extend (build_inclusion_proof f (slice_to split all) leaf_index)
          (root_in f (slice_from split all))
      else extend (build_inclusion_proof f (slice_from split all) (leaf_index - split))
          (root_in f (slice_to split all))

  unfoldable pub inclusion_proof : List Digest → ℕ → Option (List Digest)
  unfolding build_inclusion_proof
  inclusion_proof leaves leaf_index =
      if not (validate_size leaf_index) || (length leaves == 0 || leb (length leaves) leaf_index)
      then none
      else build_inclusion_proof (length leaves) leaves leaf_index

  -- The loop of `verifyInclusion` over the audit path, with the test after it.
  unfoldable pub inclusion_loop : List Digest → ℕ → ℕ → Option Digest → Digest → Bool
  unfolding node_hash
  inclusion_loop path position last none expected = false
  inclusion_loop [] position last (some calculated) expected = last == 0 && calculated == expected
  inclusion_loop (sibling ∷ path) position last (some calculated) expected =
      let next = after_left position last in
      let from_left =
        inclusion_loop path (next.0 / 2) (next.1 / 2) (node_hash sibling calculated) expected in
      let from_right =
        inclusion_loop path (position / 2) (last / 2) (node_hash calculated sibling) expected in
      if last == 0
      then false
      else (if is_odd position || position == last then from_left else from_right)

  unfoldable pub verify_inclusion : AuditInclusionVerification → Bool
  unfolding inclusion_loop leaf_hash
  verify_inclusion input =
      if not (validate_size input.leaf_index && validate_size input.tree_size)
      then false
      else (if input.tree_size == 0 || leb input.tree_size input.leaf_index
          then false
          else inclusion_loop input.audit_path input.leaf_index (input.tree_size - 1)
              (leaf_hash input.leaf) input.root)
