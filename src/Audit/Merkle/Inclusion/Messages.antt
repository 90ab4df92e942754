-- ===== src/Audit/Merkle/Inclusion/Messages.antt =====
-- The messages that `root` of src/audit/merkle.ts hashes for a tree.
use kya_os_mcp.Common.{
  ℕ, zero, suc, ◌≡◌, refl, sym, ap, ◌∙◌, List, [], ◌∷◌, ◌++◌, Option, none, some, arith, length,
  All,
}
use kya_os_mcp.Audit.Digests.{
  Bytes, Digest, digest_bytes, digest_bytes-injective, digest_bytes-length,
}
use kya_os_mcp.Audit.Merkle.{
  slice_to, slice_from, and_then, node_message, leaf_message, leaf_hash, node_hash, root_in,
  largest_power_of_two_less_than,
}

abbrev pub present : Option Bytes → List Bytes
present none = []
present (some m) = m ∷ []

append-injective : (a b c d : Bytes) → length a ≡ length b → a ++ c ≡ b ++ d → (a ≡ b) × (c ≡ d)
append-injective [] [] c d h k = (refl, k)
append-injective [] (y ∷ b) c d h k = absurd (omega arith)
append-injective (x ∷ a) [] c d h k = absurd (omega arith)
append-injective (x ∷ a) (y ∷ b) c d h k =
    let tails : a ++ c ≡ b ++ d = cc in
    let heads : x ≡ y = cc in let (e, e') = append-injective a b c d (omega arith) tails in (cc, e')

bytes_of :
    (d : Digest) (o : Option Bytes) (m : Bytes) (f : Bytes → Option Bytes)
    → o ≡ digest_bytes d
    → and_then o f ≡ some m
    → (bs : Bytes) × (digest_bytes d ≡ some bs) × (f bs ≡ some m)
bytes_of d none m f e h = absurd (cc)
bytes_of d (some bs) m f e h = (bs, sym e, h)

leaf_message-injective :
    (x y : Digest) (m : Bytes) → leaf_message x ≡ some m → leaf_message y ≡ some m → x ≡ y
unfolding leaf_message
leaf_message-injective x y m h k =
    let (bs, at, made) = bytes_of x (digest_bytes x) m _ refl h in
    let (cs, at', made') = bytes_of y (digest_bytes y) m _ refl k in
    let size = digest_bytes-length x bs at in
    let size' = digest_bytes-length y cs at' in
    let whole : bs ++ [] ≡ cs ++ [] = cc in
    let (same, _) = append-injective bs cs [] [] (omega arith) whole in
    digest_bytes-injective x y bs at (at' ∙ ap some (sym same))

pub node_message-injective :
    (a b c d : Digest) (m : Bytes)
    → node_message a b ≡ some m
    → node_message c d ≡ some m
    → (a ≡ c) × (b ≡ d)
unfolding node_message
node_message-injective a b c d m h k =
    let (p, a_at, made) = bytes_of a (digest_bytes a) m _ refl h in
    let (q, b_at, joined) = bytes_of b (digest_bytes b) m _ refl made in
    let (p', c_at, made') = bytes_of c (digest_bytes c) m _ refl k in
    let (q', d_at, joined') = bytes_of d (digest_bytes d) m _ refl made' in
    let sizes : length p ≡ length p' =
      omega (arith, digest_bytes-length a p a_at, digest_bytes-length c p' c_at) in
    let sizes' : length q ≡ length q' =
      omega (arith, digest_bytes-length b q b_at, digest_bytes-length d q' d_at) in
    let whole : p ++ (q ++ []) ≡ p' ++ (q' ++ []) = cc in
    let (e, rest) = append-injective p p' (q ++ []) (q' ++ []) sizes whole in
    let (e', _) = append-injective q q' [] [] sizes' rest in
    (
      digest_bytes-injective a c p a_at (c_at ∙ ap some (sym e)),
      digest_bytes-injective b d q b_at (d_at ∙ ap some (sym e')),
    )

module _ (sha256 : Bytes → Option Digest) where
  abbrev roots_message : Option Digest → Option Digest → Option Bytes
  unfolding node_message
  roots_message left right = and_then left (λ l. and_then right (λ r. node_message l r))

  -- Every message hashed for the root: the leaves' and the nodes'.
  unfoldable pub tree_messages : ℕ → List Digest → List Bytes
  unfolding roots_message
  tree_messages f [] = [] ∷ []
  tree_messages f (leaf ∷ []) = present (leaf_message leaf)
  tree_messages zero (a ∷ b ∷ leaves) = []
  tree_messages (suc f) (a ∷ b ∷ leaves) =
      let all = a ∷ b ∷ leaves in
      let split = largest_power_of_two_less_than (length all) in
      present (
        roots_message (root_in sha256 f (slice_to split all))
          (root_in sha256 f (slice_from split all)))
      ++ (tree_messages f (slice_to split all) ++ tree_messages f (slice_from split all))

  -- No other message has this one's hash.
  abbrev pub IsUnique : Bytes → Type 0
  IsUnique message = (other : Bytes) → sha256 other ≡ sha256 message → other ≡ message

  hash_of :
      (o : Option Bytes) (r : Digest)
      → and_then o sha256 ≡ some r
      → (m : Bytes) × (o ≡ some m) × (sha256 m ≡ some r)
  hash_of none r h = absurd (cc)
  hash_of (some m) r h = (m, refl, h)

  pub leaf_hash_unique :
      (x y : Digest) (r : Digest)
      → All IsUnique (present (leaf_message x))
      → leaf_hash sha256 x ≡ some r
      → leaf_hash sha256 y ≡ some r
      → y ≡ x
  unfolding leaf_hash
  leaf_hash_unique x y r u h k =
      let (m, at, hashed) = hash_of (leaf_message x) r h in
      let (m', at', hashed') = hash_of (leaf_message y) r k in
      let (same, _) : IsUnique m × Unit = rw at at u in
      leaf_message-injective y x m (at' ∙ ap some (same m' (hashed' ∙ sym hashed))) at

  pub node_hash_unique :
      (a b c d : Digest) (r : Digest)
      → All IsUnique (present (node_message a b))
      → node_hash sha256 a b ≡ some r
      → node_hash sha256 c d ≡ some r
      → (c ≡ a) × (d ≡ b)
  unfolding node_hash
  node_hash_unique a b c d r u h k =
      let (m, at, hashed) = hash_of (node_message a b) r h in
      let (m', at', hashed') = hash_of (node_message c d) r k in
      let (same, _) : IsUnique m × Unit = rw at at u in
      node_message-injective c d a b m (at' ∙ ap some (same m' (hashed' ∙ sym hashed))) at
