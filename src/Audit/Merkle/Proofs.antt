-- ===== src/Audit/Merkle/Proofs.antt =====
-- The tree's splits and the messages it hashes, for src/audit/merkle.ts: lemmas on slices, on
-- climbing one level more, and on what a root and a proof are made of.
use native.Mathlib.Nat.{pow-suc, one-le-pow, pow-le-pow_right}
use kya_os_mcp.Common.{
  ℕ, zero, suc, ◌+◌, ◌-◌, ◌^◌, ◌≤◌, ◌<◌, ◌≡◌, refl, sym, ap, ◌∙◌, inl, inr, List, [], ◌∷◌, ◌++◌,
  Option, none, some, arith, ltb, length, get_elem?, Bool-cases, All,
}
use kya_os_mcp.Audit.Digests.{Bytes, Digest}
use kya_os_mcp.Audit.Merkle.{
  slice_to, slice_from, extend, node_hash, node_of, root_in, largest_power_of_two_less_than,
}
use kya_os_mcp.Audit.Merkle.Directions.{directions, directions-digits}
use kya_os_mcp.Audit.Merkle.Levels.{largest_power-bounds}

module _ {ℓ} {A : Type ℓ} where
  pub length-slice_to : (n : ℕ) (xs : List A) → n ≤ length xs → length (slice_to n xs) ≡ n
  unfolding slice_to
  length-slice_to zero xs h = refl
  length-slice_to (suc n) [] h = absurd (omega arith)
  length-slice_to (suc n) (x ∷ xs) h = ap suc (length-slice_to n xs (omega arith))

  pub length-slice_from :
      (n : ℕ) (xs : List A) → n ≤ length xs → length (slice_from n xs) + n ≡ length xs
  unfolding slice_from
  length-slice_from zero xs h = omega arith
  length-slice_from (suc n) [] h = absurd (omega arith)
  length-slice_from (suc n) (x ∷ xs) h = omega (arith, length-slice_from n xs (omega arith))

  pub slice_to_all : (xs : List A) → slice_to (length xs) xs ≡ xs
  unfolding slice_to
  slice_to_all [] = refl
  slice_to_all (x ∷ xs) = ap (λ l. x ∷ l) (slice_to_all xs)

  -- A slice of a longer slice from the start.
  pub slice_to_twice : (n m : ℕ) (xs : List A) → n ≤ m → slice_to n (slice_to m xs) ≡ slice_to n xs
  unfolding slice_to
  slice_to_twice zero m xs h = refl
  slice_to_twice (suc n) zero xs h = absurd (omega arith)
  slice_to_twice (suc n) (suc m) [] h = refl
  slice_to_twice (suc n) (suc m) (x ∷ xs) h = ap (λ l. x ∷ l) (slice_to_twice n m xs (omega arith))

  slice_to_nil : (n : ℕ) → slice_to {A = A} n [] ≡ []
  unfolding slice_to
  slice_to_nil zero = refl
  slice_to_nil (suc n) = refl

  pub slice_from_to :
      (n m : ℕ) (xs : List A)
      → n ≤ m
      → slice_from n (slice_to m xs) ≡ slice_to (m - n) (slice_from n xs)
  unfolding slice_to slice_from
  slice_from_to zero m xs h = ap (λ k. slice_to k xs) (omega arith)
  slice_from_to (suc n) zero xs h = absurd (omega arith)
  slice_from_to (suc n) (suc m) [] h = sym (slice_to_nil (suc m - suc n))
  slice_from_to (suc n) (suc m) (x ∷ xs) h =
      slice_from_to n m xs (omega arith) ∙ ap (λ k. slice_to k (slice_from n xs)) (omega arith)

  pub get_elem?-slice_to :
      (n i : ℕ) (xs : List A) → i < n → get_elem? (slice_to n xs) i ≡ get_elem? xs i
  unfolding slice_to
  get_elem?-slice_to zero i xs h = absurd (omega arith)
  get_elem?-slice_to (suc n) i [] h = refl
  get_elem?-slice_to (suc n) zero (x ∷ xs) h = refl
  get_elem?-slice_to (suc n) (suc i) (x ∷ xs) h = get_elem?-slice_to n i xs (omega arith)

  pub get_elem?-slice_from :
      (n i : ℕ) (xs : List A) → n ≤ i → get_elem? (slice_from n xs) (i - n) ≡ get_elem? xs i
  unfolding slice_from
  get_elem?-slice_from zero i xs h = ap (get_elem? xs) (omega arith)
  get_elem?-slice_from (suc n) zero xs h = absurd (omega arith)
  get_elem?-slice_from (suc n) (suc i) [] h = refl
  get_elem?-slice_from (suc n) (suc i) (x ∷ xs) h =
      ap (get_elem? (slice_from n xs)) (omega arith) ∙ get_elem?-slice_from n i xs (omega arith)

module _ {A : Type 0} (P : A → Type 0) where
  pub All-slice_to : (n : ℕ) (xs : List A) → All P xs → All P (slice_to n xs)
  unfolding slice_to
  All-slice_to zero xs h = tt
  All-slice_to (suc n) [] h = tt
  All-slice_to (suc n) (x ∷ xs) (p, h) = (p, All-slice_to n xs h)

  pub All-slice_from : (n : ℕ) (xs : List A) → All P xs → All P (slice_from n xs)
  unfolding slice_from
  All-slice_from zero xs h = h
  All-slice_from (suc n) [] h = tt
  All-slice_from (suc n) (x ∷ xs) (p, h) = All-slice_from n xs h

pub get_elem?-lt {ℓ} :
    {A : Type ℓ} (xs : List A) (i : ℕ) (a : A) → get_elem? xs i ≡ some a → i < length xs
get_elem?-lt [] i a h = absurd (cc)
get_elem?-lt (x ∷ xs) zero a h = omega arith
get_elem?-lt (x ∷ xs) (suc i) a h = omega (arith, get_elem?-lt xs i a h)

pub lt_two_pow : (n : ℕ) → n < 2 ^ n
lt_two_pow zero = omega arith
lt_two_pow (suc n) = omega (arith, lt_two_pow n, pow-suc 2 n)

pub extend-some :
    (o : Option (List Digest)) (s : Option Digest) (path : List Digest)
    → extend o s ≡ some path
    → (front : List Digest) × (last : Digest) × (o ≡ some front)
      × (s ≡ some last)
      × (path ≡ front ++ last ∷ [])
extend-some none s path h = absurd (cc)
extend-some (some front) none path h = absurd (cc)
extend-some (some front) (some last) path h = (front, last, refl, refl, cc)

-- A size of at most `2 ^ d` has directions of `suc e` digits when it splits at `2 ^ e`.
pub directions-split :
    (d e position size : ℕ)
    → position < size
    → 2 ^ e < size
    → size ≤ 2 ^ suc e
    → size ≤ 2 ^ d
    → directions d position (size - 1) ≡ directions (suc e) position (size - 1)
directions-split d e position size h low high k = elim (Bool-cases (ltb e d)) [
  | inl more ↦
      directions-digits d (suc e) position (size - 1) (omega arith) (omega arith) (ground arith)
  | inr less ↦
      absurd (omega (arith, pow-le-pow_right {n = 2} (omega arith) {i = d} {j = e} (ground arith)))
]

module _ (sha256 : Bytes → Option Digest) where
  -- The two parts of a tree of at least two leaves, and their roots.
  pub record Halves (f : ℕ) (leaves : List Digest) (r : Digest) : Type 0 where
    pub depth : ℕ
    pub split : largest_power_of_two_less_than (length leaves) ≡ 2 ^ depth
    pub low : 2 ^ depth < length leaves
    pub high : length leaves ≤ 2 ^ suc depth
    pub left_root : Digest
    pub right_root : Digest
    pub left_at : root_in sha256 f (slice_to (2 ^ depth) leaves) ≡ some left_root
    pub right_at : root_in sha256 f (slice_from (2 ^ depth) leaves) ≡ some right_root
    pub top : node_hash sha256 left_root right_root ≡ some r
    pub left_length : length (slice_to (2 ^ depth) leaves) ≡ 2 ^ depth
    pub right_length : length (slice_from (2 ^ depth) leaves) + 2 ^ depth ≡ length leaves

  node_of-some :
      (o p : Option Digest) (r : Digest)
      → node_of sha256 o p ≡ some r
      → (a : Digest) × (b : Digest) × (o ≡ some a) × (p ≡ some b) × (node_hash sha256 a b ≡ some r)
  unfolding node_of
  node_of-some none p r h = absurd (cc)
  node_of-some (some a) none r h = absurd (cc)
  node_of-some (some a) (some b) r h = (a, b, refl, refl, h)

  pub halves :
      (f : ℕ) (a b : Digest) (rest : List Digest) (r : Digest)
      → root_in sha256 (suc f) (a ∷ b ∷ rest) ≡ some r
      → Halves f (a ∷ b ∷ rest) r
  unfolding root_in
  halves f a b rest r h =
      let leaves : List Digest = a ∷ b ∷ rest in
      let (d, at, low, high) = largest_power-bounds (length leaves) (omega arith) in
      let (l, m, l_at, m_at, top) =
        node_of-some (root_in sha256 f (slice_to (2 ^ d) leaves))
          (root_in sha256 f (slice_from (2 ^ d) leaves)) r (rw at at h) in
      record {
        depth = d;
        split = at;
        low = low;
        high = high;
        left_root = l;
        right_root = m;
        left_at = l_at;
        right_at = m_at;
        top = top;
        left_length = length-slice_to (2 ^ d) leaves (omega arith);
        right_length = length-slice_from (2 ^ d) leaves (omega arith);
      }

  -- A root from those of the two parts.
  pub root_in-split :
      (f : ℕ) (leaves : List Digest) (split : ℕ) (l m : Digest)
      → 2 ≤ length leaves
      → largest_power_of_two_less_than (length leaves) ≡ split
      → root_in sha256 f (slice_to split leaves) ≡ some l
      → root_in sha256 f (slice_from split leaves) ≡ some m
      → root_in sha256 (suc f) leaves ≡ node_hash sha256 l m
  unfolding root_in node_of
  root_in-split f [] split l m h at l_at m_at = absurd (omega arith)
  root_in-split f (a ∷ []) split l m h at l_at m_at = absurd (omega arith)
  root_in-split f (a ∷ b ∷ rest) split l m h at l_at m_at = rw (at, l_at, m_at) refl

  -- Recursion no deeper than the number of leaves is enough.
  pub root_in-fuel :
      (f g : ℕ) (leaves : List Digest)
      → length leaves ≤ f
      → length leaves ≤ g
      → root_in sha256 f leaves ≡ root_in sha256 g leaves
  unfolding root_in
  root_in-fuel f g [] h k = refl
  root_in-fuel f g (a ∷ []) h k = refl
  root_in-fuel zero g (a ∷ b ∷ rest) h k = absurd (omega arith)
  root_in-fuel (suc f) zero (a ∷ b ∷ rest) h k = absurd (omega arith)
  root_in-fuel (suc f) (suc g) (a ∷ b ∷ rest) h k =
      let all : List Digest = a ∷ b ∷ rest in
      let (d, at, low, high) = largest_power-bounds (length all) (omega arith) in
      let some_pow = one-le-pow d 2 (omega arith) in
      let to = length-slice_to (2 ^ d) all (omega arith) in
      let from = length-slice_from (2 ^ d) all (omega arith) in
      let left = root_in-fuel f g (slice_to (2 ^ d) all) (omega arith) (omega arith) in
      let right = root_in-fuel f g (slice_from (2 ^ d) all) (omega arith) (omega arith) in
      rw (at, left, right) refl
