-- ===== src/Audit/Merkle/Directions.antt =====
-- The sides on which `verifyInclusion` of src/audit/merkle.ts takes a path's siblings, read off
-- the binary digits of the two positions, and how they follow the tree's splits.
use native.Mathlib.Nat.{pow-suc, one-le-pow, pow-le-pow_right}
use kya_os_mcp.Common.{
  ℕ, zero, suc, ◌+◌, ◌-◌, ◌/◌, ◌%◌, ◌^◌, ◌≤◌, ◌<◌, ◌≡◌, ◌≢◌, refl, sym, ap, ◌∙◌, inl, inr, true,
  false, List, [], ◌∷◌, ◌++◌, arith, Bool-cases, if◌then◌else◌, nat_eq, ◌==◌, ==_iff,
}
use kya_os_mcp.Audit.Merkle.{is_odd}

pub data Side : Type 0 where
  left_sibling right_sibling : Side

-- The sides for a position among `last + 1` nodes, with `d` binary digits.
unfoldable pub directions : ℕ → ℕ → ℕ → List Side
directions zero position last = []
directions (suc d) position last =
    let rest = directions d (position / 2) (last / 2) in
    if is_odd position
    then left_sibling ∷ rest
    else (if position == last then rest else right_sibling ∷ rest)

pub directions-zero : (d : ℕ) → directions d 0 0 ≡ []
unfolding directions
directions-zero zero = refl
directions-zero (suc d) = directions-zero d

module _ (d position last : ℕ) where
  pub directions-odd :
      is_odd position ≡ true
      → directions (suc d) position last ≡ left_sibling ∷ directions d (position / 2) (last / 2)
  unfolding directions
  directions-odd h = rw h refl

  pub directions-equal :
      is_odd position ≡ false
      → (position == last) ≡ true
      → directions (suc d) position last ≡ directions d (position / 2) (last / 2)
  unfolding directions
  directions-equal h k = rw (h, k) refl

  pub directions-even :
      is_odd position ≡ false
      → (position == last) ≡ false
      → directions (suc d) position last ≡ right_sibling ∷ directions d (position / 2) (last / 2)
  unfolding directions
  directions-even h k = rw (h, k) refl

-- The three ways in which a position stands among the nodes of its level.
pub data Stand (position last : ℕ) : Type 0 where
  odd : is_odd position ≡ true → position % 2 ≡ 1 → Stand position last
  last_even :
      is_odd position ≡ false
      → (position == last) ≡ true
      → position % 2 ≡ 0
      → position ≡ last
      → Stand position last
  inner_even :
      is_odd position ≡ false
      → (position == last) ≡ false
      → position % 2 ≡ 0
      → position ≢ last
      → Stand position last

pub stand : (position last : ℕ) → Stand position last
stand position last = elim (Bool-cases (is_odd position)) [
  | inl h ↦ odd h ((==_iff (position % 2) 1).0 h)
  | inr h ↦ elim (Bool-cases (position == last)) [
    | inl k ↦ last_even h k (ground arith) ((==_iff position last).0 k)
    | inr k ↦ inner_even h k (ground arith) (ground arith)
  ]
]

-- More digits than `last` has change nothing.
directions-more :
    (d position last : ℕ)
    → position ≤ last
    → last < 2 ^ d
    → directions (suc d) position last ≡ directions d position last
directions-more zero position last h k =
    let p : position ≡ 0 = omega arith in
    let l : last ≡ 0 = omega arith in rw (p, l) (directions-zero 1 ∙ sym (directions-zero 0))
directions-more (suc d) position last h k =
    let ih =
      directions-more d (position / 2) (last / 2) (omega arith) (omega (arith, pow-suc 2 d)) in
    elim (stand position last) [
      | odd o _ ↦
          directions-odd (suc d) position last o
          ∙ ap (λ s. left_sibling ∷ s) ih
          ∙ sym (directions-odd d position last o)
      | last_even o e _ _ ↦
          directions-equal (suc d) position last o e
          ∙ ih
          ∙ sym (directions-equal d position last o e)
      | inner_even o e _ _ ↦
          directions-even (suc d) position last o e
          ∙ ap (λ s. right_sibling ∷ s) ih
          ∙ sym (directions-even d position last o e)
    ]

pub directions-digits :
    (e d position last : ℕ)
    → position ≤ last
    → last < 2 ^ d
    → d ≤ e
    → directions e position last ≡ directions d position last
directions-digits zero d position last h k le = let z : d ≡ 0 = omega arith in rw z refl
directions-digits (suc e) d position last h k le = elim (Bool-cases (d == suc e)) [
  | inl same ↦ rw ((==_iff d (suc e)).0 same) refl
  | inr less ↦
      let d_le : d ≤ e = ground arith in
      directions-more e position last h (omega (arith, pow-le-pow_right {n = 2} (omega arith) d_le))
      ∙ directions-digits e d position last h k d_le
]

left_base : directions 1 0 1 ≡ directions 0 0 0 ++ right_sibling ∷ []
unfolding directions
left_base = refl

right_base : directions 1 (0 + 1) (0 + 1) ≡ directions 0 0 0 ++ left_sibling ∷ []
unfolding directions
right_base = refl

-- In the left part of a split at `2 ^ d`, the sides are those of a full tree, then one on the
-- right.
pub directions-left :
    (d position last : ℕ)
    → position < 2 ^ d
    → 2 ^ d ≤ last
    → last < 2 ^ suc d
    → directions (suc d) position last ≡ directions d position (2 ^ d - 1) ++ right_sibling ∷ []
directions-left zero position last h k l =
    let p : position ≡ 0 = omega arith in let e : last ≡ 1 = omega arith in rw (p, e) left_base
directions-left (suc d) position last h k l =
    let pow = pow-suc 2 d in
    let pow' = pow-suc 2 (suc d) in
    let some_pow = one-le-pow d 2 (omega arith) in
    let half : (2 ^ suc d - 1) / 2 ≡ 2 ^ d - 1 = omega arith in
    let ih =
      directions-left d (position / 2) (last / 2) (omega arith) (omega arith) (omega arith) in
    elim (stand position last) [
      | odd o _ ↦
          directions-odd (suc d) position last o
          ∙ ap (λ s. left_sibling ∷ s) ih
          ∙ sym (
              ap (λ s. s ++ right_sibling ∷ [])
                (directions-odd d position (2 ^ suc d - 1) o
                  ∙ ap (λ n. left_sibling ∷ directions d (position / 2) n) half))
      | last_even o e _ same ↦ absurd (omega arith)
      | inner_even o e even _ ↦
          let apart : (position == (2 ^ suc d - 1)) ≡ false = ground arith in
          directions-even (suc d) position last o e
          ∙ ap (λ s. right_sibling ∷ s) ih
          ∙ sym (
              ap (λ s. s ++ right_sibling ∷ [])
                (directions-even d position (2 ^ suc d - 1) o apart
                  ∙ ap (λ n. right_sibling ∷ directions d (position / 2) n) half))
    ]

-- In the right part, they are those of the rest, then one on the left.
pub directions-right :
    (d position last : ℕ)
    → position ≤ last
    → last < 2 ^ d
    → directions (suc d) (position + 2 ^ d) (last + 2 ^ d)
      ≡ directions d position last ++ left_sibling ∷ []
directions-right zero position last h k =
    let p : position ≡ 0 = omega arith in let e : last ≡ 0 = omega arith in rw (p, e) right_base
directions-right (suc d) position last h k =
    let pow = pow-suc 2 d in
    let ih = directions-right d (position / 2) (last / 2) (omega arith) (omega arith) in
    let half : (position + 2 ^ suc d) / 2 ≡ position / 2 + 2 ^ d = omega arith in
    let half' : (last + 2 ^ suc d) / 2 ≡ last / 2 + 2 ^ d = omega arith in
    let halves : directions (suc d) ((position + 2 ^ suc d) / 2) ((last + 2 ^ suc d) / 2)
        ≡ directions d (position / 2) (last / 2) ++ left_sibling ∷ [] =
      rw (half, half') ih in
    elim (stand position last) [
      | odd o r ↦
          let o' : is_odd (position + 2 ^ suc d) ≡ true = ground arith in
          directions-odd (suc d) (position + 2 ^ suc d) (last + 2 ^ suc d) o'
          ∙ ap (λ s. left_sibling ∷ s) halves
          ∙ sym (ap (λ s. s ++ left_sibling ∷ []) (directions-odd d position last o))
      | last_even o e r same ↦
          let o' : is_odd (position + 2 ^ suc d) ≡ false = ground arith in
          let e' : ((position + 2 ^ suc d) == (last + 2 ^ suc d)) ≡ true = ground arith in
          directions-equal (suc d) (position + 2 ^ suc d) (last + 2 ^ suc d) o' e'
          ∙ halves
          ∙ sym (ap (λ s. s ++ left_sibling ∷ []) (directions-equal d position last o e))
      | inner_even o e r apart ↦
          let o' : is_odd (position + 2 ^ suc d) ≡ false = ground arith in
          let e' : ((position + 2 ^ suc d) == (last + 2 ^ suc d)) ≡ false = ground arith in
          directions-even (suc d) (position + 2 ^ suc d) (last + 2 ^ suc d) o' e'
          ∙ ap (λ s. right_sibling ∷ s) halves
          ∙ sym (ap (λ s. s ++ left_sibling ∷ []) (directions-even d position last o e))
    ]
