-- ===== src/Audit/Merkle/Climb.antt =====
-- Climbing from a leaf towards the root along the sides of a path, for the loops of
-- src/audit/merkle.ts: the state of a loop and its step are parameters.
use native.Mathlib.Nat.{pow-suc}
use kya_os_mcp.Common.{
  ℕ, zero, suc, ◌/◌, ◌^◌, ◌≤◌, ◌<◌, ◌≡◌, ◌≢◌, refl, sym, ap, ◌∙◌, inl, inr, Bool, true, false, ◌&&◌,
  ◌||◌, List, [], ◌∷◌, ◌++◌, Option, none, some, arith, Bool-cases, if◌then◌else◌, nat_eq, list_eq,
  ◌==◌, ==_iff,
}
use kya_os_mcp.Audit.Digests.{Digest}
use kya_os_mcp.Audit.Merkle.{is_odd, after_left}
use kya_os_mcp.Audit.Merkle.Levels.{after_left-odd, after_left-even}
use kya_os_mcp.Audit.Merkle.Directions.{
  Side, left_sibling, right_sibling, directions, directions-zero, directions-odd, directions-equal,
  directions-even, odd, last_even, inner_even, stand,
}

positive : (last : ℕ) → (suc last == 0) ≡ false
positive last = ground arith

module _ {S : Type 0} (step : Side → Digest → S → Option S) where
  -- The state that a path leads to, with one sibling for each side.
  unfoldable pub climb : List Side → List Digest → Option S → Option S
  climb sides path none = none
  climb [] [] (some c) = some c
  climb [] (s ∷ path) (some c) = none
  climb (side ∷ sides) [] (some c) = none
  climb (side ∷ sides) (s ∷ path) (some c) = climb sides path (step side s c)

  climb-extra :
      (path : List Digest) (s : Digest) (o : Option S) → climb [] (path ++ s ∷ []) o ≡ none
  unfolding climb
  climb-extra path s none = refl
  climb-extra [] s (some c) = refl
  climb-extra (p ∷ path) s (some c) = refl

  climb-short :
      (sides : List Side) (side : Side) (o : Option S) → climb (sides ++ side ∷ []) [] o ≡ none
  unfolding climb
  climb-short sides side none = refl
  climb-short [] side (some c) = refl
  climb-short (d ∷ sides) side (some c) = refl

  climb-missing : (sides : List Side) (path : List Digest) → climb sides path none ≡ none
  unfolding climb
  climb-missing sides path = refl

  pub climb-end : (o : Option S) (r : S) → o ≡ some r → climb [] [] o ≡ some r
  unfolding climb
  climb-end none r h = h
  climb-end (some c) r h = h

  climb-start : (o : Option S) (r : S) → climb [] [] o ≡ some r → o ≡ some r
  unfolding climb
  climb-start none r h = h
  climb-start (some c) r h = h

  climb-extra_cons : (p : Digest) (path : List Digest) (o : Option S) → climb [] (p ∷ path) o ≡ none
  unfolding climb
  climb-extra_cons p path none = refl
  climb-extra_cons p path (some c) = refl

  pub climb-only :
      (path : List Digest) (o : Option S) (r : S)
      → climb [] path o ≡ some r
      → (path ≡ []) × (o ≡ some r)
  climb-only [] o r h = (refl, climb-start o r h)
  climb-only (p ∷ path) o r h = absurd (let e = climb-extra_cons p path o in cc)

  -- One side and one sibling more are one level more.
  pub climb-append :
      (sides : List Side) (path : List Digest) (side : Side) (s : Digest) (c r : S) (o : Option S)
      → climb sides path o ≡ some c
      → step side s c ≡ some r
      → climb (sides ++ side ∷ []) (path ++ s ∷ []) o ≡ some r
  unfolding climb
  climb-append sides path side s c r none h k = absurd (cc)
  climb-append [] [] side s c r (some b) h k =
      let e : b ≡ c = cc in rw e (climb-end (step side s c) r k)
  climb-append [] (p ∷ path) side s c r (some b) h k = absurd (cc)
  climb-append (d ∷ sides) [] side s c r (some b) h k = absurd (cc)
  climb-append (d ∷ sides) (p ∷ path) side s c r (some b) h k =
      climb-append sides path side s c r (step d p b) h k

  pub climb-last :
      (sides : List Side) (path : List Digest) (side : Side) (r : S) (o : Option S)
      → climb (sides ++ side ∷ []) path o ≡ some r
      → (front : List Digest) × (s : Digest) × (c : S) × (path ≡ front ++ s ∷ [])
        × (climb sides front o ≡ some c)
        × (step side s c ≡ some r)
  unfolding climb
  climb-last sides path side r none h = absurd (cc)
  climb-last sides [] side r (some b) h = absurd (let e = climb-short sides side (some b) in cc)
  climb-last [] (s ∷ p ∷ path) side r (some b) h =
      absurd (let e = climb-extra_cons p path (step side s b) in cc)
  climb-last [] (s ∷ []) side r (some b) h = ([], s, b, refl, refl, climb-start (step side s b) r h)
  climb-last (d ∷ sides) (p ∷ path) side r (some b) h =
      let (front, s, c, at, low, top) = climb-last sides path side r (step d p b) h in
      (p ∷ front, s, c, ap (λ l. p ∷ l) at, low, top)

  -- The test on the state that is reached.
  abbrev pub holds : (S → Bool) → Option S → Bool
  holds final none = false
  holds final (some c) = final c

  -- A loop over the path with two positions, as both verifications run it.
  pub record IsLoop (final : S → Bool) (loop : List Digest → ℕ → ℕ → Option S → Bool) : Type 0 where
    pub failed : (path : List Digest) (position last : ℕ) → loop path position last none ≡ false
    pub ended :
        (position last : ℕ) (c : S) → loop [] position last (some c) ≡ (last == 0 && final c)
    pub stepped :
        (s : Digest) (path : List Digest) (position last : ℕ) (c : S)
        → loop (s ∷ path) position last (some c) ≡ (
            if last == 0
            then false
            else (if is_odd position || position == last
                then loop path
                    ((after_left position last).0 / 2)
                    ((after_left position last).1 / 2)
                    (step left_sibling s c)
                else loop path (position / 2) (last / 2) (step right_sibling s c)))

  module _ {final : S → Bool} {loop : List Digest → ℕ → ℕ → Option S → Bool}
      (is_loop : IsLoop final loop) (position last : ℕ) (c : S) where
    on_left :
        {q r : ℕ × ℕ} (s : Digest) (path : List Digest)
        → q ≡ r
        → loop path (q.0 / 2) (q.1 / 2) (step left_sibling s c)
          ≡ loop path (r.0 / 2) (r.1 / 2) (step left_sibling s c)
    on_left s path h = ap (λ (q : ℕ × ℕ). loop path (q.0 / 2) (q.1 / 2) (step left_sibling s c)) h

    -- The last node of a level, when even, is the last one of the level above.
    loop-halve :
        (path : List Digest)
        → is_odd position ≡ false
        → (position == last) ≡ true
        → position ≢ 0
        → loop path position last (some c) ≡ loop path (position / 2) (last / 2) (some c)
    loop-halve [] o e nz =
        let same = (==_iff position last).0 e in
        let l : (last == 0) ≡ false = ground arith in
        let l' : (last / 2 == 0) ≡ false = ground arith in
        is_loop.ended position last c
        ∙ rw (l, l') refl
        ∙ sym (is_loop.ended (position / 2) (last / 2) c)
    loop-halve (s ∷ path) o e nz =
        let same = (==_iff position last).0 e in
        let l : (last == 0) ≡ false = ground arith in
        let l' : (last / 2 == 0) ≡ false = ground arith in
        let e' : (position / 2 == last / 2) ≡ true = ground arith in
        let up = on_left s path (after_left-even position last o nz) in
        is_loop.stepped s path position last c
        ∙ elim (Bool-cases (is_odd (position / 2))) [
          | inl o' ↦ rw (l, l', o, e, o') up
          | inr o' ↦ rw (l, l', o, e, o', e') up
        ]
        ∙ sym (is_loop.stepped s path (position / 2) (last / 2) c)

    loop-odd :
        (s : Digest) (path : List Digest)
        → (last == 0) ≡ false
        → is_odd position ≡ true
        → loop (s ∷ path) position last (some c)
          ≡ loop path (position / 2) (last / 2) (step left_sibling s c)
    loop-odd s path l o =
        is_loop.stepped s path position last c
        ∙ rw (l, o) (on_left s path (after_left-odd position last o))

    loop-even :
        (s : Digest) (path : List Digest)
        → (last == 0) ≡ false
        → is_odd position ≡ false
        → (position == last) ≡ false
        → loop (s ∷ path) position last (some c)
          ≡ loop path (position / 2) (last / 2) (step right_sibling s c)
    loop-even s path l o e = is_loop.stepped s path position last c ∙ rw (l, o, e) refl

    loop-nil : (last == 0) ≡ false → loop [] position last (some c) ≡ false
    loop-nil l = is_loop.ended position last c ∙ rw l refl

  climb-nil : (side : Side) (sides : List Side) (c : S) → climb (side ∷ sides) [] (some c) ≡ none
  unfolding climb
  climb-nil side sides c = refl

  climb-cons :
      (side : Side) (sides : List Side) (s : Digest) (path : List Digest) (c : S)
      → climb (side ∷ sides) (s ∷ path) (some c) ≡ climb sides path (step side s c)
  unfolding climb
  climb-cons side sides s path c = refl

  module _ {final : S → Bool} {loop : List Digest → ℕ → ℕ → Option S → Bool}
      (is_loop : IsLoop final loop) where
    loop-end :
        (path : List Digest) (c : S) → loop path 0 0 (some c) ≡ holds final (climb [] path (some c))
    unfolding climb
    loop-end [] c = is_loop.ended 0 0 c
    loop-end (s ∷ path) c = is_loop.stepped s path 0 0 c

    -- The loop climbs along the sides of its positions.
    pub loop-climb :
        (d : ℕ) (path : List Digest) (position last : ℕ) (o : Option S)
        → position ≤ last
        → last < 2 ^ d
        → loop path position last o ≡ holds final (climb (directions d position last) path o)
    loop-climb d path position last none h k =
        is_loop.failed path position last
        ∙ sym (ap (holds final) (climb-missing (directions d position last) path))
    loop-climb d path position zero (some c) h k =
        let p : position ≡ 0 = omega arith in
        rw p (
          loop-end path c ∙ sym (ap (λ r. holds final (climb r path (some c))) (directions-zero d)))
    loop-climb zero path position (suc last) (some c) h k = absurd (omega arith)
    loop-climb (suc d) path position (suc last) (some c) h k =
        let pow = pow-suc 2 d in
        let ih = λ (path : List Digest) (o : Option S).
          loop-climb d path (position / 2) (suc last / 2) o (omega arith) (omega arith) in
        let rest : List Side = directions d (position / 2) (suc last / 2) in
        elim (stand position (suc last)) [
          | odd o r ↦
              one_level left_sibling path rest (directions-odd d position (suc last) o)
                (λ s path. loop-odd is_loop position (suc last) c s path (positive last) o) ih
          | last_even o e r same ↦
              loop-halve is_loop position (suc last) c path o e (λ z. absurd (omega arith))
              ∙ ih path (some c)
              ∙ sym (
                  ap (λ r. holds final (climb r path (some c)))
                    (directions-equal d position (suc last) o e))
          | inner_even o e r apart ↦
              one_level right_sibling path rest (directions-even d position (suc last) o e)
                (λ s path. loop-even is_loop position (suc last) c s path (positive last) o e) ih
        ]
      where
        one_level :
            (side : Side) (path : List Digest) (rest : List Side)
            → directions (suc d) position (suc last) ≡ side ∷ rest
            → ((s : Digest) (path : List Digest)
                → loop (s ∷ path) position (suc last) (some c)
                  ≡ loop path (position / 2) (suc last / 2) (step side s c))
            → ((path : List Digest) (o : Option S)
                → loop path (position / 2) (suc last / 2) o ≡ holds final (climb rest path o))
            → loop path position (suc last) (some c)
              ≡ holds final (climb (directions (suc d) position (suc last)) path (some c))
        one_level side [] rest at up ih =
            loop-nil is_loop position (suc last) c (positive last)
            ∙ sym (
                ap (λ r. holds final (climb r [] (some c))) at
                ∙ ap (holds final) (climb-nil side rest c))
        one_level side (s ∷ path) rest at up ih =
            up s path
            ∙ ih path (step side s c)
            ∙ sym (
                ap (λ r. holds final (climb r (s ∷ path) (some c))) at
                ∙ ap (holds final) (climb-cons side rest s path c))
