-- ===== src/Common/Lists.antt =====
-- Lists as JavaScript arrays and sets: lengths over the native numbers, `includes`, `some`,
-- `every`, `filter`, and predicates on all or one of the items.
use mathlib.Core.Option.{Option, none, some}
use Prim.Native.Nat.{ℕ, zero, suc, ◌+◌, ◌≤◌}
use mathlib.Core.Path.{◌≡◌, refl}
use mathlib.Core.Logic.{◌⊎◌, inl, inr}
use mathlib.Core.Bool.{Bool, true, false, ◌&&◌, ◌||◌, not}
use mathlib.Core.List.{List, [], ◌∷◌, ◌++◌}
use native.Mathlib.Omega.{arith}
use kya_os_mcp.Common.Tests.{Eq, ◌==◌, ==_iff, ==_refl, Bool-cases, if◌then◌else◌}

module _ {ℓ} {A : Type ℓ} where
  abbrev pub length : List A → ℕ
  length [] = 0
  length (x ∷ xs) = suc (length xs)

  pub length-append : (xs ys : List A) → length (xs ++ ys) ≡ length xs + length ys
  length-append [] ys = omega arith
  length-append (x ∷ xs) ys = omega (arith, length-append xs ys)

  -- `xs[i]`; `none` out of range.
  abbrev pub get_elem? : List A → ℕ → Option A
  get_elem? [] i = none
  get_elem? (x ∷ xs) zero = some x
  get_elem? (x ∷ xs) (suc i) = get_elem? xs i

  -- `some`
  abbrev pub any : (A → Bool) → List A → Bool
  any p [] = false
  any p (x ∷ xs) = p x || any p xs

  -- `every`
  abbrev pub all : (A → Bool) → List A → Bool
  all p [] = true
  all p (x ∷ xs) = p x && all p xs

  -- `filter`
  abbrev pub keep_if : (A → Bool) → List A → List A
  keep_if p [] = []
  keep_if p (x ∷ xs) = let rest = keep_if p xs in if p x then x ∷ rest else rest

  pub length-keep_if-le : (p : A → Bool) (xs : List A) → length (keep_if p xs) ≤ length xs
  length-keep_if-le p [] = omega arith
  length-keep_if-le p (x ∷ xs) = elim (Bool-cases (p x)) [
    | inl h ↦ rw h (omega (arith, length-keep_if-le p xs))
    | inr h ↦ rw h (omega (arith, length-keep_if-le p xs))
  ]

module _ {ℓ} {A : Type ℓ} where
  abbrev pub All : (A → Type 0) → List A → Type 0
  All P [] = Unit
  All P (x ∷ xs) = P x × All P xs

  -- One item, with its position kept.
  abbrev pub Any : (A → Type 0) → List A → Type 0
  Any P [] = ⊥
  Any P (x ∷ xs) = P x ⊎ Any P xs

  pub All-map : {P Q : A → Type 0} (xs : List A) → ((x : A) → P x → Q x) → All P xs → All Q xs
  All-map [] f h = tt
  All-map (x ∷ xs) f (p, h) = (f x p, All-map xs f h)

  pub Any-map : {P Q : A → Type 0} (xs : List A) → ((x : A) → P x → Q x) → Any P xs → Any Q xs
  Any-map [] f h = elim h [ ]
  Any-map (x ∷ xs) f (inl p) = inl (f x p)
  Any-map (x ∷ xs) f (inr h) = inr (Any-map xs f h)

  pub All-append : (P : A → Type 0) (xs ys : List A) → All P xs → All P ys → All P (xs ++ ys)
  All-append P [] ys h k = k
  All-append P (x ∷ xs) ys (p, h) k = (p, All-append P xs ys h k)

  pub All-split : (P : A → Type 0) (xs ys : List A) → All P (xs ++ ys) → All P xs × All P ys
  All-split P [] ys h = (tt, h)
  All-split P (x ∷ xs) ys (p, h) = let (k, l) = All-split P xs ys h in ((p, k), l)

  pub Any-append_left : (P : A → Type 0) (xs ys : List A) → Any P xs → Any P (xs ++ ys)
  Any-append_left P [] ys h = elim h [ ]
  Any-append_left P (x ∷ xs) ys (inl p) = inl p
  Any-append_left P (x ∷ xs) ys (inr h) = inr (Any-append_left P xs ys h)

  pub Any-append_right : (P : A → Type 0) (xs ys : List A) → Any P ys → Any P (xs ++ ys)
  Any-append_right P [] ys h = h
  Any-append_right P (x ∷ xs) ys h = inr (Any-append_right P xs ys h)

  pub Any-append_cases : (P : A → Type 0) (xs ys : List A) → Any P (xs ++ ys) → Any P xs ⊎ Any P ys
  Any-append_cases P [] ys h = inr h
  Any-append_cases P (x ∷ xs) ys (inl p) = inl (inl p)
  Any-append_cases P (x ∷ xs) ys (inr h) = elim (Any-append_cases P xs ys h) [
    | inl l ↦ inl (inr l)
    | inr r ↦ inr r
  ]

  -- What holds of all holds at one.
  pub Any-All :
      {P Q R : A → Type 0} (xs : List A)
      → ((x : A) → P x → Q x → R x)
      → Any P xs
      → All Q xs
      → Any R xs
  Any-All [] f h k = elim h [ ]
  Any-All (x ∷ xs) f (inl p) (q, k) = inl (f x p q)
  Any-All (x ∷ xs) f (inr h) (q, k) = inr (Any-All xs f h k)

  pub Any-elim : {P : A → Type 0} {B : Type 0} (xs : List A) → ((x : A) → P x → B) → Any P xs → B
  Any-elim [] f h = elim h [ ]
  Any-elim (x ∷ xs) f (inl p) = f x p
  Any-elim (x ∷ xs) f (inr h) = Any-elim xs f h

module _ {ℓ} {A : Type ℓ} where
  pub any→Any : (p : A → Bool) (xs : List A) → any p xs ≡ true → Any (λ x. p x ≡ true) xs
  any→Any p [] h = cc
  any→Any p (x ∷ xs) h = elim (Bool-cases (p x)) [
    | inl e ↦ inl e
    | inr e ↦ inr (any→Any p xs (ground arith))
  ]

  pub Any→any : (p : A → Bool) (xs : List A) → Any (λ x. p x ≡ true) xs → any p xs ≡ true
  Any→any p [] h = elim h [ ]
  Any→any p (x ∷ xs) (inl e) = ground arith
  Any→any p (x ∷ xs) (inr h) = ground (arith, Any→any p xs h)

  -- Nothing is kept exactly when no item passes the test.
  pub keep_if-nil→All : (p : A → Bool) (xs : List A) → keep_if p xs ≡ [] → All (λ x. p x ≡ false) xs
  keep_if-nil→All p [] h = tt
  keep_if-nil→All p (x ∷ xs) h = elim (Bool-cases (p x)) [
    | inl e ↦ absurd (ground arith)
    | inr e ↦ (e, keep_if-nil→All p xs (ground arith))
  ]

  pub All→keep_if-nil : (p : A → Bool) (xs : List A) → All (λ x. p x ≡ false) xs → keep_if p xs ≡ []
  All→keep_if-nil p [] h = refl
  All→keep_if-nil p (x ∷ xs) (e, h) = ground (arith, All→keep_if-nil p xs h)

module _ {ℓ} {A : Type ℓ} ⦃e : Eq A⦄ where
  -- `includes`, and a set's `has`
  abbrev pub includes : A → List A → Bool
  includes a [] = false
  includes a (x ∷ xs) = x == a || includes a xs

  pub includes-append :
      (a : A) (xs ys : List A) → includes a (xs ++ ys) ≡ (includes a xs || includes a ys)
  includes-append a [] ys = refl
  includes-append a (x ∷ xs) ys = ground (arith, includes-append a xs ys)

  -- A set is a list that holds each item once, in insertion order.
  abbrev pub add_item : A → List A → List A
  add_item a xs = if includes a xs then xs else xs ++ a ∷ []

module _ {A : Type 0} ⦃e : Eq A⦄ where
  pub includes→Any : (a : A) (xs : List A) → includes a xs ≡ true → Any (λ x. x ≡ a) xs
  includes→Any a [] h = cc
  includes→Any a (x ∷ xs) h = elim (Bool-cases (x == a)) [
    | inl same ↦ inl ((==_iff x a).0 same)
    | inr other ↦ inr (includes→Any a xs (ground arith))
  ]

  pub Any→includes : (a : A) (xs : List A) → Any (λ x. x ≡ a) xs → includes a xs ≡ true
  Any→includes a [] h = elim h [ ]
  Any→includes a (x ∷ xs) (inl same) = ground (arith, ==_iff x a)
  Any→includes a (x ∷ xs) (inr h) = ground (arith, Any→includes a xs h)

  -- The items of `xs` that are not in `seen`.
  abbrev pub missing_from : List A → List A → List A
  missing_from seen xs = keep_if (λ x. not (includes x seen)) xs

  pub length-missing_from-le :
      (a : A) (seen xs : List A)
      → length (missing_from (a ∷ seen) xs) ≤ length (missing_from seen xs)
  length-missing_from-le a seen [] = omega arith
  length-missing_from-le a seen (x ∷ xs) = ground (arith, length-missing_from-le a seen xs)

  pub length-missing_from-lt :
      (a : A) (seen xs : List A)
      → includes a seen ≡ false
      → includes a xs ≡ true
      → length (missing_from (a ∷ seen) xs) + 1 ≤ length (missing_from seen xs)
  length-missing_from-lt a seen [] h k = cc
  length-missing_from-lt a seen (x ∷ xs) h k = elim (Bool-cases (x == a)) [
    | inl same ↦
        let e = (==_iff x a).0 same in
        rw (e, ==_refl a, h) (omega (arith, length-missing_from-le a seen xs))
    | inr apart ↦ ground (arith, ==_iff x a, ==_iff a x, length-missing_from-lt a seen xs h)
  ]

  pub includes-keep_if :
      (p : A → Bool) (a : A) (xs : List A)
      → p a ≡ true
      → includes a xs ≡ true
      → includes a (keep_if p xs) ≡ true
  includes-keep_if p a [] h k = cc
  includes-keep_if p a (x ∷ xs) h k = elim (Bool-cases (x == a)) [
    | inl same ↦ let at = (==_iff x a).0 same in rw (at, h, ==_refl a) refl
    | inr other ↦ elim (Bool-cases (p x)) [
      | inl kept ↦ rw (kept, other) (includes-keep_if p a xs h (rw other at k))
      | inr gone ↦ rw gone (includes-keep_if p a xs h (rw other at k))
    ]
  ]
