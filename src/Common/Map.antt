-- ===== src/Common/Map.antt =====
-- JavaScript's `Map`: an association list in insertion order. `set` on a present key keeps the
-- key's place, `delete` removes the key.
use mathlib.Core.Path.{◌≡◌, refl, ap, ◌∙◌}
use mathlib.Core.Bool.{Bool, true, false}
use mathlib.Core.Logic.{inl, inr}
use mathlib.Core.Option.{Option, none, some}
use mathlib.Core.List.{List, [], ◌∷◌, ◌++◌}
use native.Mathlib.Omega.{arith}
use Prim.Native.Nat.{suc, ◌+◌, ◌≤◌, ◌<◌}
use kya_os_mcp.Common.Lists.{includes, length}
use kya_os_mcp.Common.Tests.{Eq, ◌==◌, ==_iff, Bool-cases, if◌then◌else◌}

abbrev pub Map {ℓ κ} : Type ℓ → Type κ → Type (ℓ ⊔ κ)
Map K V = List (K × V)

module _ {ℓ κ} {K : Type ℓ} {V : Type κ} ⦃e : Eq K⦄ where
  unfoldable pub get : K → Map K V → Option V
  get k [] = none
  get k ((j, v) ∷ m) = if j == k then some v else get k m

  unfoldable pub set : K → V → Map K V → Map K V
  set k v [] = (k, v) ∷ []
  set k v ((j, w) ∷ m) = let rest = set k v m in if j == k then (j, v) ∷ m else (j, w) ∷ rest

  unfoldable pub delete : K → Map K V → Map K V
  delete k [] = []
  delete k ((j, w) ∷ m) = let rest = delete k m in if j == k then rest else (j, w) ∷ rest

  unfoldable pub has : K → Map K V → Bool
  unfolding get
  has k m = elim (get k m) [ none ↦ false | some _ ↦ true ]

  abbrev pub keys : Map K V → List K
  keys [] = []
  keys ((j, w) ∷ m) = j ∷ keys m

  abbrev pub values : Map K V → List V
  values [] = []
  values ((j, w) ∷ m) = w ∷ values m

  -- The entries that a sweep leaves.
  unfoldable pub filter_values : (V → Bool) → Map K V → Map K V
  filter_values p [] = []
  filter_values p ((j, w) ∷ m) = let rest = filter_values p m in if p w then (j, w) ∷ rest else rest

  pub get-set :
      (k j : K) (v : V) (m : Map K V) → get j (set k v m) ≡ (if k == j then some v else get j m)
  unfolding get set
  get-set k j v [] = refl
  get-set k j v ((i, w) ∷ m) = ground (arith, ==_iff k j, ==_iff i k, ==_iff i j, get-set k j v m)

  pub get-delete : (k j : K) (m : Map K V) → get j (delete k m) ≡ (if k == j then none else get j m)
  unfolding get delete
  get-delete k j [] = ground arith
  get-delete k j ((i, w) ∷ m) = ground (arith, ==_iff i k, ==_iff i j, ==_iff k j, get-delete k j m)

module _ {K : Type 0} {V : Type 0} ⦃e : Eq K⦄ where
  pub includes-keys : (k : K) (v : V) (m : Map K V) → get k m ≡ some v → includes k (keys m) ≡ true
  unfolding get
  includes-keys k v [] h = cc
  includes-keys k v ((j, w) ∷ m) h = ground (arith, includes-keys k v m)

  pub length-set-le : (k : K) (v : V) (m : Map K V) → length (set k v m) ≤ length m + 1
  unfolding set
  length-set-le k v [] = omega arith
  length-set-le k v ((j, w) ∷ m) = elim (Bool-cases (j == k)) [
    | inl same ↦ rw (same, set) (omega arith)
    | inr other ↦ rw (other, set) (omega (arith, length-set-le k v m))
  ]

  pub length-set :
      (k : K) (v u : V) (m : Map K V) → get k m ≡ some u → length (set k v m) ≡ length m
  unfolding get set
  length-set k v u [] h = cc
  length-set k v u ((j, w) ∷ m) h = ground (arith, length-set k v u m)

  pub length-delete-le : (k : K) (m : Map K V) → length (delete k m) ≤ length m
  unfolding delete
  length-delete-le k [] = omega arith
  length-delete-le k ((j, w) ∷ m) = elim (Bool-cases (j == k)) [
    | inl same ↦ rw (same, delete) (omega (arith, length-delete-le k m))
    | inr other ↦ rw (other, delete) (omega (arith, length-delete-le k m))
  ]

  pub length-delete-lt :
      (k : K) (v : V) (m : Map K V) → get k m ≡ some v → length (delete k m) < length m
  unfolding get delete
  length-delete-lt k v [] h = absurd (cc)
  length-delete-lt k v ((j, w) ∷ m) h = elim (Bool-cases (j == k)) [
    | inl same ↦ rw (same, delete) (omega (arith, length-delete-le k m))
    | inr other ↦ rw (other, delete) (omega (arith, length-delete-lt k v m (rw (other, get) at h)))
  ]

  -- An absent key: nothing to delete, and a write goes last.
  pub delete_absent : (k : K) (m : Map K V) → get k m ≡ none → delete k m ≡ m
  unfolding get delete
  delete_absent k [] h = refl
  delete_absent k ((j, w) ∷ m) h = ground (arith, delete_absent k m)

  pub keys-set_new :
      (k : K) (v : V) (m : Map K V) → get k m ≡ none → keys (set k v m) ≡ keys m ++ k ∷ []
  unfolding get set
  keys-set_new k v [] h = refl
  keys-set_new k v ((j, w) ∷ m) h = ground (arith, keys-set_new k v m)

  pub length-keys : (m : Map K V) → length (keys m) ≡ length m
  length-keys [] = refl
  length-keys ((j, w) ∷ m) = ap suc (length-keys m)

  -- A write of what is there.
  pub set_same : (k : K) (v : V) (m : Map K V) → get k m ≡ some v → set k v m ≡ m
  unfolding get set
  set_same k v [] h = cc
  set_same k v ((j, w) ∷ m) h = ground (arith, ==_iff j k, set_same k v m)

  -- A write of a present key and the first write of another commute.
  pub set_comm :
      (k j : K) (v w u : V) (m : Map K V)
      → get j m ≡ some u
      → get k m ≡ none
      → set k v (set j w m) ≡ set j w (set k v m)
  unfolding get set
  set_comm k j v w u [] h n = cc
  set_comm k j v w u ((i, x) ∷ m) h n =
      ground (arith, ==_iff i j, ==_iff i k, ==_iff k j, ==_iff j k, set_comm k j v w u m)

-- `o`, if it passes the test.
abbrev pub only_if {ℓ} : {V : Type ℓ} → (V → Bool) → Option V → Option V
only_if p none = none
only_if p (some v) = if p v then some v else none

module _ {K V : Type 0} ⦃e : Eq K⦄ where
  -- Each key is there once, as in any `Map`.
  abbrev pub IsMap : Map K V → Type 0
  IsMap [] = Unit
  IsMap ((j, w) ∷ m) = (get j m ≡ none) × IsMap m

  pub set-IsMap : (k : K) (v : V) (m : Map K V) → IsMap m → IsMap (set k v m)
  unfolding set get
  set-IsMap k v [] h = (refl, tt)
  set-IsMap k v ((j, w) ∷ m) (fresh, h) = elim (Bool-cases (j == k)) [
    | inl same ↦ rw (same, set) (fresh, h)
    | inr other ↦
        rw (other, set)
          ((get-set k j v m ∙ ground (arith, ==_iff k j, ==_iff j k)), set-IsMap k v m h)
  ]

  pub delete-IsMap : (k : K) (m : Map K V) → IsMap m → IsMap (delete k m)
  unfolding delete get
  delete-IsMap k [] h = tt
  delete-IsMap k ((j, w) ∷ m) (fresh, h) = elim (Bool-cases (j == k)) [
    | inl same ↦ rw (same, delete) (delete-IsMap k m h)
    | inr other ↦
        rw (other, delete)
          ((get-delete k j m ∙ ground (arith, ==_iff k j, ==_iff j k)), delete-IsMap k m h)
  ]

  get-filter_values-none :
      (p : V → Bool) (k : K) (m : Map K V) → get k m ≡ none → get k (filter_values p m) ≡ none
  unfolding get filter_values
  get-filter_values-none p k [] h = refl
  get-filter_values-none p k ((j, w) ∷ m) h = ground (arith, get-filter_values-none p k m)

  pub get-filter_values :
      (p : V → Bool) (k : K) (m : Map K V)
      → IsMap m
      → get k (filter_values p m) ≡ only_if p (get k m)
  unfolding get filter_values
  get-filter_values p k [] h = refl
  get-filter_values p k ((j, w) ∷ m) (fresh, h) =
      ground (arith, ==_iff j k, get-filter_values p k m h, get-filter_values-none p j m fresh)

  pub filter_values-IsMap : (p : V → Bool) (m : Map K V) → IsMap m → IsMap (filter_values p m)
  unfolding filter_values
  filter_values-IsMap p [] h = tt
  filter_values-IsMap p ((j, w) ∷ m) (fresh, h) = elim (Bool-cases (p w)) [
    | inl kept ↦
        rw (kept, filter_values) (get-filter_values-none p j m fresh, filter_values-IsMap p m h)
    | inr gone ↦ rw (gone, filter_values) (filter_values-IsMap p m h)
  ]
