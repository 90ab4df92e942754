-- ===== src/Audit/SourceState/Maps.antt =====
-- Lookups after writes and deletions, and maps whose keys ascend in insertion order, as those of the
-- pending sequences.
use kya_os_mcp.Common.{
  ℕ, suc, ◌+◌, ◌≤◌, String, ◌⊎◌, string_eq, some-injective, length-append, ◌<◌, ◌≡◌, refl, sym, ap,
  ◌∙◌, inl, inr, false, [], ◌∷◌, none, some, arith, ◌==◌, nat_eq, ==_iff, ==_refl, Eq, Bool-cases,
  Option-cases, length,
}
use kya_os_mcp.Common.Map.{
  Map, get, set, delete, IsMap, delete_absent, keys, get-set, get-delete, keys-set_new, length-keys,
}

-- From a number on, which no key reaches.
abbrev pub IsAscending : {V : Type 0} → ℕ → Map ℕ V → Type 0
IsAscending lo [] = Unit
IsAscending lo ((n, v) ∷ m) = (lo < n) × IsAscending n m

pub length-delete_lem :
    {K V : Type 0} ⦃e : Eq K⦄ (k : K) (v : V) (m : Map K V)
    → IsMap m
    → get k m ≡ some v
    → suc (length (delete k m)) ≡ length m
unfolding get delete
length-delete_lem k v [] h at = absurd (cc)
length-delete_lem k v ((j, w) ∷ m) (fresh, h) at = elim (Bool-cases (j == k)) [
  | inl same ↦
      let gone : get k m ≡ none = ap (λ i. get i m) (sym ((==_iff j k).0 same)) ∙ fresh in
      rw (same, delete, delete_absent k m gone) refl
  | inr other ↦ rw (other, delete) (ap suc (length-delete_lem k v m h (rw (other, get) at at)))
]

module _ {V : Type 0} where
  pub IsAscending-weaker : (lo hi : ℕ) (m : Map ℕ V) → lo ≤ hi → IsAscending hi m → IsAscending lo m
  IsAscending-weaker lo hi [] le h = tt
  IsAscending-weaker lo hi ((n, v) ∷ m) le (lt, h) = (omega arith, h)

  pub delete-IsAscending : (k lo : ℕ) (m : Map ℕ V) → IsAscending lo m → IsAscending lo (delete k m)
  unfolding delete
  delete-IsAscending k lo [] h = tt
  delete-IsAscending k lo ((n, v) ∷ m) (lt, h) = elim (Bool-cases (n == k)) [
    | inl same ↦
        rw (same, delete)
          (IsAscending-weaker lo n (delete k m) (omega arith) (delete-IsAscending k n m h))
    | inr other ↦ rw (other, delete) (lt, delete-IsAscending k n m h)
  ]

  pub get-above : (k lo : ℕ) (v : V) (m : Map ℕ V) → IsAscending lo m → get k m ≡ some v → lo < k
  unfolding get
  get-above k lo v [] h at = absurd (cc)
  get-above k lo v ((n, w) ∷ m) (lt, h) at = elim (Bool-cases (n == k)) [
    | inl same ↦ let e = (==_iff n k).0 same in omega arith
    | inr other ↦ let above = get-above k n v m h (rw (other, get) at at) in omega arith
  ]

  get-none : (k lo : ℕ) (m : Map ℕ V) → k ≤ lo → IsAscending lo m → get k m ≡ none
  get-none k lo m le h = elim (Option-cases (get k m)) [
    | inl absent ↦ absent
    | inr (v, at) ↦ absurd (let above = get-above k lo v m h at in omega arith)
  ]

  pub ascending-IsMap : (lo : ℕ) (m : Map ℕ V) → IsAscending lo m → IsMap m
  ascending-IsMap lo [] h = tt
  ascending-IsMap lo ((n, v) ∷ m) (lt, h) = (get-none n n m (omega arith) h, ascending-IsMap n m h)

  -- A key above all others goes last.
  pub set-IsAscending :
      (k lo : ℕ) (v : V) (m : Map ℕ V)
      → lo < k
      → ((n : ℕ) (w : V) → get n m ≡ some w → n < k)
      → IsAscending lo m
      → IsAscending lo (set k v m)
  unfolding set get
  set-IsAscending k lo v [] lt below h = (lt, tt)
  set-IsAscending k lo v ((n, w) ∷ m) lt below (up, h) =
      let here : n < k = below n w (rw (==_refl n, get) refl) in
      elim (Bool-cases (n == k)) [
        | inl same ↦ let e = (==_iff n k).0 same in absurd (omega arith)
        | inr other ↦ rw (other, set) (up, set-IsAscending k n v m here later h)
      ]
    where
      later : (i : ℕ) (u : V) → get i m ≡ some u → i < k
      later i u at = elim (Bool-cases (n == i)) [
        | inl same ↦
            absurd
              (let above = get-above i n u m h at in let e = (==_iff n i).0 same in omega arith)
        | inr other ↦ below i u (rw (other, get) at)
      ]

pub length-set_new :
    {V : Type 0} (k : String) (v : V) (m : Map String V)
    → get k m ≡ none
    → length (set k v m) ≡ length m + 1
length-set_new k v m absent =
    sym (length-keys (set k v m))
    ∙ ap length (keys-set_new k v m absent)
    ∙ length-append (keys m) (k ∷ [])
    ∙ ap (λ n. n + 1) (length-keys m)

-- Where a write is read back.
pub set-cases :
    {K V : Type 0} ⦃e : Eq K⦄ (k j : K) (v w : V) (m : Map K V)
    → get j (set k v m) ≡ some w
    → ((k ≡ j) × (v ≡ w)) ⊎ (get j m ≡ some w)
set-cases k j v w m h = elim (Bool-cases (k == j)) [
  | inl same ↦ inl ((==_iff k j).0 same, some-injective (rw (get-set k j v m, same) at h))
  | inr other ↦ inr (rw (get-set k j v m, other) at h)
]

pub get-set_other :
    {K V : Type 0} ⦃e : Eq K⦄ (k j : K) (v : V) (m : Map K V)
    → (k == j) ≡ false
    → get j (set k v m) ≡ get j m
get-set_other k j v m other = get-set k j v m ∙ rw other refl

pub get-set_own :
    {K V : Type 0} ⦃e : Eq K⦄ (k : K) (v : V) (m : Map K V) → get k (set k v m) ≡ some v
get-set_own k v m = get-set k k v m ∙ rw (==_refl k) refl

pub delete-kept :
    {K V : Type 0} ⦃e : Eq K⦄ (k j : K) (w : V) (m : Map K V)
    → get j (delete k m) ≡ some w
    → ((k == j) ≡ false) × (get j m ≡ some w)
delete-kept k j w m h = elim (Bool-cases (k == j)) [
  | inl same ↦ absurd (let bad = rw (get-delete k j m, same) at h in cc)
  | inr other ↦ (other, rw (get-delete k j m, other) at h)
]

pub get-delete_other :
    {K V : Type 0} ⦃e : Eq K⦄ (k j : K) (m : Map K V)
    → (k == j) ≡ false
    → get j (delete k m) ≡ get j m
get-delete_other k j m other = get-delete k j m ∙ rw other refl
