-- ===== src/Audit/Consistency/Built.antt =====
-- A built consistency proof climbs to both roots.
use native.Mathlib.Nat.{pow-suc, one-le-pow, pow-le-pow_right}
use kya_os_mcp.Common.{
  ℕ, zero, suc, ◌-◌, ◌^◌, ◌≤◌, ◌≡◌, refl, sym, ap, ◌∙◌, inl, inr, Bool, true, false, ◌&&◌, List, [],
  ◌∷◌, Option, some, some-injective, arith, ltb, leb, lt_of_ltb, le_of_ltb, length, Bool-cases,
  if◌then◌else◌, nat_eq, ◌==◌,
}
use kya_os_mcp.Audit.Digests.{Bytes, Digest}
use kya_os_mcp.Audit.Merkle.{slice_to, slice_from, extend, root_in, largest_power_of_two_less_than}
use kya_os_mcp.Audit.Merkle.Climb.{climb, climb-end}
use kya_os_mcp.Audit.Consistency.{build_consistency_proof}
use kya_os_mcp.Audit.Consistency.Sides.{sides_above, sides_above-full}
use kya_os_mcp.Audit.Consistency.Loop.{join_both}
use kya_os_mcp.Audit.Consistency.Ones.{all_ones, all_ones-full}

pow-fits : (d e n : ℕ) → n ≡ 2 ^ e → n ≤ 2 ^ d → e ≤ d
pow-fits d e n at fits = elim (Bool-cases (ltb d e)) [
  | inr more ↦ le_of_ltb d e more
  | inl less ↦
      let step = pow-le-pow_right {n = 2} (omega arith) {i = suc d} {j = e} (lt_of_ltb d e less) in
      let some_pow = one-le-pow d 2 (omega arith) in absurd (omega (arith, pow-suc 2 d))
]

module _ (sha256 : Bytes → Option Digest) where
  -- A path, with the digest that the climb starts at left out where the old root stands for it.
  pub record IsBuilt (D d m size : ℕ) (complete : Bool) (path : List Digest) (x r : Digest)
      : Type 0 where
    pub start : Digest
    pub rest : List Digest
    pub shape : path ≡ (if complete && all_ones D (m - 1) then rest else start ∷ rest)
    pub at_old : (complete && all_ones D (m - 1)) ≡ true → start ≡ x
    pub climbs :
        climb (join_both sha256) (sides_above d (m - 1) (size - 1)) rest (some (start, start))
        ≡ some (x, r)

  pub IsBuilt-whole :
      (D d e m size : ℕ) (complete : Bool) (path : List Digest) (r : Digest)
      → m ≡ size
      → m ≡ 2 ^ e
      → size ≤ 2 ^ d
      → size ≤ 2 ^ D
      → (if complete then some [] else some (r ∷ [])) ≡ some path
      → IsBuilt D d m size complete path r r
  IsBuilt-whole D d e m size complete path r same power fits fits' made =
      let ones : all_ones D (m - 1) ≡ true =
        ap (λ n. all_ones D (n - 1)) power
        ∙ all_ones-full D e (pow-fits D e size (sym same ∙ power) fits') in
      let none_above : sides_above d (m - 1) (size - 1) ≡ [] =
        ap (λ n. sides_above d (m - 1) (n - 1)) (sym same)
        ∙ ap (λ n. sides_above d (n - 1) (n - 1)) power
        ∙ sides_above-full d e (pow-fits d e size (sym same ∙ power) fits) in
      record {
        start = r;
        rest = [];
        shape = rw ones (shaped complete made);
        at_old = λ _. refl;
        climbs = rw none_above (climb-end (join_both sha256) (some (r, r)) (r, r) refl);
      }
    where
      shaped :
          (b : Bool)
          → (if b then some [] else some (r ∷ [])) ≡ some path
          → path ≡ (if b && true then [] else r ∷ [])
      shaped true h = sym (some-injective h)
      shaped false h = sym (some-injective h)

  -- The three ways in which a step of `buildConsistencyProof` goes.
  module _ (f m : ℕ) (leaves : List Digest) (complete : Bool) (split : ℕ) (l r : Digest)
      (at : largest_power_of_two_less_than (length leaves) ≡ split)
      (l_at : root_in sha256 f (slice_to split leaves) ≡ some l)
      (r_at : root_in sha256 f (slice_from split leaves) ≡ some r)
      (short : (m == length leaves) ≡ false) where
    pub step-left :
        leb m split ≡ true
        → build_consistency_proof sha256 (suc f) m leaves complete
          ≡ extend (build_consistency_proof sha256 f m (slice_to split leaves) complete) (some r)
    unfolding build_consistency_proof
    step-left h = rw (short, at, h, r_at) refl

    pub step-right :
        leb m split ≡ false
        → build_consistency_proof sha256 (suc f) m leaves complete
          ≡ extend
              (build_consistency_proof sha256 f (m - split) (slice_from split leaves) false)
              (some l)
    unfolding build_consistency_proof
    step-right h = rw (short, at, h, l_at) refl

  pub step-whole :
      (f m : ℕ) (leaves : List Digest) (complete : Bool) (r : Digest)
      → (m == length leaves) ≡ true
      → root_in sha256 f leaves ≡ some r
      → build_consistency_proof sha256 f m leaves complete
        ≡ (if complete then some [] else some (r ∷ []))
  unfolding build_consistency_proof
  step-whole zero m leaves complete r same hashed = rw (same, hashed) refl
  step-whole (suc f) m leaves complete r same hashed = rw (same, hashed) refl
