-- ===== src/Replay/Expiry.antt =====
-- A map from keys to the time at which each expires, and its sweeps.
use kya_os_mcp.Common.{
  ℕ, ◌≤◌, ◌≡◌, refl, ap, ◌∙◌, Bool, false, Option, none, some, arith, ltb, Eq, ◌==◌, ==_iff,
  if◌then◌else◌,
}
use kya_os_mcp.Common.Map.{
  Map, get, set, delete, get-set, get-delete, only_if, IsMap, get-filter_values, filter_values,
  filter_values-IsMap,
}

abbrev pub is_later : ℕ → Option ℕ → Bool
is_later now none = false
is_later now (some expiry) = ltb now expiry

module _ {K : Type 0} ⦃e : Eq K⦄ where
  -- The key is remembered at `now`.
  unfoldable pub is_live : K → ℕ → Map K ℕ → Bool
  is_live k now m = is_later now (get k m)

  unfoldable pub evict_expired : ℕ → Map K ℕ → Map K ℕ
  evict_expired now m = filter_values (λ expiry. ltb now expiry) m

  pub get-evict_expired :
      (k : K) (now : ℕ) (m : Map K ℕ)
      → IsMap m
      → get k (evict_expired now m) ≡ only_if (λ expiry. ltb now expiry) (get k m)
  unfolding evict_expired
  get-evict_expired k now m h = get-filter_values (λ expiry. ltb now expiry) k m h

  pub evict_expired-IsMap : (now : ℕ) (m : Map K ℕ) → IsMap m → IsMap (evict_expired now m)
  unfolding evict_expired
  evict_expired-IsMap now m h = filter_values-IsMap (λ expiry. ltb now expiry) m h

  -- A sweep forgets nothing that is remembered then or later.
  pub is_live-evict_expired :
      (k : K) (now t : ℕ) (m : Map K ℕ)
      → IsMap m
      → now ≤ t
      → is_live k t (evict_expired now m) ≡ is_live k t m
  unfolding is_live
  is_live-evict_expired k now t m h le =
      ap (is_later t) (get-evict_expired k now m h) ∙ kept (get k m)
    where
      kept : (o : Option ℕ) → is_later t (only_if (λ expiry. ltb now expiry) o) ≡ is_later t o
      kept none = refl
      kept (some expiry) = ground arith

  pub is_live-set :
      (k j : K) (expiry t : ℕ) (m : Map K ℕ)
      → is_live j t (set k expiry m) ≡ (if k == j then ltb t expiry else is_live j t m)
  unfolding is_live
  is_live-set k j expiry t m = rw (get-set k j expiry m) (ground arith)

  -- Dropping a key that has expired changes nothing from then on.
  pub is_live-delete :
      (k j : K) (expiry now t : ℕ) (m : Map K ℕ)
      → get k m ≡ some expiry
      → expiry ≤ now
      → now ≤ t
      → is_live j t (delete k m) ≡ is_live j t m
  unfolding is_live
  is_live-delete k j expiry now t m h past le = rw (get-delete k j m) (ground (arith, ==_iff k j))
