-- ===== src/Delegation/Authority/Narrowing.antt =====
-- What a credential's authority grants, and that a re-delegation only narrows it.
use kya_os_mcp.Common.{
  ◌≡◌, refl, sym, ◌≢◌, inl, inr, Bool, true, false, not, List, [], ◌∷◌, ◌++◌, map, some, arith,
  ◌==◌, nat_eq, list_eq, ==_iff, Bool-cases, any, keep_if, includes, All, Any,
}
use kya_os_mcp.Text.{Text, codes}
use kya_os_mcp.Delegation.Scope.{
  Matcher, exact, prefix, path_prefix, regex, other, matcher_name, CrispScope, ScopeEntry, is_exact,
  scope_key, has_dot_segment, match_scope, granted, scope_contains, authority_contains,
}
use kya_os_mcp.Delegation.Scope.Containment.{scope_contains_sound}

-- A matcher whose name is one of the four, or another name without the separator of `scope_key`.
abbrev pub IsPlain : Matcher → Type 0
IsPlain (other name) =
    (includes 0 name ≡ false)
    × All (λ known. name ≢ codes known) ("exact" ∷ "prefix" ∷ "path-prefix" ∷ "regex" ∷ [])
IsPlain _ = Unit

includes-name : (m : Matcher) → IsPlain m → includes 0 (matcher_name m) ≡ false
unfolding matcher_name
includes-name (other name) h = h.0
includes-name exact h = refl
includes-name prefix h = refl
includes-name path_prefix h = refl
includes-name regex h = refl

-- A separator that neither name holds splits a key one way.
key_parts :
    (a b r s : Text)
    → includes 0 a ≡ false
    → includes 0 b ≡ false
    → a ++ 0 ∷ r ≡ b ++ 0 ∷ s
    → (a ≡ b) × (r ≡ s)
key_parts [] [] r s h k e = (refl, cc)
key_parts [] (c ∷ b) r s h k e = absurd (ground arith)
key_parts (c ∷ a) [] r s h k e = absurd (ground arith)
key_parts (c ∷ a) (d ∷ b) r s h k e =
    let (same, rest) = key_parts a b r s (ground arith) (ground arith) (cc) in (cc, rest)

-- The matcher is one of the four.
abbrev IsKnown : Matcher → Type 0
IsKnown (other name) = ⊥
IsKnown _ = Unit

name_injective : (m n : Matcher) → IsKnown m → IsPlain n → matcher_name m ≡ matcher_name n → n ≡ m
unfolding matcher_name
name_injective (other a) n h k e = absurd h
name_injective exact (other b) h k e = absurd (k.1.0 (sym e))
name_injective prefix (other b) h k e = absurd (k.1.1.0 (sym e))
name_injective path_prefix (other b) h k e = absurd (k.1.1.1.0 (sym e))
name_injective regex (other b) h k e = absurd (k.1.1.1.1.0 (sym e))
name_injective exact exact h k e = refl
name_injective prefix prefix h k e = refl
name_injective path_prefix path_prefix h k e = refl
name_injective regex regex h k e = refl
name_injective _ _ h k e = absurd (ground arith)

IsKnown-IsPlain : (m : Matcher) → IsKnown m → IsPlain m
IsKnown-IsPlain (other a) h = absurd h
IsKnown-IsPlain exact h = tt
IsKnown-IsPlain _ h = tt

scope_key_injective :
    (s t : CrispScope) → IsKnown s.matcher → IsPlain t.matcher → scope_key t ≡ scope_key s → t ≡ s
scope_key_injective s t h k e =
    let (names, resources) =
      key_parts (matcher_name t.matcher) (matcher_name s.matcher) t.resource s.resource
        (includes-name t.matcher k) (includes-name s.matcher (IsKnown-IsPlain s.matcher h)) e in
    let same = name_injective s.matcher t.matcher h k (sym names) in
    λ i. record { resource = resources i; matcher = same i }

module _ (regex_test : Text → Text → Bool) where
  match_scope-IsKnown :
      (p : Text) (m : Matcher) (v : Text) → match_scope regex_test p m v ≡ true → IsKnown m
  unfolding match_scope
  match_scope-IsKnown p (other name) v h = absurd (cc)
  match_scope-IsKnown p exact v h = tt
  match_scope-IsKnown p _ v h = tt

  abbrev Matches : Text → CrispScope → Type 0
  Matches v s = match_scope regex_test s.resource s.matcher v ≡ true

  -- One entry of the authority matches the value.
  abbrev pub Grants : List ScopeEntry → Text → Type 0
  Grants authority v =
      Any (λ s. match_scope regex_test s.resource s.matcher v ≡ true) (granted authority)

  identical_grants :
      (s : CrispScope) (v : Text) (scopes : List CrispScope)
      → All (λ t. IsPlain t.matcher) scopes
      → Matches v s
      → includes (scope_key s) (map scope_key scopes) ≡ true
      → Any (Matches v) scopes
  identical_grants s v [] plain m h = cc
  identical_grants s v (t ∷ scopes) (k, plain) m h =
      elim (Bool-cases (scope_key t == scope_key s)) [
        | inl same ↦
            let e =
              scope_key_injective s t (match_scope-IsKnown s.resource s.matcher v m) k
                ((==_iff (scope_key t) (scope_key s)).0 same) in
            inl (rw e m)
        | inr apart ↦ inr (identical_grants s v scopes plain m (rw apart at h))
      ]

  pattern_grants :
      (s : CrispScope) (v : Text) (scopes : List CrispScope)
      → has_dot_segment v ≡ false
      → Matches v s
      → any (λ t. scope_contains regex_test t s) (keep_if (λ t. not (is_exact t.matcher)) scopes)
        ≡ true
      → Any (Matches v) scopes
  pattern_grants s v [] d m h = cc
  pattern_grants s v (t ∷ scopes) d m h = elim (Bool-cases (not (is_exact t.matcher))) [
    | inr skipped ↦ inr (pattern_grants s v scopes d m (rw skipped at h))
    | inl kept ↦ elim (Bool-cases (scope_contains regex_test t s)) [
      | inl inside ↦ inl (scope_contains_sound regex_test t s v (inr (inr d)) inside m)
      | inr outside ↦ inr (pattern_grants s v scopes d m (rw (kept, outside) at h))
    ]
  ]

  -- What is inside an authority grants nothing that the authority does not.
  pub authority_contains_sound :
      (authority : List ScopeEntry) (s : CrispScope) (v : Text)
      → All (λ t. IsPlain t.matcher) (granted authority)
      → has_dot_segment v ≡ false
      → authority_contains regex_test authority (some s) ≡ true
      → Matches v s
      → Grants authority v
  unfolding authority_contains
  authority_contains_sound authority s v plain d h m =
      elim (Bool-cases (includes (scope_key s) (map scope_key (granted authority)))) [
        | inl same ↦ identical_grants s v (granted authority) plain m same
        | inr apart ↦ pattern_grants s v (granted authority) d m (rw apart at h)
      ]
