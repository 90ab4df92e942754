-- ===== src/Delegation/Authority/Attenuation.antt =====
-- `validateScopeAttenuation` and `scopeSatisfies` against the meaning of an authority.
use kya_os_mcp.Common.{
  ◌≡◌, refl, ap, ◌≢◌, ◌↔◌, inl, inr, Bool, true, false, ◌&&◌, not, List, [], ◌∷◌, ◌++◌, map, none,
  some, arith, ◌==◌, nat_eq, list_eq, Bool-cases, includes, add_item, All, keep_if-nil→All,
  includes→Any, Any-All, All-append, Any-append_left, Any-append_right, Any-append_cases, Any-elim,
  or_right,
}
use kya_os_mcp.Text.{Text}
use kya_os_mcp.Delegation.Scope.{
  ScopeEntry, is_exact, has_dot_segment, match_scope, granted, authority_contains,
}
use kya_os_mcp.Delegation.Credential.{Credential}
use kya_os_mcp.Delegation.Authority.{
  flat_scopes, exact_entry, scope_authority, add_all, get_delegation_scopes, narrows, is_nil,
  widened_matchers, widened_scopes, validate_scope_attenuation, Satisfaction, crisp_satisfies,
  scope_satisfies,
}
use kya_os_mcp.Delegation.Authority.Narrowing.{IsPlain, Grants, authority_contains_sound}

granted-append : (xs ys : List ScopeEntry) → granted (xs ++ ys) ≡ granted xs ++ granted ys
unfolding granted
granted-append [] ys = refl
granted-append (none ∷ xs) ys = granted-append xs ys
granted-append (some s ∷ xs) ys = ap (◌∷◌ s) (granted-append xs ys)

All-exact_entry :
    (P : ScopeEntry → Type 0) (l : List Text)
    → All (λ s. P (exact_entry s)) l
    → All P (map exact_entry l)
All-exact_entry P [] h = tt
All-exact_entry P (s ∷ l) (p, h) = (p, All-exact_entry P l h)

is_nil_lem {ℓ} : {A : Type ℓ} (l : List A) → is_nil l ≡ true → l ≡ []
is_nil_lem [] h = refl
is_nil_lem (a ∷ l) h = cc

module _ (P : Text → Type 0) where
  All-add_item : (s : Text) (acc : List Text) → All P (add_item s acc) → All P acc × P s
  All-add_item s acc h = elim (Bool-cases (includes s acc)) [
    | inl old ↦
        let kept : All P acc = rw old at h in
        (
          kept,
          Any-elim acc (λ x e. e) (Any-All acc (λ x e p. rw e at p) (includes→Any s acc old) kept),
        )
    | inr new ↦ All-last acc (rw new at h)
  ]
    where
      All-last : (l : List Text) {x : Text} → All P (l ++ x ∷ []) → All P l × P x
      All-last [] (p, _) = (tt, p)
      All-last (y ∷ l) (p, h) = let (rest, last) = All-last l h in ((p, rest), last)

  All-add_all : (acc items : List Text) → All P (add_all acc items) → All P acc × All P items
  unfolding add_all
  All-add_all acc [] h = (h, tt)
  All-add_all acc (s ∷ items) h =
      let (front, rest) = All-add_all (add_item s acc) items h in
      let (old, p) = All-add_item s acc front in (old, (p, rest))

  All-flat_scopes : (c : Credential) → All P (get_delegation_scopes c) → All P (flat_scopes c)
  unfolding get_delegation_scopes flat_scopes
  All-flat_scopes c h =
      let (front, later) = All-add_all (add_all [] c.scopes) c.constraint_scopes h in
      All-append P c.scopes c.constraint_scopes (All-add_all [] c.scopes front).1 later

add_all-nil :
    (acc items : List Text) → is_nil (add_all acc items) ≡ false → is_nil (acc ++ items) ≡ false
unfolding add_all
add_all-nil [] [] h = h
add_all-nil (a ∷ acc) items h = refl
add_all-nil [] (s ∷ items) h = refl

has_authority :
    (c : Credential)
    → is_nil (get_delegation_scopes c) && is_nil c.crisp ≡ false
    → is_nil (scope_authority c) ≡ false
unfolding scope_authority flat_scopes get_delegation_scopes add_all
has_authority c h = go c.scopes c.constraint_scopes c.crisp h
  where
    go :
        (a b : List Text) (k : List ScopeEntry)
        → is_nil (add_all (add_all [] a) b) && is_nil k ≡ false
        → is_nil (map exact_entry (a ++ b) ++ k) ≡ false
    go [] [] (s ∷ k) e = refl
    go [] [] [] e = e
    go [] (s ∷ b) k e = refl
    go (s ∷ a) b k e = refl

module _ (regex_test : Text → Text → Bool) where
  entries_grant :
      (authority entries : List ScopeEntry) (v : Text)
      → All (λ t. IsPlain t.matcher) (granted authority)
      → has_dot_segment v ≡ false
      → All (λ s. not (authority_contains regex_test authority s) ≡ false) entries
      → Grants regex_test entries v
      → Grants regex_test authority v
  unfolding granted
  entries_grant authority [] v plain d h g = absurd g
  entries_grant authority (none ∷ entries) v plain d (_, h) g =
      entries_grant authority entries v plain d h g
  entries_grant authority (some s ∷ entries) v plain d (inside, h) (inl m) =
      authority_contains_sound regex_test authority s v plain d (ground arith) m
  entries_grant authority (some s ∷ entries) v plain d (inside, h) (inr g) =
      entries_grant authority entries v plain d h g

  within_authority :
      (authority : List ScopeEntry) (child : Credential)
      → All (λ s. not (authority_contains regex_test authority s) ≡ false) child.crisp
      → All
          (λ s. not (authority_contains regex_test authority (exact_entry s)) ≡ false)
          (get_delegation_scopes child)
      → All (λ s. not (authority_contains regex_test authority s) ≡ false) (scope_authority child)
  unfolding scope_authority
  within_authority authority child matchers scopes =
      All-append _ (map exact_entry (flat_scopes child)) child.crisp
        (All-exact_entry _ (flat_scopes child) (All-flat_scopes _ child scopes)) matchers

  accepted :
      (parent child : Credential)
      → is_nil (scope_authority parent) ≡ false
      → validate_scope_attenuation regex_test parent child ≡ narrows
      → (widened_matchers regex_test parent child ≡ [])
        × (widened_scopes regex_test parent child ≡ [])
        × (is_nil (get_delegation_scopes child) && is_nil child.crisp ≡ false)
  unfolding validate_scope_attenuation
  accepted parent child restricted h = ground (
    arith,
    is_nil_lem (widened_matchers regex_test parent child),
    is_nil_lem (widened_scopes regex_test parent child),
  )

  -- An accepted re-delegation of a scope-restricted parent grants nothing but what the parent
  -- grants: every value without a dot segment that the child's authority matches, the parent's
  -- matches. The parent's matcher names are taken to be plain.
  pub attenuation_narrows :
      (parent child : Credential) (v : Text)
      → is_nil (scope_authority parent) ≡ false
      → All (λ t. IsPlain t.matcher) (granted (scope_authority parent))
      → has_dot_segment v ≡ false
      → validate_scope_attenuation regex_test parent child ≡ narrows
      → Grants regex_test (scope_authority child) v
      → Grants regex_test (scope_authority parent) v
  unfolding widened_matchers widened_scopes
  attenuation_narrows parent child v restricted plain d h g =
      let (matchers, scopes, _) = accepted parent child restricted h in
      let authority = scope_authority parent in
      entries_grant authority (scope_authority child) v plain d
        (within_authority authority child (keep_if-nil→All _ child.crisp matchers)
          (keep_if-nil→All _ (get_delegation_scopes child) scopes))
        g

  -- An accepted child of a restricted parent is restricted too.
  pub attenuation-IsRestricted :
      (parent child : Credential)
      → is_nil (scope_authority parent) ≡ false
      → validate_scope_attenuation regex_test parent child ≡ narrows
      → is_nil (scope_authority child) ≡ false
  attenuation-IsRestricted parent child restricted h =
      let (_, _, some_scopes) = accepted parent child restricted h in
      has_authority child some_scopes

  -- A required scope is satisfied exactly when an entry of the credential's authority matches it,
  -- where all its CRISP entries are scopes.
  crisp_satisfies_iff :
      (v : Text) (entries : List ScopeEntry)
      → All (λ s. s ≢ none) entries
      → (r : Satisfaction) × (crisp_satisfies regex_test v entries ≡ some r)
        × ((r.satisfied ≡ true) ↔ Grants regex_test entries v)
  unfolding crisp_satisfies granted
  crisp_satisfies_iff v [] h =
      (record { satisfied = false; used_non_exact_matcher = false }, refl, (λ e. cc, λ g. absurd g))
  crisp_satisfies_iff v (none ∷ entries) (p, h) = absurd (p refl)
  crisp_satisfies_iff v (some s ∷ entries) (p, h) =
      elim (Bool-cases (match_scope regex_test s.resource s.matcher v)) [
        | inl m ↦ (
          record { satisfied = true; used_non_exact_matcher = not (is_exact s.matcher) },
          rw m,
          (λ e. inl m, λ g. refl),
        )
        | inr missed ↦
            let (r, e, (to, from)) = crisp_satisfies_iff v entries h in
            (r, rw missed e, (λ t. inr (to t), λ g. from (or_right missed g)))
      ]

  exact_grants :
      (v : Text) (l : List Text) → (includes v l ≡ true) ↔ Grants regex_test (map exact_entry l) v
  unfolding granted match_scope
  exact_grants v [] = (λ h. cc, λ g. absurd g)
  exact_grants v (s ∷ l) =
      let (to, from) = exact_grants v l in
      elim (Bool-cases (s == v)) [
        | inl same ↦ (λ h. inl same, λ g. rw same refl)
        | inr apart ↦ (λ h. inr (to (rw apart at h)), λ g. rw apart (from (or_right apart g)))
      ]

  -- `scopeSatisfies` decides whether an entry of the credential's authority matches the required
  -- scope, where all the CRISP entries are scopes.
  pub scope_satisfies_iff :
      (v : Text) (c : Credential)
      → All (λ s. s ≢ none) c.crisp
      → (r : Satisfaction) × (scope_satisfies regex_test v c ≡ some r)
        × ((r.satisfied ≡ true) ↔ Grants regex_test (scope_authority c) v)
  unfolding scope_satisfies scope_authority
  scope_satisfies_iff v c h =
      let split = granted-append (map exact_entry (flat_scopes c)) c.crisp in
      elim (Bool-cases (includes v (flat_scopes c))) [
        | inl flat ↦ (
          record { satisfied = true; used_non_exact_matcher = false },
          rw flat,
          (
            λ e. rw split (Any-append_left _ _ _ ((exact_grants v (flat_scopes c)).0 flat)),
            λ g. refl,
          ),
        )
        | inr crisp ↦
            let (r, e, (to, from)) = crisp_satisfies_iff v c.crisp h in
            (
              r,
              rw crisp e,
              (
                λ t. rw split (Any-append_right _ _ _ (to t)),
                λ g. elim (Any-append_cases _ _ _ (rw split at g)) [
                  | inl f ↦ absurd (let same = (exact_grants v (flat_scopes c)).1 f in cc)
                  | inr k ↦ from k
                ],
              ),
            )
      ]
