-- ===== src/Stores/GrantStore/Reads.antt =====
-- What the reads of the grant store return.
use kya_os_mcp.Common.{
  ℕ, ◌≤◌, ◌≡◌, refl, sym, ap, ◌∙◌, ◌≢◌, inl, inr, Bool, true, false, ◌&&◌, not, List, [], ◌∷◌,
  Option, none, some, String, arith, ◌==◌, string_eq, option_eq, list_eq, nat_eq, ==_iff,
  Bool-cases, Option-cases, All, All-map, keep_if, all, includes,
}
use kya_os_mcp.Text.{Text}
use kya_os_mcp.Common.Map.{get, set, values, filter_values, IsMap}
use kya_os_mcp.Stores.GrantStore.{
  GrantStatus, active, expired, revoked, Grant, Grants, is_past, is_active, active_grants,
  covers_scopes, get_by_agent, get_by_session, revoke, cleanup, with_reason,
}

module _ {A : Type 0} where
  All-keep_if : (p : A → Bool) (xs : List A) → All (λ x. p x ≡ true) (keep_if p xs)
  All-keep_if p [] = tt
  All-keep_if p (x ∷ xs) = elim (Bool-cases (p x)) [
    | inl holds ↦ rw holds (holds, All-keep_if p xs)
    | inr fails ↦ rw fails (All-keep_if p xs)
  ]

  keep_if-All : (P : A → Type 0) (p : A → Bool) (xs : List A) → All P xs → All P (keep_if p xs)
  keep_if-All P p [] h = tt
  keep_if-All P p (x ∷ xs) (q, h) = elim (Bool-cases (p x)) [
    | inl holds ↦ rw holds (q, keep_if-All P p xs h)
    | inr fails ↦ rw fails (keep_if-All P p xs h)
  ]

  All-both : (P Q : A → Type 0) (xs : List A) → All P xs → All Q xs → All (λ x. P x × Q x) xs
  All-both P Q [] h k = tt
  All-both P Q (x ∷ xs) (p, h) (q, k) = ((p, q), All-both P Q xs h k)

  -- A test that implies an earlier one.
  keep_if-narrow :
      (p q : A → Bool) (xs : List A)
      → ((x : A) → q x ≡ true → p x ≡ true)
      → keep_if q (keep_if p xs) ≡ keep_if q xs
  keep_if-narrow p q [] f = refl
  keep_if-narrow p q (x ∷ xs) f = ground (arith, f x, keep_if-narrow p q xs f)

-- Each grant stands under its own id, as `bind` puts it.
abbrev pub IsStore : Grants → Type 0
IsStore grants = All (λ (id, g). g.id ≡ id) grants

-- A grant that does not stand active under the id.
abbrev IsOff : String → Grant → Type 0
IsOff id g = g.id ≡ id → g.status ≢ active

absent-IsOff :
    (id : String) (m : Grants) → IsStore m → get id m ≡ none → All (λ (j, g). IsOff id g) m
unfolding get
absent-IsOff id [] h e = tt
absent-IsOff id ((j, w) ∷ m) (own, h) e =
    let other : (j == id) ≡ false = ground arith in
    ((λ same. absurd (ground (arith, ==_iff j id))), absent-IsOff id m h (rw (other, get) at e))

set-IsOff :
    (id : String) (g : Grant) (m : Grants)
    → IsStore m
    → IsMap m
    → g.status ≢ active
    → All (λ (j, x). IsOff id x) (set id g m)
unfolding set get
set-IsOff id g [] h k off = ((λ same. off), tt)
set-IsOff id g ((j, w) ∷ m) (own, h) (fresh, k) off = elim (Bool-cases (j == id)) [
  | inl same ↦
      rw (same, set)
        ((λ e. off), absent-IsOff id m h (ap (λ i. get i m) (sym ((==_iff j id).0 same)) ∙ fresh))
  | inr other ↦
      rw (other, set) ((λ e. absurd (ground (arith, ==_iff j id))), set-IsOff id g m h k off)
]

with_reason-status : (reason : Option String) (g : Grant) → (with_reason reason g).status ≡ g.status
with_reason-status none g = refl
with_reason-status (some r) g = refl

revoke-IsOff :
    (id : String) (reason : Option String) (m : Grants)
    → IsStore m
    → IsMap m
    → All (λ (j, x). IsOff id x) (revoke id reason m)
unfolding revoke
revoke-IsOff id reason m h k = elim (Option-cases (get id m)) [
  | inl absent ↦ rw (absent, revoke) (absent-IsOff id m h absent)
  | inr (g, stored) ↦
      rw (stored, revoke)
        (set-IsOff id (with_reason reason (record g { status = revoked })) m h k
          (λ e. let s = with_reason-status reason (record g { status = revoked }) in cc))
]

All-values : (P : Grant → Type 0) (m : Grants) → All (λ (j, x). P x) m → All P (values m)
All-values P [] h = tt
All-values P ((j, w) ∷ m) (p, h) = (p, All-values P m h)

is_active-status : (now : ℕ) (g : Grant) → is_active now g ≡ true → g.status ≡ active
unfolding is_active
is_active-status now g h = by_status g.status refl
  where
    by_status : (s : GrantStatus) → g.status ≡ s → g.status ≡ active
    by_status active e = e
    by_status expired e = absurd (let bad = rw e at h in cc)
    by_status revoked e = absurd (let bad = rw e at h in cc)

-- In a store that holds each grant once, under its own id: after a grant is revoked, no read by
-- agent or by session returns it, at any time.
pub revoke-absent :
    (id : String) (reason : Option String) (m : Grants) (now : ℕ) (name : String)
    (required : List Text)
    → IsStore m
    → IsMap m
    → All (λ g. g.id ≢ id) (get_by_agent now name required (revoke id reason m))
      × All (λ g. g.id ≢ id) (get_by_session now name required (revoke id reason m))
unfolding get_by_agent get_by_session active_grants
revoke-absent id reason m now name required h k = (
  keep_if-All (λ g. g.id ≢ id) (λ g. g.agent_did == name && covers_scopes required g) found gone,
  keep_if-All (λ g. g.id ≢ id) (λ g. g.session_id == some name && covers_scopes required g) found
      gone,
)
  where
    stored : List Grant
    stored = values (revoke id reason m)

    found : List Grant
    found = keep_if (is_active now) stored

    gone : All (λ g. g.id ≢ id) found
    gone =
        All-map found (λ g (off, live) same. off same (is_active-status now g live))
          (All-both (IsOff id) (λ g. is_active now g ≡ true) found
            (keep_if-All (IsOff id) (is_active now) stored
              (All-values (IsOff id) (revoke id reason m) (revoke-IsOff id reason m h k)))
            (All-keep_if (is_active now) stored))

abbrev pub IsUsable : ℕ → String → List Text → Grant → Type 0
IsUsable now session required g =
    (g.session_id ≡ some session)
    × (g.status ≡ active)
    × (is_past now g.expires_at ≡ false)
    × (all (λ s. includes s g.scopes) required ≡ true)

-- A read by session returns only grants bound to that very session, active, not expired, and with
-- every required scope.
pub get_by_session-IsUsable :
    (now : ℕ) (session : String) (required : List Text) (m : Grants)
    → All (IsUsable now session required) (get_by_session now session required m)
unfolding get_by_session active_grants covers_scopes is_active
get_by_session-IsUsable now session required m =
    All-map (get_by_session now session required m)
      (λ g (mine, live). (
        (==_iff g.session_id (some session)).0 (ground arith),
        is_active-status now g live,
        ground arith,
        ground arith,
      ))
      (All-both (λ g. (g.session_id == some session && covers_scopes required g) ≡ true)
        (λ g. is_active now g ≡ true) (get_by_session now session required m)
        (All-keep_if (λ g. g.session_id == some session && covers_scopes required g)
          (active_grants now m))
        (keep_if-All (λ g. is_active now g ≡ true)
          (λ g. g.session_id == some session && covers_scopes required g) (active_grants now m)
          (All-keep_if (is_active now) (values m))))

values-filter_values :
    (p : Grant → Bool) (m : Grants) → values (filter_values p m) ≡ keep_if p (values m)
unfolding filter_values
values-filter_values p [] = refl
values-filter_values p ((j, w) ∷ m) = elim (Bool-cases (p w)) [
  | inl holds ↦ rw (holds, filter_values) (ap (λ vs. w ∷ vs) (values-filter_values p m))
  | inr fails ↦ rw (fails, filter_values) (values-filter_values p m)
]

-- A cleanup changes no later read, by agent or by session.
pub cleanup-reads :
    (now later : ℕ) (name : String) (required : List Text) (m : Grants)
    → now ≤ later
    → (get_by_agent later name required (cleanup now m) ≡ get_by_agent later name required m)
      × (get_by_session later name required (cleanup now m) ≡ get_by_session later name required m)
unfolding get_by_agent get_by_session active_grants cleanup is_active
cleanup-reads now later name required m le = (
  ap (keep_if (λ g. g.agent_did == name && covers_scopes required g)) same,
  ap (keep_if (λ g. g.session_id == some name && covers_scopes required g)) same,
)
  where
    earlier : (o : Option ℕ) → is_past later o ≡ false → is_past now o ≡ false
    earlier none h = refl
    earlier (some expiry) h = ground arith

    same : keep_if (is_active later) (values (cleanup now m)) ≡ keep_if (is_active later) (values m)
    same =
        ap (keep_if (is_active later))
          (values-filter_values (λ g. not (is_past now g.expires_at)) m)
        ∙ keep_if-narrow (λ g. not (is_past now g.expires_at)) (is_active later) (values m)
            (λ g live. let e = earlier g.expires_at (ground arith) in rw e refl)
