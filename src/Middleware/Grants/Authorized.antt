-- ===== src/Middleware/Grants/Authorized.antt =====
-- What a grant rests on that authorizes a call, in src/middleware/with-kya-os.grants.ts.
use kya_os_mcp.Common.{
  ℕ, ◌≡◌, refl, sym, ap, ◌∙◌, inl, inr, Bool, true, false, List, [], ◌∷◌, Option, none, some,
  some-injective, String, ◌==◌, string_eq, option_eq, list_eq, nat_eq, ==_iff, Bool-cases,
  Option-cases, Any, keep_if, includes,
}
use kya_os_mcp.Text.{codes}
use kya_os_mcp.Delegation.Authority.{scope_satisfies, get_delegation_scopes}
use kya_os_mcp.Stores.GrantStore.{
  Grant, GrantStatus, active, expired, revoked, is_past, is_marked_active,
}
use kya_os_mcp.Middleware.Grants.{
  GrantDeps, ResolvedGrant, Verified, Evidence, evidence_of, is_satisfied, checked_grant,
  after_evidence, authorize_grant, first_authorized,
}

pub Any-keep_if :
    {A : Type 0} (P : A → Type 0) (p : A → Bool) (xs : List A) → Any P (keep_if p xs) → Any P xs
Any-keep_if P p [] h = elim h [ ]
Any-keep_if P p (x ∷ xs) h = elim (Bool-cases (p x)) [
  | inr gone ↦ inr (Any-keep_if P p xs (rw gone at h))
  | inl kept ↦ elim (rw kept at h) [
    | inl here ↦ inl here
    | inr there ↦ inr (Any-keep_if P p xs there)
  ]
]

marked-active : (s : GrantStatus) → is_marked_active s ≡ true → s ≡ active
marked-active active h = refl
marked-active expired h = absurd (cc)
marked-active revoked h = absurd (cc)

module _ (deps : GrantDeps) where
  -- The grant authorizes the scope at this time: it is active and unexpired and names the scope, and
  -- the evidence that it retains was verified again for its own agent and user and covers the scope.
  pub record IsAuthorized (now : ℕ) (scope : String) (r : ResolvedGrant) : Type 0 where
    pub is_active : r.grant.status ≡ active
    pub named : includes (codes scope) r.grant.scopes ≡ true
    pub unexpired : is_past now r.grant.expires_at ≡ false
    pub evidence : Evidence
    pub check : Verified
    pub retained : evidence_of r.grant.credential_jwt r.grant.delegation_credential ≡ some evidence
    pub verified : deps.verify_delegation evidence ≡ some check
    pub agent : check.vc.subject_id ≡ r.grant.agent_did
    pub user : check.controller ≡ r.grant.user_did
    pub covered : is_satisfied (scope_satisfies deps.regex_test (codes scope) check.vc) ≡ true
    pub scopes : r.delegated_scopes ≡ get_delegation_scopes check.vc

  checked_grant-some :
      (grant : Grant) (scope : String) (check : Verified) (r : ResolvedGrant)
      → checked_grant deps grant scope check ≡ some r
      → (check.vc.subject_id ≡ grant.agent_did)
        × (check.controller ≡ grant.user_did)
        × (is_satisfied (scope_satisfies deps.regex_test (codes scope) check.vc) ≡ true)
        × (record { grant = grant; delegated_scopes = get_delegation_scopes check.vc } ≡ r)
  unfolding checked_grant
  checked_grant-some grant scope check r h =
      elim (Bool-cases (check.vc.subject_id == grant.agent_did)) [
        | inr other ↦ absurd (let bad = rw (other, checked_grant) at h in cc)
        | inl a ↦ elim (Bool-cases (check.controller == grant.user_did)) [
          | inr other ↦ absurd (let bad = rw (a, other, checked_grant) at h in cc)
          | inl u ↦
              elim (Bool-cases
                (is_satisfied (scope_satisfies deps.regex_test (codes scope) check.vc))) [
                  | inr uncovered ↦
                      absurd (let bad = rw (a, u, uncovered, checked_grant) at h in cc)
                  | inl covered ↦ (
                    (==_iff check.vc.subject_id grant.agent_did).0 a,
                    (==_iff check.controller grant.user_did).0 u,
                    covered,
                    some-injective (rw (a, u, covered, checked_grant) at h),
                  )
                ]
        ]
      ]

  -- The evidence that a check went by.
  after_evidence-some :
      (grant : Grant) (scope : String) (o : Option Evidence) (r : ResolvedGrant)
      → after_evidence deps grant scope o ≡ some r
      → (evidence : Evidence) × (check : Verified) × (o ≡ some evidence)
        × (deps.verify_delegation evidence ≡ some check)
        × (checked_grant deps grant scope check ≡ some r)
  after_evidence-some grant scope none r h = absurd (cc)
  after_evidence-some grant scope (some evidence) r h =
      elim (Option-cases (deps.verify_delegation evidence)) [
        | inl refused ↦ absurd (let bad = rw refused at h in cc)
        | inr (check, valid) ↦ (evidence, check, refl, valid, rw valid at h)
      ]

  authorize_grant-some :
      (now : ℕ) (grant : Grant) (scope : String) (r : ResolvedGrant)
      → authorize_grant deps now grant scope ≡ some r
      → (r.grant ≡ grant) × IsAuthorized now scope r
  unfolding authorize_grant
  authorize_grant-some now grant scope r h = elim (Bool-cases (is_marked_active grant.status)) [
    | inr off ↦ absurd (let bad = rw (off, authorize_grant) at h in cc)
    | inl on ↦ elim (Bool-cases (includes (codes scope) grant.scopes)) [
      | inr unnamed ↦ absurd (let bad = rw (on, unnamed, authorize_grant) at h in cc)
      | inl named ↦ elim (Bool-cases (is_past now grant.expires_at)) [
        | inl over ↦ absurd (let bad = rw (on, named, over, authorize_grant) at h in cc)
        | inr still ↦
            let (evidence, check, retained, verified, made) =
              after_evidence-some grant scope
                (evidence_of grant.credential_jwt grant.delegation_credential) r
                (rw (on, named, still, authorize_grant) at h) in
            let (agent, user, covered, is) = checked_grant-some grant scope check r made in
            let own : r.grant ≡ grant = ap (λ (x : ResolvedGrant). x.grant) (sym is) in
            (
              own,
              record {
                is_active = ap (λ (g : Grant). g.status) own ∙ marked-active grant.status on;
                named = ap (λ (g : Grant). includes (codes scope) g.scopes) own ∙ named;
                unexpired = ap (λ (g : Grant). is_past now g.expires_at) own ∙ still;
                evidence = evidence;
                check = check;
                retained =
                    ap (λ (g : Grant). evidence_of g.credential_jwt g.delegation_credential) own
                    ∙ retained;
                verified = verified;
                agent = agent ∙ ap (λ (g : Grant). g.agent_did) (sym own);
                user = user ∙ ap (λ (g : Grant). g.user_did) (sym own);
                covered = covered;
                scopes = ap (λ (x : ResolvedGrant). x.delegated_scopes) (sym is);
              },
            )
      ]
    ]
  ]

  pub first_authorized-some :
      (check_at : Grant → ℕ) (usable : Grant → Bool) (scope : String) (grants : List Grant)
      (r : ResolvedGrant)
      → first_authorized deps check_at usable scope grants ≡ some r
      → Any (λ g. g ≡ r.grant) grants
        × (usable r.grant ≡ true)
        × IsAuthorized (check_at r.grant) scope r
  unfolding first_authorized
  first_authorized-some check_at usable scope [] r h = absurd (cc)
  first_authorized-some check_at usable scope (grant ∷ grants) r h =
      elim (Bool-cases (usable grant)) [
        | inr other ↦
            let (found, u, a) =
              first_authorized-some check_at usable scope grants r
                (rw (other, first_authorized) at h) in
            (inr found, u, a)
        | inl fits ↦ elim (Option-cases (authorize_grant deps (check_at grant) grant scope)) [
          | inl refused ↦
              let (found, u, a) =
                first_authorized-some check_at usable scope grants r
                  (rw (fits, refused, first_authorized) at h) in
              (inr found, u, a)
          | inr (s, authorized) ↦
              let same : s ≡ r = some-injective (rw (fits, authorized, first_authorized) at h) in
              let (own, a) =
                authorize_grant-some (check_at grant) grant scope r (authorized ∙ ap some same) in
              (inl (sym own), rw own fits, rw (← own) at a)
        ]
      ]
