-- ===== src/Middleware/Grants/Retry.antt =====
-- The retry of a call after its delegation was bound, in src/middleware/with-kya-os.grants.ts.
use kya_os_mcp.Common.{
  ℕ, ◌≡◌, refl, ap, ◌∙◌, ◌⊎◌, inl, inr, Bool, true, false, ◌&&◌, List, [], ◌∷◌, Option, none, some,
  String, ◌==◌, string_eq, option_eq, list_eq, nat_eq, ==_refl, Bool-cases, Option-cases, Any,
  includes,
}
use kya_os_mcp.Common.Map.{values, set}
use kya_os_mcp.Text.{codes}
use kya_os_mcp.Delegation.Authority.{scope_satisfies, get_delegation_scopes}
use kya_os_mcp.Stores.GrantStore.{
  Grant, Grants, active, is_past, is_marked_active, is_active, active_grants, covers_scopes,
  get_by_session,
}
use kya_os_mcp.Middleware.HolderBinding.{is_holder_binding_applicable}
use kya_os_mcp.Middleware.Grants.{
  GrantDeps, ResolvedGrant, Verified, Evidence, jwt, object, ProofArg, HolderBindingMode, off, warn,
  enforce, evidence_of, is_satisfied, checked_grant, authorize_grant, first_authorized,
  resolve_agent_grant, is_enforced, is_sessions, resolve_session_grant, resolve_existing_grant,
  is_unresolvable, new_grant, bind_grant_on_success,
}
use kya_os_mcp.Middleware.Grants.Written.{Any-keep_if_own, values-set, set-values, includes-add_all}
use kya_os_mcp.Middleware.Grants.Authorized.{IsAuthorized}
use kya_os_mcp.Middleware.Grants.Sound.{IsHolders, resolve_existing_grant_sound}

module _ (deps : GrantDeps) where
  first_authorized-total :
      (check_at : Grant → ℕ) (usable : Grant → Bool) (scope : String) (grants : List Grant)
      (g : Grant) (s : ResolvedGrant)
      → usable g ≡ true
      → authorize_grant deps (check_at g) g scope ≡ some s
      → Any (λ x. x ≡ g) grants
      → (r : ResolvedGrant) × (first_authorized deps check_at usable scope grants ≡ some r)
  unfolding first_authorized
  first_authorized-total check_at usable scope [] g s u a h = elim h [ ]
  first_authorized-total check_at usable scope (x ∷ xs) g s u a (inl same) =
      rw same (s, rw (u, a, first_authorized) refl)
  first_authorized-total check_at usable scope (x ∷ xs) g s u a (inr there) =
      let (r, found) = first_authorized-total check_at usable scope xs g s u a there in
      elim (Bool-cases (usable x)) [
        | inr other ↦ (r, rw (other, first_authorized) found)
        | inl fits ↦ elim (Option-cases (authorize_grant deps (check_at x) x scope)) [
          | inl refused ↦ (r, rw (fits, refused, first_authorized) found)
          | inr (q, authorized) ↦ (q, rw (fits, authorized, first_authorized) refl)
        ]
      ]

  checked_grant-total :
      (g : Grant) (scope : String) (check : Verified)
      → (check.vc.subject_id == g.agent_did) ≡ true
      → (check.controller == g.user_did) ≡ true
      → is_satisfied (scope_satisfies deps.regex_test (codes scope) check.vc) ≡ true
      → checked_grant deps g scope check
        ≡ some (record { grant = g; delegated_scopes = get_delegation_scopes check.vc })
  unfolding checked_grant
  checked_grant-total g scope check a u covered = rw (a, u, covered, checked_grant) refl

  authorize_grant-total :
      (now : ℕ) (g : Grant) (scope : String) (evidence : Evidence) (check : Verified)
      (s : ResolvedGrant)
      → g.status ≡ active
      → includes (codes scope) g.scopes ≡ true
      → is_past now g.expires_at ≡ false
      → evidence_of g.credential_jwt g.delegation_credential ≡ some evidence
      → deps.verify_delegation evidence ≡ some check
      → checked_grant deps g scope check ≡ some s
      → authorize_grant deps now g scope ≡ some s
  unfolding authorize_grant
  authorize_grant-total now g scope evidence check s on named still retained valid made =
      let on' : is_marked_active g.status ≡ true = ap is_marked_active on in
      rw (on', named, still, retained, valid, authorize_grant) made

  -- What the grant retains: the JWT where the delegation came as one.
  abbrev pub retained : Verified → Option String → Evidence
  retained check none = object check.vc
  retained check (some token) = jwt token

  module _ (check : Verified) (token : Option String) (session scope : String)
      (expires_at : Option ℕ) (issued_at : ℕ) where
    abbrev grant : Grant
    unfolding new_grant
    grant = new_grant deps check token (some session) scope expires_at issued_at

    grant_evidence :
        evidence_of grant.credential_jwt grant.delegation_credential ≡ some (retained check token)
    unfolding new_grant evidence_of
    grant_evidence = by_token token
      where
        by_token :
            (o : Option String)
            → evidence_of o (elim o [ none ↦ some check.vc | some t ↦ none ])
              ≡ some (retained check o)
        by_token none = refl
        by_token (some t) = refl

    grant_named : includes (codes scope) grant.scopes ≡ true
    unfolding new_grant
    grant_named =
        includes-add_all (codes scope) (codes scope ∷ []) (get_delegation_scopes check.vc)
          (rw (==_refl (codes scope)) refl)

    module _ (valid : deps.verify_delegation (retained check token) ≡ some check)
        (covered : is_satisfied (scope_satisfies deps.regex_test (codes scope) check.vc)
          ≡ true) where
      grant_authorized :
          (now : ℕ)
          → is_past now expires_at ≡ false
          → authorize_grant deps now grant scope
            ≡ some (record { grant = grant; delegated_scopes = get_delegation_scopes check.vc })
      unfolding new_grant
      grant_authorized now still =
          authorize_grant-total now grant scope (retained check token) check _ refl grant_named
            still grant_evidence valid
            (checked_grant-total grant scope check (==_refl check.vc.subject_id)
              (==_refl check.controller) covered)

      grant_read :
          (now : ℕ) (grants : Grants)
          → is_past now expires_at ≡ false
          → Any
              (λ g. g ≡ grant)
              (get_by_session now session (codes scope ∷ []) (set grant.id grant grants))
      unfolding get_by_session active_grants is_active covers_scopes new_grant
      grant_read now grants still =
          Any-keep_if_own grant
            (λ g. g.session_id == some session && covers_scopes (codes scope ∷ []) g)
            (active_grants now (set grant.id grant grants)) (rw (==_refl session, grant_named) refl)
            (Any-keep_if_own grant (is_active now) (values (set grant.id grant grants))
              (rw still refl) (values-set grant.id grant grants))

      session_resolves :
          (now : ℕ) (check_at : Grant → ℕ) (grants : Grants)
          → (session == "") ≡ false
          → (is_enforced deps.holder_binding_mode
              && is_holder_binding_applicable deps.public_key_of check.vc.subject_id)
            ≡ false
          → is_past now expires_at ≡ false
          → is_past (check_at grant) expires_at ≡ false
          → (r : ResolvedGrant) × (resolve_session_grant deps now check_at
                (some session)
                scope
                (set grant.id grant grants)
              ≡ some r)
      unfolding resolve_session_grant is_sessions new_grant
      session_resolves now check_at grants there free still lasting =
          let (r, found) =
            first_authorized-total check_at (is_sessions deps session) scope
              (get_by_session now session (codes scope ∷ []) (set grant.id grant grants)) grant
              (record { grant = grant; delegated_scopes = get_delegation_scopes check.vc })
              (rw (==_refl session, free) refl) (grant_authorized (check_at grant) lasting)
              (grant_read now grants still) in
          (r, rw (there, resolve_session_grant) found)

    bound :
        (grants : Grants)
        → (check.vc.subject_id == "") ≡ false
        → bind_grant_on_success deps check token (some session) scope expires_at issued_at grants
          ≡ set grant.id grant grants
    unfolding bind_grant_on_success new_grant
    bound grants named = rw (named, resolvable deps.holder_binding_mode, bind_grant_on_success) refl
      where
        resolvable : (mode : HolderBindingMode) → is_unresolvable mode (some session) ≡ false
        resolvable off = refl
        resolvable warn = refl
        resolvable enforce = refl

  bound_grant-found :
      (check : Verified) (token : Option String) (session scope : String) (expires_at : Option ℕ)
      (issued_at agent_now session_now : ℕ) (check_at : Grant → ℕ) (proof : ProofArg)
      (grants : Grants)
      → (check.vc.subject_id == "") ≡ false
      → (session == "") ≡ false
      → (is_enforced deps.holder_binding_mode
          && is_holder_binding_applicable deps.public_key_of check.vc.subject_id)
        ≡ false
      → deps.verify_delegation (retained check token) ≡ some check
      → is_satisfied (scope_satisfies deps.regex_test (codes scope) check.vc) ≡ true
      → is_past session_now expires_at ≡ false
      → ((g : Grant) → is_past (check_at g) expires_at ≡ false)
      → (r : ResolvedGrant) × (resolve_existing_grant deps agent_now session_now check_at proof
            (some session)
            scope
            (bind_grant_on_success deps check token
              (some session)
              scope
              expires_at
              issued_at
              grants)
          ≡ some r)
  unfolding resolve_existing_grant
  bound_grant-found check token session scope expires_at issued_at agent_now session_now check_at
        proof grants named there free valid covered still lasting =
      let after =
        bind_grant_on_success deps check token (some session) scope expires_at issued_at grants in
      elim (Option-cases
        (resolve_agent_grant deps agent_now check_at proof (some session) scope after)) [
          | inr (r, by_agent) ↦ (r, rw (by_agent, resolve_existing_grant) refl)
          | inl missing ↦
              let (r, found) =
                session_resolves check token session scope expires_at issued_at valid covered
                  session_now check_at grants there free still (lasting _) in
              (
                r,
                rw (missing, resolve_existing_grant)
                    (ap (resolve_session_grant deps session_now check_at (some session) scope)
                        (bound check token session scope expires_at issued_at grants named)
                      ∙ found),
              )
        ]

  -- After a delegation that names its agent was bound to a session that is no empty text: where the
  -- deployment does not enforce holder binding or the agent's DID has no key to bind, the delegation
  -- check still accepts the evidence that was bound, the delegation covers the scope, and the bound
  -- lifetime has not ended when the session's grants are read or when any grant is checked, a call of
  -- that session without the delegation, with any proof or none, resolves a grant. That grant is the
  -- bound one or one that was stored before, authorizes the scope when it is checked, and is the
  -- caller's: by a proof of its agent's key on this call, or by the session that it was bound to.
  pub bound_grant_resolves :
      (check : Verified) (token : Option String) (session scope : String) (expires_at : Option ℕ)
      (issued_at agent_now session_now : ℕ) (check_at : Grant → ℕ) (proof : ProofArg)
      (grants : Grants)
      → (check.vc.subject_id == "") ≡ false
      → (session == "") ≡ false
      → (is_enforced deps.holder_binding_mode
          && is_holder_binding_applicable deps.public_key_of check.vc.subject_id)
        ≡ false
      → deps.verify_delegation (retained check token) ≡ some check
      → is_satisfied (scope_satisfies deps.regex_test (codes scope) check.vc) ≡ true
      → is_past session_now expires_at ≡ false
      → ((g : Grant) → is_past (check_at g) expires_at ≡ false)
      → (r : ResolvedGrant) × (resolve_existing_grant deps agent_now session_now check_at proof
            (some session)
            scope
            (bind_grant_on_success deps check token
              (some session)
              scope
              expires_at
              issued_at
              grants)
          ≡ some r)
        × ((new_grant deps check token (some session) scope expires_at issued_at ≡ r.grant)
            ⊎ Any (λ g. g ≡ r.grant) (values grants))
        × IsAuthorized deps (check_at r.grant) scope r
        × IsHolders deps proof (some session) r.grant
  unfolding new_grant grant
  bound_grant_resolves check token session scope expires_at issued_at agent_now session_now check_at
        proof grants named there free valid covered still lasting =
      let (r, found) =
        bound_grant-found check token session scope expires_at issued_at agent_now session_now
          check_at proof grants named there free valid covered still lasting in
      let (stored, authorized, held) =
        resolve_existing_grant_sound deps agent_now session_now check_at proof (some session) scope
          (bind_grant_on_success deps check token (some session) scope expires_at issued_at grants)
          r found in
      (
        r,
        found,
        set-values _ _ r.grant grants
            (rw (bound check token session scope expires_at issued_at grants named) at stored),
        authorized,
        held,
      )
