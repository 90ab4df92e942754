-- ===== src/Middleware/Grants/Sound.antt =====
-- Whose grants a retried call resolves, in src/middleware/with-kya-os.grants.ts.
use kya_os_mcp.Common.{
  ℕ, ◌≡◌, refl, ap, ◌∙◌, ◌⊎◌, inl, inr, Bool, true, false, ◌&&◌, ◌||◌, not, List, [], ◌∷◌, Option,
  none, some, some-injective, String, arith, ◌==◌, string_eq, option_eq, list_eq, nat_eq, ==_iff,
  Bool-cases, Option-cases, Any, includes, and_left, and_right,
}
use kya_os_mcp.Common.Map.{values}
use kya_os_mcp.Text.{Text, codes}
use kya_os_mcp.Stores.GrantStore.{
  Grant, Grants, is_active, active_grants, covers_scopes, get_by_agent, get_by_session,
}
use kya_os_mcp.Middleware.HolderBinding.{
  Meta, DetachedProof, ProofVerifier, is_holder_binding_applicable, assert_holder_binding, bound_by,
  is_bound,
}
use kya_os_mcp.Middleware.Grants.{
  GrantDeps, ResolvedGrant, ProofArg, is_portable, parsed_proof, claimed_did, with_proof, for_agent,
  resolve_agent_grant, is_enforced, is_sessions, resolve_session_grant, resolve_existing_grant,
}
use kya_os_mcp.Middleware.Grants.Authorized.{Any-keep_if, IsAuthorized, first_authorized-some}

module _ (deps : GrantDeps) where
  -- The call's proof was verified: under the key of the grant's agent, for this server.
  pub record IsProven (proof : ProofArg) (agent : String) : Type 0 where
    pub verify_proof : ProofVerifier
    pub presented : DetachedProof
    pub meta : Meta
    pub key : String
    pub on : deps.holder_binding_verifier ≡ some verify_proof
    pub parsed : parsed_proof deps proof ≡ some presented
    pub has_meta : presented.meta ≡ some meta
    pub claimed : meta.did ≡ some agent
    pub addressed : includes meta.audience (deps.identity_did ∷ []) ≡ true
    pub key_is : deps.public_key_of agent ≡ some key
    pub verified : verify_proof presented key ≡ true

  bound_by-bound :
      (v : ProofVerifier) (p : DetachedProof) (agent : String) (audiences : List String)
      (key : String) (o : Option Meta)
      → is_bound (bound_by v p agent audiences key o) ≡ true
      → (m : Meta) × (o ≡ some m)
        × (m.did ≡ some agent)
        × (includes m.audience audiences ≡ true)
        × (v p key ≡ true)
  bound_by-bound v p agent audiences key none h = absurd (cc)
  bound_by-bound v p agent audiences key (some m) h = elim (Bool-cases (m.did == some agent)) [
    | inr other ↦ absurd (let bad = rw other at h in cc)
    | inl same ↦ elim (Bool-cases (includes m.audience audiences)) [
      | inr elsewhere ↦ absurd (let bad = rw (same, elsewhere) at h in cc)
      | inl here ↦ elim (Bool-cases (v p key)) [
        | inr refused ↦ absurd (let bad = rw (same, here, refused) at h in cc)
        | inl valid ↦ (m, refl, (==_iff m.did (some agent)).0 same, here, valid)
      ]
    ]
  ]

  stored_by_agent :
      (now : ℕ) (agent : String) (required : List Text) (grants : Grants) (g : Grant)
      → Any (λ x. x ≡ g) (get_by_agent now agent required grants)
      → Any (λ x. x ≡ g) (values grants)
  unfolding get_by_agent active_grants
  stored_by_agent now agent required grants g h =
      Any-keep_if (λ x. x ≡ g) (is_active now) (values grants)
        (Any-keep_if (λ x. x ≡ g) (λ x. x.agent_did == agent && covers_scopes required x) _ h)

  stored_by_session :
      (now : ℕ) (session : String) (required : List Text) (grants : Grants) (g : Grant)
      → Any (λ x. x ≡ g) (get_by_session now session required grants)
      → Any (λ x. x ≡ g) (values grants)
  unfolding get_by_session active_grants
  stored_by_session now session required grants g h =
      Any-keep_if (λ x. x ≡ g) (is_active now) (values grants)
        (Any-keep_if (λ x. x ≡ g) (λ x. x.session_id == some session && covers_scopes required x) _
          h)

  -- Who a resolved grant is for: the agent that proved its key on this call, with a grant of no other
  -- session; or the bearer of the grant's own session, where its agent need not prove a key.
  abbrev pub IsHolders : ProofArg → Option String → Grant → Type 0
  IsHolders proof session g =
      (IsProven proof g.agent_did × ((g.session_id ≡ none) ⊎ (g.session_id ≡ session)))
      ⊎ ((s : String) × (session ≡ some s)
          × (g.session_id ≡ some s)
          × ((is_enforced deps.holder_binding_mode
                && is_holder_binding_applicable deps.public_key_of g.agent_did)
              ≡ false))

  assert-bound :
      (v : ProofVerifier) (p : DetachedProof) (agent : String) (audiences : List String)
      → is_bound (assert_holder_binding deps.public_key_of v p agent audiences) ≡ true
      → (key : String) × (m : Meta) × (deps.public_key_of agent ≡ some key)
        × (p.meta ≡ some m)
        × (m.did ≡ some agent)
        × (includes m.audience audiences ≡ true)
        × (v p key ≡ true)
  unfolding assert_holder_binding
  assert-bound v p agent audiences h = elim (Option-cases (deps.public_key_of agent)) [
    | inl keyless ↦ absurd (let bad = rw (keyless, assert_holder_binding) at h in cc)
    | inr (key, at) ↦
        let (m, has, claimed, addressed, valid) =
          bound_by-bound v p agent audiences key p.meta (rw (at, assert_holder_binding) at h) in
        (key, m, at, has, claimed, addressed, valid)
  ]

  module _ (session : Option String) (scope : String) (grants : Grants) (now : ℕ)
      (check_at : Grant → ℕ) (r : ResolvedGrant) where
    for_agent-some :
        (v : ProofVerifier) (p : DetachedProof) (proof : ProofArg) (o : Option String)
        → deps.holder_binding_verifier ≡ some v
        → parsed_proof deps proof ≡ some p
        → for_agent deps v p o now check_at session scope grants ≡ some r
        → Any (λ g. g ≡ r.grant) (values grants)
          × IsAuthorized deps (check_at r.grant) scope r
          × IsHolders proof session r.grant
    for_agent-some v p proof none on parsed h = absurd (cc)
    for_agent-some v p proof (some agent) on parsed h =
        elim (Bool-cases (is_holder_binding_applicable deps.public_key_of agent)) [
          | inr inapplicable ↦ absurd (let bad = rw inapplicable at h in cc)
          | inl applies ↦
              elim (Bool-cases (
                is_bound
                  (assert_holder_binding deps.public_key_of v p agent (deps.identity_did ∷ [])))) [
                    | inr unproven ↦ absurd (let bad = rw (applies, unproven) at h in cc)
                    | inl proven ↦
                        let (found, usable, authorized) =
                          first_authorized-some deps check_at (is_portable agent session) scope
                            (get_by_agent now agent (codes scope ∷ []) grants) r
                            (rw (applies, proven) at h) in
                        let (key, m, at, has, claimed, addressed, valid) =
                          assert-bound v p agent (deps.identity_did ∷ []) proven in
                        let own : r.grant.agent_did ≡ agent =
                          (==_iff r.grant.agent_did agent).0 (and_left _ _ usable) in
                        (
                          stored_by_agent now agent (codes scope ∷ []) grants r.grant found,
                          authorized,
                          inl (
                            rw own (record {
                              verify_proof = v;
                              presented = p;
                              meta = m;
                              key = key;
                              on = on;
                              parsed = parsed;
                              has_meta = has;
                              claimed = claimed;
                              addressed = addressed;
                              key_is = at;
                              verified = valid;
                            }),
                            own_session (and_right _ _ usable),
                          ),
                        )
                  ]
        ]
      where
        own_session :
            (r.grant.session_id == none || r.grant.session_id == session) ≡ true
            → (r.grant.session_id ≡ none) ⊎ (r.grant.session_id ≡ session)
        own_session h = elim (Bool-cases (r.grant.session_id == none)) [
          | inl free ↦ inl ((==_iff r.grant.session_id none).0 free)
          | inr tied ↦ inr ((==_iff r.grant.session_id session).0 (rw tied at h))
        ]

    with_proof-some :
        (proof : ProofArg) (v : Option ProofVerifier) (p : Option DetachedProof)
        → deps.holder_binding_verifier ≡ v
        → parsed_proof deps proof ≡ p
        → with_proof deps v p now check_at session scope grants ≡ some r
        → Any (λ g. g ≡ r.grant) (values grants)
          × IsAuthorized deps (check_at r.grant) scope r
          × IsHolders proof session r.grant
    with_proof-some proof none p on parsed h = absurd (cc)
    with_proof-some proof (some v) none on parsed h = absurd (cc)
    with_proof-some proof (some v) (some p) on parsed h =
        for_agent-some v p proof (claimed_did p.meta) on parsed h

    session-some :
        (proof : ProofArg) (o : Option String)
        → session ≡ o
        → resolve_session_grant deps now check_at o scope grants ≡ some r
        → Any (λ g. g ≡ r.grant) (values grants)
          × IsAuthorized deps (check_at r.grant) scope r
          × IsHolders proof session r.grant
    unfolding resolve_session_grant is_sessions
    session-some proof none is h = absurd (cc)
    session-some proof (some s) is h = elim (Bool-cases (s == "")) [
      | inl empty ↦ absurd (let bad = rw (empty, resolve_session_grant) at h in cc)
      | inr there ↦
          let (found, usable, authorized) =
            first_authorized-some deps check_at (is_sessions deps s) scope
              (get_by_session now s (codes scope ∷ []) grants) r
              (rw (there, resolve_session_grant) at h) in
          (
            stored_by_session now s (codes scope ∷ []) grants r.grant found,
            authorized,
            inr (
              s,
              is,
              (==_iff r.grant.session_id (some s)).0 (and_left _ _ usable),
              not_true _ (and_right _ _ usable),
            ),
          )
    ]
      where
        not_true : (b : Bool) → not b ≡ true → b ≡ false
        not_true b h = ground arith

  -- A retried call without its delegation resolves only a grant of the store that authorizes the scope
  -- at that time, on evidence that was verified again; and only for the agent that proved its key on
  -- this call, or, where that is not enforced, for the bearer of the grant's own session.
  pub resolve_existing_grant_sound :
      (agent_now session_now : ℕ) (check_at : Grant → ℕ) (proof : ProofArg)
      (session : Option String) (scope : String) (grants : Grants) (r : ResolvedGrant)
      → resolve_existing_grant deps agent_now session_now check_at proof session scope grants
        ≡ some r
      → Any (λ g. g ≡ r.grant) (values grants)
        × IsAuthorized deps (check_at r.grant) scope r
        × IsHolders proof session r.grant
  unfolding resolve_existing_grant resolve_agent_grant
  resolve_existing_grant_sound agent_now session_now check_at proof session scope grants r h =
      elim (Option-cases (resolve_agent_grant deps agent_now check_at proof session scope grants)) [
        | inl missing ↦
            session-some session scope grants session_now check_at r proof session refl
              (rw (missing, resolve_existing_grant) at h)
        | inr (found, by_agent) ↦
            let same : found ≡ r = some-injective (rw (by_agent, resolve_existing_grant) at h) in
            with_proof-some session scope grants agent_now check_at r proof
              deps.holder_binding_verifier (parsed_proof deps proof) refl refl
              (by_agent ∙ ap some same)
      ]
