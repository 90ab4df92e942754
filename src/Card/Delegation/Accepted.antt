-- ===== src/Card/Delegation/Accepted.antt =====
-- What a chain that `validateDelegationChain` of src/card/delegation.ts accepts shows.
use kya_os_mcp.Common.{
  ℕ, suc, ◌≤◌, ◌≡◌, refl, ap, inl, inr, Bool, true, false, List, [], ◌∷◌, ◌++◌, Option, none, some,
  arith, Bool-cases, Option-cases, ◌==◌, ==_iff, string_eq, All, ltb, leb, length, if◌then◌else◌,
  le_of_ltb, nat_eq, list_eq, option_eq,
}
use kya_os_mcp.Text.{Text}
use kya_os_mcp.Card.Caveats.{Platform, Caveat, caveat_type, date, valid_until_type}
use kya_os_mcp.Card.Delegation.{
  DelegationCredential, DelegationChainContext, Reason, Limit, whole, not_a_whole, issuer_did,
  invoker_did, attenuate_all, attenuates, present_reasons, caveat_expiry, hop_expiry,
  expiry_reasons, expired, not_yet_valid, expired_caveat, limit_reasons, chain_limit, as_expected,
  root_reasons, last_of, is_none, validate_delegation_chain,
}
use kya_os_mcp.Card.Delegation.Attenuation.{
  IsNarrowed, IsLinked, IsNarrowed-trans, attenuates-IsNarrowed, nil-append, unless-nil,
}

is_none-nil : (rs : List Reason) → is_none rs ≡ true → rs ≡ []
is_none-nil [] h = refl
is_none-nil (r ∷ rs) h = absurd (cc)

module _ (platform : Platform) where
  -- A time that is present can be read and passes.
  abbrev pub IsTimely : (ℕ → Type 0) → Option Text → Type 0
  IsTimely P none = Unit
  IsTimely P (some t) = (ms : ℕ) × (platform.parse_date t ≡ some ms) × P ms

  -- A credential inside its times.
  pub record IsCurrent (now : ℕ) (vc : DelegationCredential) : Type 0 where
    pub until : IsTimely (λ t. now ≤ t) vc.valid_until
    pub since : IsTimely (λ t. t ≤ now) vc.valid_from
    pub caveats :
        All
          (λ c. caveat_type c ≡ valid_until_type → IsTimely (λ t. now ≤ t) (date c))
          vc.credential_subject.caveats

  -- Each hop is linked to the one before and narrows it.
  abbrev pub IsChained : List DelegationCredential → Type 0
  IsChained [] = Unit
  IsChained (vc ∷ []) = Unit
  IsChained (p ∷ c ∷ rest) = IsNarrowed platform p c × IsLinked platform p c × IsChained (c ∷ rest)

  present_reasons-nil :
      (hop : ℕ) (bad : ℕ → Bool) (P : ℕ → Type 0) (r : Reason) (o : Option Text)
      → ((t : ℕ) → bad t ≡ false → P t)
      → present_reasons platform hop bad r o ≡ []
      → IsTimely P o
  present_reasons-nil hop bad P r none f h = tt
  present_reasons-nil hop bad P r (some text) f h = elim (Option-cases (platform.parse_date text)) [
    | inl unread ↦ absurd (let bad_time = rw unread at h in cc)
    | inr (t, at) ↦ elim (Bool-cases (bad t)) [
      | inl late ↦ absurd (let bad_time = rw (at, late) at h in cc)
      | inr fine ↦ (t, at, f t fine)
    ]
  ]

  caveat_expiry-nil :
      (now hop : ℕ) (cs : List Caveat)
      → caveat_expiry platform now hop cs ≡ []
      → All (λ c. caveat_type c ≡ valid_until_type → IsTimely (λ t. now ≤ t) (date c)) cs
  unfolding caveat_expiry
  caveat_expiry-nil now hop [] h = tt
  caveat_expiry-nil now hop (c ∷ cs) h =
      let (here, there) =
        nil-append
          (if caveat_type c == valid_until_type
            then present_reasons platform hop (λ t. ltb t now) (expired_caveat hop) (date c)
            else [])
          _ h in
      (
        (λ is_until.
            present_reasons-nil hop (λ t. ltb t now) (λ t. now ≤ t) (expired_caveat hop) (date c)
              (λ t fine. le_of_ltb t now fine)
              (rw ((==_iff (caveat_type c) valid_until_type).1 is_until) at here)),
        caveat_expiry-nil now hop cs there,
      )

  expiry_reasons-nil :
      (now hop : ℕ) (chain : List DelegationCredential)
      → expiry_reasons platform now hop chain ≡ []
      → All (IsCurrent now) chain
  unfolding expiry_reasons hop_expiry
  expiry_reasons-nil now hop [] h = tt
  expiry_reasons-nil now hop (vc ∷ chain) h =
      let (here, there) = nil-append (hop_expiry platform now hop vc) _ h in
      let (first, others) = nil-append _ _ here in
      let (second, third) = nil-append _ _ others in
      (
        record {
          until =
              present_reasons-nil hop (λ t. ltb t now) (λ t. now ≤ t) (expired hop) vc.valid_until
                (λ t fine. le_of_ltb t now fine) first;
          since =
              present_reasons-nil hop (λ t. ltb now t) (λ t. t ≤ now) (not_yet_valid hop)
                vc.valid_from (λ t fine. le_of_ltb now t fine) second;
          caveats = caveat_expiry-nil now hop vc.credential_subject.caveats third;
        },
        expiry_reasons-nil now (suc hop) chain there,
      )

  attenuate_all-nil :
      (chain : List DelegationCredential) → attenuate_all platform chain ≡ [] → IsChained chain
  unfolding attenuate_all
  attenuate_all-nil [] h = tt
  attenuate_all-nil (vc ∷ []) h = tt
  attenuate_all-nil (p ∷ c ∷ rest) h =
      let (here, there) = nil-append (attenuates platform p c) _ h in
      let (narrowed, linked) = attenuates-IsNarrowed platform p c here in
      (narrowed, linked, attenuate_all-nil (c ∷ rest) there)

  -- The limit that is in force, where one is.
  abbrev pub IsWithin : ℕ → Option Limit → Type 0
  IsWithin depth none = Unit
  IsWithin depth (some not_a_whole) = ⊥
  IsWithin depth (some (whole n)) = (1 ≤ n) × (depth ≤ n)

  limit_reasons-nil : (depth : ℕ) (l : Option Limit) → limit_reasons depth l ≡ [] → IsWithin depth l
  limit_reasons-nil depth none h = tt
  limit_reasons-nil depth (some not_a_whole) h = absurd (cc)
  limit_reasons-nil depth (some (whole n)) h = elim (Bool-cases (leb n 0)) [
    | inl nought ↦ absurd (let bad = rw nought at h in cc)
    | inr pos ↦ elim (Bool-cases (ltb n depth)) [
      | inl long ↦ absurd (let bad = rw (pos, long) at h in cc)
      | inr fits ↦ (ground arith, le_of_ltb n depth fits)
    ]
  ]

  pub record IsAccepted (ctx : DelegationChainContext) (root : DelegationCredential)
      (rest : List DelegationCredential) : Type 0 where
    pub within : IsWithin (length (root ∷ rest)) (chain_limit ctx)
    pub rooted :
        root.credential_subject.parent_capability ≡ root.credential_subject.invocation_target
    pub resource : as_expected ctx.resource root.credential_subject.invocation_target ≡ true
    pub owner : as_expected ctx.resource_owner (issuer_did root) ≡ true
    pub chained : IsChained (root ∷ rest)
    pub current : All (IsCurrent ctx.now) (root ∷ rest)

  -- A chain that is accepted is within the limit, starts at its resource, for the resource and the
  -- owner expected, each hop is issued by the delegate of the one before for that one's capability and
  -- grants no more, and every credential is inside its times.
  pub card_chain-IsAccepted :
      (root : DelegationCredential) (rest : List DelegationCredential)
      (ctx : DelegationChainContext)
      → (validate_delegation_chain platform (root ∷ rest) ctx).ok ≡ true
      → IsAccepted ctx root rest
  unfolding validate_delegation_chain root_reasons
  card_chain-IsAccepted root rest ctx h =
      let (limits, h1) =
        nil-append (limit_reasons (length (root ∷ rest)) (chain_limit ctx)) _ (is_none-nil _ h) in
      let (roots, h2) = nil-append (root_reasons root ctx) _ h1 in
      let (hops, times) = nil-append (attenuate_all platform (root ∷ rest)) _ h2 in
      let (r1, r2) = nil-append _ _ roots in
      let (r3, r4) = nil-append _ _ r2 in
      record {
        within = limit_reasons-nil (length (root ∷ rest)) (chain_limit ctx) limits;
        rooted =
            (==_iff root.credential_subject.parent_capability
                root.credential_subject.invocation_target).0
              (unless-nil _ _ r1);
        resource = unless-nil _ _ r3;
        owner = unless-nil _ _ r4;
        chained = attenuate_all-nil (root ∷ rest) hops;
        current = expiry_reasons-nil ctx.now 0 (root ∷ rest) times;
      }

  -- Narrowing adds up to the last credential.
  chained-narrows :
      (vc : DelegationCredential) (rest : List DelegationCredential) (leaf : DelegationCredential)
      → IsChained (vc ∷ rest ++ leaf ∷ [])
      → All (λ v. IsNarrowed platform v leaf) (vc ∷ rest)
  chained-narrows vc [] leaf (n, _, _) = (n, tt)
  chained-narrows vc (c ∷ rest) leaf (n, _, more) =
      let all = chained-narrows c rest leaf more in
      (IsNarrowed-trans platform vc c leaf n all.0, all)

  last_of-append :
      (vc leaf : DelegationCredential) (rest : List DelegationCredential)
      → last_of vc (rest ++ leaf ∷ []) ≡ leaf
  unfolding last_of
  last_of-append vc leaf [] = refl
  last_of-append vc leaf (c ∷ rest) = last_of-append c leaf rest

  -- Where a chain of more than one credential is accepted, the last grants no more than any before
  -- it: its actions are among that one's, each of that one's caveats is narrowed by one of its own, it
  -- ends no later and is for the same resource. The actions and the delegate reported are the last
  -- credential's, and the party responsible is the first one's issuer.
  pub card_chain_narrows :
      (root : DelegationCredential) (rest : List DelegationCredential) (leaf : DelegationCredential)
      (ctx : DelegationChainContext)
      → (validate_delegation_chain platform (root ∷ rest ++ leaf ∷ []) ctx).ok ≡ true
      → All (λ vc. IsNarrowed platform vc leaf) (root ∷ rest)
        × ((validate_delegation_chain platform (root ∷ rest ++ leaf ∷ []) ctx).allowed_action
            ≡ leaf.credential_subject.allowed_action)
        × ((validate_delegation_chain platform (root ∷ rest ++ leaf ∷ []) ctx).leaf_invoker
            ≡ invoker_did leaf)
        × ((validate_delegation_chain platform (root ∷ rest ++ leaf ∷ []) ctx).responsible_party
            ≡ some (issuer_did root))
  unfolding validate_delegation_chain
  card_chain_narrows root rest leaf ctx h =
      let last = last_of-append root leaf rest in
      (
        chained-narrows root rest leaf
            (card_chain-IsAccepted root (rest ++ leaf ∷ []) ctx h).chained,
        ap (λ (v : DelegationCredential). v.credential_subject.allowed_action) last,
        ap (λ (v : DelegationCredential). invoker_did v) last,
        refl,
      )
