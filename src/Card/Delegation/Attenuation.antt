-- ===== src/Card/Delegation/Attenuation.antt =====
-- What a hop without a reason against it shows, and that it adds up along a chain.
use kya_os_mcp.Common.{
  ◌≡◌, refl, ap, ◌∙◌, Bool, true, false, not, List, [], ◌∷◌, ◌++◌, Option, none, some, String,
  arith, ==_iff, string_eq, includes, includes→Any, All, Any, All-map, Any-elim, Any-All, Any-map,
  any, any→Any, keep_if, keep_if-nil→All, map,
}
use kya_os_mcp.Text.{Text}
use kya_os_mcp.Card.Caveats.{Platform, Caveat, caveat_type, caveat_narrows}
use kya_os_mcp.Card.Caveats.Order.{date_lte_trans, caveat_narrows_trans}
use kya_os_mcp.Card.Delegation.{
  DelegationCredential, Reason, issuer_did, invoker_did, is_delegate, unless, action_reasons,
  caveat_reasons, expires_in_time, attenuates, caveat_broadened,
}

-- Two lists of reasons with nothing in them.
pub nil-append : (xs ys : List Reason) → xs ++ ys ≡ [] → (xs ≡ []) × (ys ≡ [])
nil-append [] ys h = (refl, h)
nil-append (x ∷ xs) ys h = absurd (cc)

pub unless-nil : (b : Bool) (r : Reason) → unless b r ≡ [] → b ≡ true
unless-nil true r h = refl
unless-nil false r h = absurd (cc)

action_reasons-nil :
    (parent child : List String)
    → action_reasons parent child ≡ []
    → keep_if (λ a. not (includes a parent)) child ≡ []
unfolding action_reasons
action_reasons-nil parent child h = elim_kept (keep_if (λ a. not (includes a parent)) child) h
  where
    elim_kept :
        (kept : List String)
        → (elim kept [ [] ↦ [] | ◌∷◌ a es ↦ Reason.action_escalation (a ∷ es) ∷ [] ]) ≡ []
        → kept ≡ []
    elim_kept [] k = refl
    elim_kept (a ∷ es) k = absurd (cc)

map-nil : {A B : Type 0} (f : A → B) (xs : List A) → map f xs ≡ [] → xs ≡ []
map-nil f [] h = refl
map-nil f (x ∷ xs) h = absurd (cc)

not-false : (b : Bool) → not b ≡ false → b ≡ true
not-false b h = ground arith

module _ (platform : Platform) where
  -- The child grants no more than the parent: its actions are among the parent's, each caveat of the
  -- parent is narrowed by one of the child's, it ends no later and is for the same resource.
  pub record IsNarrowed (parent child : DelegationCredential) : Type 0 where
    pub actions :
        All
          (λ a. includes a parent.credential_subject.allowed_action ≡ true)
          child.credential_subject.allowed_action
    pub caveats :
        All
          (λ pc. Any (λ cc. caveat_narrows platform pc cc ≡ true) child.credential_subject.caveats)
          parent.credential_subject.caveats
    pub expires : expires_in_time platform parent.valid_until child.valid_until ≡ true
    pub target :
        child.credential_subject.invocation_target ≡ parent.credential_subject.invocation_target

  -- The child was issued by the parent's delegate, for the parent's capability.
  pub record IsLinked (parent child : DelegationCredential) : Type 0 where
    pub delegate : invoker_did parent ≡ some (issuer_did child)
    pub parent_id : child.credential_subject.parent_capability ≡ parent.credential_subject.id

  is_delegate-some :
      (o : Option String) (issuer : String) → is_delegate o issuer ≡ true → o ≡ some issuer
  is_delegate-some none issuer h = absurd (cc)
  is_delegate-some (some d) issuer h = ap some ((==_iff d issuer).0 h)

  caveats-narrowed :
      (parent child : List Caveat)
      → caveat_reasons platform parent child ≡ []
      → All (λ pc. Any (λ cc. caveat_narrows platform pc cc ≡ true) child) parent
  unfolding caveat_reasons
  caveats-narrowed parent child h =
      All-map parent
        (λ pc e.
          any→Any (caveat_narrows platform pc) child
            (not-false (any (caveat_narrows platform pc) child) e))
        (keep_if-nil→All (λ pc. not (any (caveat_narrows platform pc) child)) parent
          (map-nil (λ pc. caveat_broadened (caveat_type pc)) _ h))

  pub attenuates-IsNarrowed :
      (parent child : DelegationCredential)
      → attenuates platform parent child ≡ []
      → IsNarrowed parent child × IsLinked parent child
  unfolding attenuates
  attenuates-IsNarrowed parent child h =
      let p = parent.credential_subject in
      let c = child.credential_subject in
      let (h1, t1) = nil-append _ _ h in
      let (h2, t2) = nil-append _ _ t1 in
      let (h3, t3) = nil-append _ _ t2 in
      let (h4, t4) = nil-append _ _ t3 in
      let (h5, h6) = nil-append _ _ t4 in
      (
        record {
          actions =
              All-map c.allowed_action (λ a e. not-false (includes a p.allowed_action) e)
                (keep_if-nil→All (λ a. not (includes a p.allowed_action)) c.allowed_action
                  (action_reasons-nil p.allowed_action c.allowed_action h1));
          caveats = caveats-narrowed p.caveats c.caveats h2;
          expires = unless-nil _ _ h3;
          target = (==_iff c.invocation_target p.invocation_target).0 (unless-nil _ _ h6);
        },
        record {
          delegate = is_delegate-some (invoker_did parent) (issuer_did child) (unless-nil _ _ h4);
          parent_id = (==_iff c.parent_capability p.id).0 (unless-nil _ _ h5);
        },
      )

  expires_in_time_trans :
      (a b c : Option Text)
      → expires_in_time platform a b ≡ true
      → expires_in_time platform b c ≡ true
      → expires_in_time platform a c ≡ true
  unfolding expires_in_time
  expires_in_time_trans none b c h k = refl
  expires_in_time_trans (some x) none c h k = absurd (cc)
  expires_in_time_trans (some x) (some y) none h k = absurd (cc)
  expires_in_time_trans (some x) (some y) (some z) h k = date_lte_trans platform z y x k h

  pub IsNarrowed-trans :
      (a b c : DelegationCredential) → IsNarrowed a b → IsNarrowed b c → IsNarrowed a c
  IsNarrowed-trans a b c h k = record {
    actions =
        All-map c.credential_subject.allowed_action
          (λ x inside.
            Any-elim {P = λ y. (y ≡ x) × (includes y a.credential_subject.allowed_action ≡ true)}
              b.credential_subject.allowed_action (λ y (same, there). rw same at there)
              (Any-All b.credential_subject.allowed_action (λ y same there. (same, there))
                (includes→Any x b.credential_subject.allowed_action inside) h.actions))
          k.actions;
    caveats =
        All-map a.credential_subject.caveats
          (λ pc narrowed.
            Any-elim b.credential_subject.caveats
              (λ mc (first, then_narrowed).
                Any-map c.credential_subject.caveats
                  (λ cc second. caveat_narrows_trans platform pc mc cc first second) then_narrowed)
              (Any-All
                {R = λ mc.
                  (caveat_narrows platform pc mc ≡ true)
                  × Any (λ cc. caveat_narrows platform mc cc ≡ true) c.credential_subject.caveats}
                b.credential_subject.caveats (λ mc first rest. (first, rest)) narrowed k.caveats))
          h.caveats;
    expires = expires_in_time_trans a.valid_until b.valid_until c.valid_until h.expires k.expires;
    target = k.target ∙ h.target;
  }
