-- ===== src/Policy/Engine/Decisions.antt =====
-- What an `allow` of the default engine rests on.
use kya_os_mcp.Common.{
  ◌≤◌, ◌≡◌, ◌≢◌, sym, ap, ◌∙◌, refl, ◌⊎◌, inl, inr, Bool, true, false, List, [], ◌∷◌, String,
  string_eq, arith, ==_iff, Bool-cases, All, All-append, All-map, includes, add_item, length, leb,
  keep_if,
}
use kya_os_mcp.Policy.Approval.{is_allowed}
use kya_os_mcp.Policy.Approval.Soundness.{IsDistinct, add_last-IsDistinct}
use kya_os_mcp.Policy.Engine.{
  Reversibility, Severity, reversible, reversible_with_effort, irreversible, unknown_reversibility,
  no_severity, low, medium, high, catastrophic, unknown_severity, PolicyContext, allow,
  DefaultPolicyConfig, is_unclassified, is_dangerous, distinct, quorum_size, allow_list,
  approvers_of, evaluate,
}

-- Approvers named by the request, each once, and on the list of allowed ones where that is not empty.
abbrev pub IsApproved : DefaultPolicyConfig → List String → List String → Type 0
IsApproved cfg named dids =
    IsDistinct dids
    × All
        (λ d.
          ((allow_list cfg.step_up_approvers ≡ [])
            ⊎ (includes d (allow_list cfg.step_up_approvers) ≡ true))
          × (includes d named ≡ true))
        dids

is_allowed-listed :
    (allowed : List String) (did : String)
    → is_allowed allowed did ≡ true
    → (allowed ≡ []) ⊎ (includes did allowed ≡ true)
is_allowed-listed [] did h = inl refl
is_allowed-listed (a ∷ allowed) did h = inr h

-- The risk is known.
abbrev pub IsClassified : PolicyContext → Type 0
IsClassified context =
    (context.severity ≢ unknown_severity) × (context.reversibility ≢ unknown_reversibility)

-- The action can be undone, and its severity is below high.
abbrev pub IsSafe : PolicyContext → Type 0
IsSafe context =
    (context.reversibility ≢ irreversible)
    × (context.severity ≢ high)
    × (context.severity ≢ catastrophic)

severity_unknown : (r : Reversibility) → is_unclassified unknown_severity r ≡ true
unfolding is_unclassified
severity_unknown reversible = refl
severity_unknown reversible_with_effort = refl
severity_unknown irreversible = refl
severity_unknown unknown_reversibility = refl

reversibility_unknown : (s : Severity) → is_unclassified s unknown_reversibility ≡ true
unfolding is_unclassified
reversibility_unknown no_severity = refl
reversibility_unknown low = refl
reversibility_unknown medium = refl
reversibility_unknown high = refl
reversibility_unknown catastrophic = refl
reversibility_unknown unknown_severity = refl

irreversible_danger : (s : Severity) → is_dangerous s irreversible ≡ true
unfolding is_dangerous
irreversible_danger no_severity = refl
irreversible_danger low = refl
irreversible_danger medium = refl
irreversible_danger high = refl
irreversible_danger catastrophic = refl
irreversible_danger unknown_severity = refl

high_danger : (r : Reversibility) → is_dangerous high r ≡ true
unfolding is_dangerous
high_danger reversible = refl
high_danger reversible_with_effort = refl
high_danger irreversible = refl
high_danger unknown_reversibility = refl

catastrophic_danger : (r : Reversibility) → is_dangerous catastrophic r ≡ true
unfolding is_dangerous
catastrophic_danger reversible = refl
catastrophic_danger reversible_with_effort = refl
catastrophic_danger irreversible = refl
catastrophic_danger unknown_reversibility = refl

is_unclassified-IsClassified :
    (context : PolicyContext)
    → is_unclassified context.severity context.reversibility ≡ false
    → IsClassified context
is_unclassified-IsClassified context h = (
  (λ e.
      let q =
        sym h
        ∙ ap (λ s. is_unclassified s context.reversibility) e
        ∙ severity_unknown context.reversibility in
      cc),
  (λ e.
      let q =
        sym h ∙ ap (is_unclassified context.severity) e ∙ reversibility_unknown context.severity in
      cc),
)

is_dangerous-IsSafe :
    (context : PolicyContext)
    → is_dangerous context.severity context.reversibility ≡ false
    → IsSafe context
is_dangerous-IsSafe context h = (
  (λ e.
      let q = sym h ∙ ap (is_dangerous context.severity) e ∙ irreversible_danger context.severity in
      cc),
  (λ e.
      let q =
        sym h
        ∙ ap (λ s. is_dangerous s context.reversibility) e
        ∙ high_danger context.reversibility in
      cc),
  (λ e.
      let q =
        sym h
        ∙ ap (λ s. is_dangerous s context.reversibility) e
        ∙ catastrophic_danger context.reversibility in
      cc),
)

module _ (P : String → Type 0) where
  distinct-All : (seen ds : List String) → All P seen → All P ds → All P (distinct seen ds)
  unfolding distinct
  distinct-All seen [] h k = h
  distinct-All seen (d ∷ ds) h (p, k) = distinct-All (add_item d seen) ds added k
    where
      added : All P (add_item d seen)
      added = elim (Bool-cases (includes d seen)) [
        | inl there ↦ rw there h
        | inr new ↦ rw new (All-append P seen (d ∷ []) h (p, tt))
      ]

distinct-IsDistinct : (seen ds : List String) → IsDistinct seen → IsDistinct (distinct seen ds)
unfolding distinct
distinct-IsDistinct seen [] h = h
distinct-IsDistinct seen (d ∷ ds) h = distinct-IsDistinct (add_item d seen) ds added
  where
    added : IsDistinct (add_item d seen)
    added = elim (Bool-cases (includes d seen)) [
      | inl there ↦ rw there h
      | inr new ↦ rw new (add_last-IsDistinct d seen new h)
    ]

kept-IsApproved :
    (p : String → Bool) (named ds : List String)
    → ((d : String) → includes d ds ≡ true → includes d named ≡ true)
    → All (λ d. (p d ≡ true) × (includes d named ≡ true)) (keep_if p ds)
kept-IsApproved p named [] sub = tt
kept-IsApproved p named (d ∷ ds) sub =
    let rest = kept-IsApproved p named ds (λ x h. sub x (ground arith)) in
    elim (Bool-cases (p d)) [
      | inl passes ↦ rw passes ((passes, sub d (ground (arith, ==_iff d d))), rest)
      | inr fails ↦ rw fails rest
    ]

approvers_of-IsApproved :
    (cfg : DefaultPolicyConfig) (named : List String)
    → IsApproved cfg named (approvers_of cfg named)
unfolding approvers_of
approvers_of-IsApproved cfg named =
    let allowed = allow_list cfg.step_up_approvers in
    (
      distinct-IsDistinct [] (keep_if (is_allowed allowed) named) tt,
      distinct-All (λ d. ((allowed ≡ []) ⊎ (includes d allowed ≡ true)) × (includes d named ≡ true))
          [] (keep_if (is_allowed allowed) named) tt
          (All-map (keep_if (is_allowed allowed) named)
            (λ d (passes, there). (is_allowed-listed allowed d passes, there))
            (kept-IsApproved (is_allowed allowed) named named (λ d h. h))),
    )

-- The engine allows only an action whose scope matched and whose severity and reversibility are known;
-- and one that is irreversible, or of a high or catastrophic severity, only with as many distinct
-- approvers as configured, each named by the request and, where the configuration lists approvers,
-- on that list.
pub evaluate-allow :
    (cfg : DefaultPolicyConfig) (context : PolicyContext)
    → evaluate cfg context ≡ allow
    → (context.scope_matched ≡ true)
      × IsClassified context
      × (IsSafe context
          ⊎ ((dids : List String) × (IsApproved cfg context.human_approvals dids
                × (quorum_size cfg.step_up_quorum ≤ length dids))))
unfolding evaluate
evaluate-allow cfg context h = elim (Bool-cases context.scope_matched) [
  | inr unmatched ↦ absurd (let bad = rw (unmatched, evaluate) at h in cc)
  | inl matched ↦ elim (Bool-cases (is_unclassified context.severity context.reversibility)) [
    | inl unknown ↦ absurd (let bad = rw (matched, unknown, evaluate) at h in cc)
    | inr known ↦ elim (Bool-cases (is_dangerous context.severity context.reversibility)) [
      | inr safe ↦ (
        matched,
        is_unclassified-IsClassified context known,
        inl (is_dangerous-IsSafe context safe),
      )
      | inl dangerous ↦
          elim (Bool-cases (
            leb (quorum_size cfg.step_up_quorum)
              (length (approvers_of cfg context.human_approvals)))) [
                | inr short ↦
                    absurd (let bad = rw (matched, known, dangerous, short, evaluate) at h in cc)
                | inl enough ↦ (
                  matched,
                  is_unclassified-IsClassified context known,
                  inr (
                    approvers_of cfg context.human_approvals,
                    (approvers_of-IsApproved cfg context.human_approvals, ground arith),
                  ),
                )
              ]
    ]
  ]
]
