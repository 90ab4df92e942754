-- ===== src/Card/Delegation.antt =====
-- The chain validation of src/card/delegation.ts. A reason is a value in place of its text; the clock
-- is an argument, and `JSON.stringify` and `Date.parse` are parameters. Absent caveats are an empty
-- list, as the code reads them.
pub mod Attenuation
pub mod Accepted
pub mod Evaluation
use kya_os_mcp.Common.{
  ℕ, zero, suc, ◌+◌, Bool, true, false, ◌&&◌, ◌||◌, not, List, [], ◌∷◌, ◌++◌, Option, none, some,
  String, ltb, leb, ◌==◌, string_eq, option_eq, list_eq, nat_eq, if◌then◌else◌, includes, any,
  keep_if, map, length,
}
use kya_os_mcp.Text.{Text}
use kya_os_mcp.Card.Caveats.{
  Platform, Caveat, caveat_type, date, valid_until_type, date_lte, caveat_narrows,
}
use kya_os_mcp.Card.Revocation.{
  BitstringStatusListEntry, BitstringRevocationChecker, evaluate_revocation_chain,
}

pub data CardIssuer : Type 0 where
  did : String → CardIssuer
  with_id : String → CardIssuer

pub record ZcapCapability : Type 0 where
  pub id : String
  pub controller : Option String
  pub invoker : Option String
  pub parent_capability : String
  pub invocation_target : String
  pub allowed_action : List String
  pub caveats : List Caveat

-- The members that the validation reads.
pub record DelegationCredential : Type 0 where
  pub issuer : CardIssuer
  pub valid_from : Option Text
  pub valid_until : Option Text
  pub credential_subject : ZcapCapability
  pub credential_status : Option BitstringStatusListEntry

abbrev pub issuer_did : DelegationCredential → String
issuer_did vc = elim vc.issuer [ did d ↦ d | with_id d ↦ d ]

abbrev pub or_else : Option String → Option String → Option String
or_else none b = b
or_else (some a) b = some a

abbrev pub invoker_did : DelegationCredential → Option String
invoker_did vc = or_else vc.credential_subject.invoker vc.credential_subject.controller

-- Why a chain is refused.
pub data Reason : Type 0 where
  action_escalation : List String → Reason
  caveat_broadened : Option Text → Reason
  valid_until_broadened broken_issuer broken_parent target_drift : Reason
  root_parent root_target root_issuer : Reason
  empty_chain bad_limit : Reason
  too_long : ℕ → ℕ → Reason
  unparseable expired not_yet_valid expired_caveat : ℕ → Reason
  revoked : ℕ → Reason

unfoldable pub action_reasons : List String → List String → List Reason
action_reasons parent child = elim (keep_if (λ a. not (includes a parent)) child) [
  | [] ↦ []
  | ◌∷◌ a escalated ↦ action_escalation (a ∷ escalated) ∷ []
]

-- `[reason]` where the test fails.
abbrev pub unless : Bool → Reason → List Reason
unless b r = if b then [] else r ∷ []

abbrev pub is_delegate : Option String → String → Bool
is_delegate none issuer = false
is_delegate (some delegate) issuer = delegate == issuer

-- A time that is present must be readable and pass.
abbrev pub time_reasons : ℕ → (ℕ → Bool) → Reason → Option ℕ → List Reason
time_reasons hop bad reason none = unparseable hop ∷ []
time_reasons hop bad reason (some t) = if bad t then reason ∷ [] else []

module _ (platform : Platform) where
  unfoldable pub caveat_reasons : List Caveat → List Caveat → List Reason
  unfolding caveat_narrows
  caveat_reasons parent child =
      map (λ pc. caveat_broadened (caveat_type pc))
        (keep_if (λ pc. not (any (caveat_narrows platform pc) child)) parent)

  unfoldable pub expires_in_time : Option Text → Option Text → Bool
  unfolding date_lte
  expires_in_time none child = true
  expires_in_time (some parent) none = false
  expires_in_time (some parent) (some child) = date_lte platform child parent

  unfoldable pub attenuates : DelegationCredential → DelegationCredential → List Reason
  unfolding action_reasons caveat_reasons expires_in_time
  attenuates parent child =
      let p = parent.credential_subject in
      let c = child.credential_subject in
      action_reasons p.allowed_action c.allowed_action
      ++ (caveat_reasons p.caveats c.caveats
          ++ (unless (expires_in_time parent.valid_until child.valid_until) valid_until_broadened
              ++ (unless (is_delegate (invoker_did parent) (issuer_did child)) broken_issuer
                  ++ (unless (c.parent_capability == p.id) broken_parent
                      ++ unless (c.invocation_target == p.invocation_target) target_drift))))

  -- The loop over neighbours.
  unfoldable pub attenuate_all : List DelegationCredential → List Reason
  unfolding attenuates
  attenuate_all [] = []
  attenuate_all (vc ∷ []) = []
  attenuate_all (parent ∷ child ∷ rest) = attenuates parent child ++ attenuate_all (child ∷ rest)

  abbrev pub present_reasons : ℕ → (ℕ → Bool) → Reason → Option Text → List Reason
  present_reasons hop bad reason none = []
  present_reasons hop bad reason (some text) =
      time_reasons hop bad reason (platform.parse_date text)

  unfoldable pub caveat_expiry : ℕ → ℕ → List Caveat → List Reason
  caveat_expiry now hop [] = []
  caveat_expiry now hop (caveat ∷ caveats) =
      (if caveat_type caveat == valid_until_type
        then present_reasons hop (λ t. ltb t now) (expired_caveat hop) (date caveat)
        else [])
      ++ caveat_expiry now hop caveats

  unfoldable pub hop_expiry : ℕ → ℕ → DelegationCredential → List Reason
  unfolding caveat_expiry
  hop_expiry now hop vc =
      present_reasons hop (λ t. ltb t now) (expired hop) vc.valid_until
      ++ (present_reasons hop (λ t. ltb now t) (not_yet_valid hop) vc.valid_from
          ++ caveat_expiry now hop vc.credential_subject.caveats)

  unfoldable pub expiry_reasons : ℕ → ℕ → List DelegationCredential → List Reason
  unfolding hop_expiry
  expiry_reasons now hop [] = []
  expiry_reasons now hop (vc ∷ chain) = hop_expiry now hop vc ++ expiry_reasons now (suc hop) chain

-- A limit as a JavaScript number: a whole one, or any other.
pub data Limit : Type 0 where
  whole : ℕ → Limit
  not_a_whole : Limit

pub record DelegationChainContext : Type 0 where
  pub resource_owner : Option String
  pub resource : Option String
  pub max_chain_length : Option Limit
  pub max_depth : Option Limit
  pub now : ℕ

abbrev pub chain_limit : DelegationChainContext → Option Limit
chain_limit ctx = elim ctx.max_chain_length [ none ↦ ctx.max_depth | some l ↦ some l ]

abbrev pub limit_reasons : ℕ → Option Limit → List Reason
limit_reasons depth none = []
limit_reasons depth (some not_a_whole) = bad_limit ∷ []
limit_reasons depth (some (whole n)) =
    if leb n 0 then bad_limit ∷ [] else (if ltb n depth then too_long depth n ∷ [] else [])

-- An expectation that is unset is met.
abbrev pub as_expected : Option String → String → Bool
as_expected none actual = true
as_expected (some expected) actual = actual == expected

unfoldable pub root_reasons : DelegationCredential → DelegationChainContext → List Reason
root_reasons root ctx =
    let subject = root.credential_subject in
    unless (subject.parent_capability == subject.invocation_target) root_parent
    ++ (unless (as_expected ctx.resource subject.invocation_target) root_target
        ++ unless (as_expected ctx.resource_owner (issuer_did root)) root_issuer)

-- The last credential of a chain that starts with a given one.
unfoldable pub last_of : DelegationCredential → List DelegationCredential → DelegationCredential
last_of vc [] = vc
last_of vc (next ∷ rest) = last_of next rest

pub record DelegationChainResult : Type 0 where
  pub ok : Bool
  pub reasons : List Reason
  pub responsible_party : Option String
  pub leaf_invoker : Option String
  pub invocation_target : Option String
  pub allowed_action : List String
  pub depth : ℕ

abbrev pub is_none : List Reason → Bool
is_none [] = true
is_none (r ∷ rs) = false

-- The status entries of a chain, in its order.
unfoldable pub status_entries : List DelegationCredential → List BitstringStatusListEntry
status_entries [] = []
status_entries (vc ∷ chain) =
    let rest = status_entries chain in elim vc.credential_status [ none ↦ rest | some e ↦ e ∷ rest ]

module _ (platform : Platform) where
  unfoldable pub validate_delegation_chain :
      List DelegationCredential → DelegationChainContext → DelegationChainResult
  unfolding last_of root_reasons attenuate_all expiry_reasons
  validate_delegation_chain [] ctx = record {
    ok = false;
    reasons = empty_chain ∷ [];
    responsible_party = none;
    leaf_invoker = none;
    invocation_target = none;
    allowed_action = [];
    depth = 0;
  }
  validate_delegation_chain (root ∷ rest) ctx =
      let leaf = last_of root rest in
      let depth = length (root ∷ rest) in
      let reasons =
        limit_reasons depth (chain_limit ctx)
        ++ (root_reasons root ctx
            ++ (attenuate_all platform (root ∷ rest)
                ++ expiry_reasons platform ctx.now 0 (root ∷ rest))) in
      record {
        ok = is_none reasons;
        reasons = reasons;
        responsible_party = some (issuer_did root);
        leaf_invoker = invoker_did leaf;
        invocation_target = some leaf.credential_subject.invocation_target;
        allowed_action = leaf.credential_subject.allowed_action;
        depth = depth;
      }

  unfoldable pub evaluate_delegation_chain :
      List DelegationCredential
      → BitstringRevocationChecker
      → DelegationChainContext
      → DelegationChainResult × Bool
  unfolding validate_delegation_chain status_entries evaluate_revocation_chain
  evaluate_delegation_chain chain check ctx =
      let structural = validate_delegation_chain chain ctx in
      let revocation = evaluate_revocation_chain (status_entries chain) check in
      if structural.ok
      then (
        record structural {
          ok = structural.ok && revocation.ok;
          reasons = structural.reasons ++ map revoked revocation.reasons;
        },
        revocation.fresh,
      )
      else (structural, false)
