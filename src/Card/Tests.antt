-- ===== src/Card/Tests.antt =====
-- A delegation of two hops whose amount is narrowed from 10 to 2.50.
use kya_os_mcp.Common.{◌≡◌, refl, ◌↔◌, true, false, List, [], ◌∷◌, none, some, String, All}
use kya_os_mcp.Text.{Text, codes}
use kya_os_mcp.Card.Json.{Json, Fields, done, field}
use kya_os_mcp.Card.Decimal.{DecimalParts, decimal_parts, decimal_lte, big_int}
use kya_os_mcp.Card.Decimal.Order.{AtMost, decimal_lte_iff}
use kya_os_mcp.Card.Caveats.{Platform, Caveat}
use kya_os_mcp.Card.Revocation.{BitstringStatusListEntry, BitstringRevocationChecker}
use kya_os_mcp.Card.Revocation.Walk.{AllFresh}
use kya_os_mcp.Card.Delegation.{
  DelegationCredential, DelegationChainContext, did, whole, status_entries,
  validate_delegation_chain, evaluate_delegation_chain,
}
use kya_os_mcp.Card.Delegation.Attenuation.{IsNarrowed}
use kya_os_mcp.Card.Delegation.Accepted.{IsAccepted, card_chain-IsAccepted, card_chain_narrows}
use kya_os_mcp.Card.Delegation.Evaluation.{
  AllUnrevoked, evaluate_delegation_chain_iff, evaluate_delegation_chain_fresh,
}

-- Dates are numbers of milliseconds here, and only strings have a text.
abbrev text_only : Json → Text
text_only (Json.text t) = t
text_only _ = []

abbrev platform : Platform
unfolding big_int
platform = record { stringify = text_only; parse_date = λ t. some (big_int 0 t) }

abbrev amount : String → Caveat
amount limit =
    field (codes "type") (Json.text (codes "MaxAmount"))
      (field (codes "limit") (Json.text (codes limit)) done)

abbrev entry : BitstringStatusListEntry
entry = record { status_list_credential = "https://l"; status_list_index = "3" }

abbrev root : DelegationCredential
root = record {
  issuer = did "did:owner";
  valid_from = none;
  valid_until = some (codes "900");
  credential_subject = record {
    id = "urn:1";
    controller = none;
    invoker = some "did:a";
    parent_capability = "urn:shop";
    invocation_target = "urn:shop";
    allowed_action = "read" ∷ "buy" ∷ [];
    caveats = amount "10" ∷ [];
  };
  credential_status = some entry;
}

abbrev leaf : DelegationCredential
leaf = record {
  issuer = did "did:a";
  valid_from = some (codes "50");
  valid_until = some (codes "800");
  credential_subject = record {
    id = "urn:2";
    controller = some "did:b";
    invoker = none;
    parent_capability = "urn:1";
    invocation_target = "urn:shop";
    allowed_action = "buy" ∷ [];
    caveats = amount "2.50" ∷ [];
  };
  credential_status = none;
}

abbrev ctx : DelegationChainContext
ctx = record {
  resource_owner = some "did:owner";
  resource = none;
  max_chain_length = some (whole 2);
  max_depth = none;
  now = 100;
}

abbrev all_clear : BitstringRevocationChecker
all_clear hop e = record { revoked = false; fresh = true }

chain_ok : (validate_delegation_chain platform (root ∷ leaf ∷ []) ctx).ok ≡ true
unfolding validate_delegation_chain kya_os_mcp.Card.Json.member kya_os_mcp.Card.Decimal.trim_start
    big_int
chain_ok = refl

-- The amount of the child is above the parent's by a digit far behind the point.
excess_refused : decimal_lte (codes "100.0000009") (codes "100") ≡ false
unfolding decimal_lte
excess_refused = refl

decimal_lte_iff_example : (decimal_lte (codes "2.50") (codes "10") ≡ true) ↔ (
    (c : DecimalParts) × (p : DecimalParts) × (decimal_parts (codes "2.50") ≡ some c)
    × (decimal_parts (codes "10") ≡ some p)
    × AtMost c p)
decimal_lte_iff_example = decimal_lte_iff (codes "2.50") (codes "10")

card_chain-IsAccepted_example : IsAccepted platform ctx root (leaf ∷ [])
card_chain-IsAccepted_example = card_chain-IsAccepted platform root (leaf ∷ []) ctx chain_ok

card_chain_narrows_example :
    All (λ vc. IsNarrowed platform vc leaf) (root ∷ [])
    × ((validate_delegation_chain platform (root ∷ leaf ∷ []) ctx).allowed_action ≡ "buy" ∷ [])
    × ((validate_delegation_chain platform (root ∷ leaf ∷ []) ctx).leaf_invoker ≡ some "did:b")
    × ((validate_delegation_chain platform (root ∷ leaf ∷ []) ctx).responsible_party
        ≡ some "did:owner")
card_chain_narrows_example = card_chain_narrows platform root [] leaf ctx chain_ok

evaluate_delegation_chain_iff_example :
    ((evaluate_delegation_chain platform (root ∷ leaf ∷ []) all_clear ctx).0.ok ≡ true) ↔ (
      ((validate_delegation_chain platform (root ∷ leaf ∷ []) ctx).ok ≡ true)
      × AllUnrevoked all_clear 0 (root ∷ leaf ∷ []))
evaluate_delegation_chain_iff_example =
    evaluate_delegation_chain_iff platform (root ∷ leaf ∷ []) all_clear ctx

chain_fresh : (evaluate_delegation_chain platform (root ∷ leaf ∷ []) all_clear ctx).1 ≡ true
unfolding evaluate_delegation_chain kya_os_mcp.Card.Json.member big_int
chain_fresh = refl

evaluate_delegation_chain_fresh_example :
    ((validate_delegation_chain platform (root ∷ leaf ∷ []) ctx).ok ≡ true)
    × ((first : BitstringStatusListEntry) × (rest : List BitstringStatusListEntry) × (status_entries
            (root ∷ leaf ∷ [])
          ≡ first ∷ rest)
        × AllFresh all_clear 0 (status_entries (root ∷ leaf ∷ [])))
evaluate_delegation_chain_fresh_example =
    evaluate_delegation_chain_fresh platform (root ∷ leaf ∷ []) all_clear ctx chain_fresh
