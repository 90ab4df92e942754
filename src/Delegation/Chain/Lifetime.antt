-- ===== src/Delegation/Chain/Lifetime.antt =====
-- The expiry of an accepted chain keeps to every deadline of its credentials.
use kya_os_mcp.Common.{ℕ, ◌≤◌, ◌≡◌, sym, Bool, String, List, [], ◌∷◌, Option, none, some, arith}
use kya_os_mcp.Delegation.Credential.{Credential}
use kya_os_mcp.Delegation.Chain.{
  Presented, Deps, done, resolve_ancestors, validate_delegation_chain, earliest, tighten,
  expiry_deadline, seconds_deadline,
}
use kya_os_mcp.Delegation.Chain.Soundness.{chain_expiry}
use kya_os_mcp.Delegation.Chain.Guarantees.{validate_delegation_chain-IsAccepted, accepted-IsChain}
use mathlib.Core.Path.{subst}

-- `expires` is set and not after the deadline, where there is one.
abbrev pub IsBy : Option ℕ → Option ℕ → Type 0
IsBy expires none = Unit
IsBy none (some deadline) = ⊥
IsBy (some e) (some deadline) = e ≤ deadline

IsBy-refl : (a : Option ℕ) → IsBy a a
IsBy-refl none = tt
IsBy-refl (some e) = omega arith

IsBy-trans : (a b c : Option ℕ) → IsBy a b → IsBy b c → IsBy a c
IsBy-trans a b none h k = tt
IsBy-trans a none (some d) h k = absurd k
IsBy-trans none (some e) (some d) h k = absurd h
IsBy-trans (some b) (some e) (some d) h k = omega arith

earliest-IsBy_left : (a b : Option ℕ) → IsBy (earliest a b) a
unfolding earliest
earliest-IsBy_left a none = IsBy-refl a
earliest-IsBy_left none (some d) = tt
earliest-IsBy_left (some e) (some d) = omega arith

earliest-IsBy_right : (a b : Option ℕ) → IsBy (earliest a b) b
unfolding earliest
earliest-IsBy_right a none = tt
earliest-IsBy_right none (some d) = omega arith
earliest-IsBy_right (some e) (some d) = omega arith

module _ (deps : Deps) where
  -- Both deadlines of a credential are kept.
  abbrev pub Keeps : Option ℕ → Credential → Type 0
  Keeps expires c =
      IsBy expires (expiry_deadline deps c.expiration_date)
      × IsBy expires (seconds_deadline deps c.not_after)

  tighten-Keeps :
      (e : Option ℕ) (c : Credential) → IsBy (tighten deps e c) e × Keeps (tighten deps e c) c
  unfolding tighten
  tighten-Keeps e c =
      let x = expiry_deadline deps c.expiration_date in
      let y = seconds_deadline deps c.not_after in
      let first = earliest-IsBy_left (earliest e x) y in
      (
        IsBy-trans (earliest (earliest e x) y) (earliest e x) e first (earliest-IsBy_left e x),
        (
          IsBy-trans (earliest (earliest e x) y) (earliest e x) x first (earliest-IsBy_right e x),
          earliest-IsBy_right (earliest e x) y,
        ),
      )

  Keeps-trans : (a b : Option ℕ) (c : Credential) → IsBy a b → Keeps b c → Keeps a c
  Keeps-trans a b c h (x, y) = (IsBy-trans a b _ h x, IsBy-trans a b _ h y)

  -- Every credential of the chain has its deadlines kept.
  abbrev pub AllKept : Option ℕ → List Presented → Credential → Type 0
  AllKept expires [] leaf = Keeps expires leaf
  AllKept expires (none ∷ ancestors) leaf = AllKept expires ancestors leaf
  AllKept expires (some c ∷ ancestors) leaf = Keeps expires c × AllKept expires ancestors leaf

  chain_expiry-IsBy :
      (e : Option ℕ) (ancestors : List Presented) (leaf : Credential)
      → IsBy (chain_expiry deps e ancestors leaf) e
  chain_expiry-IsBy e [] leaf = (tighten-Keeps e leaf).0
  chain_expiry-IsBy e (none ∷ ancestors) leaf = chain_expiry-IsBy e ancestors leaf
  chain_expiry-IsBy e (some c ∷ ancestors) leaf =
      IsBy-trans (chain_expiry deps (tighten deps e c) ancestors leaf) (tighten deps e c) e
        (chain_expiry-IsBy (tighten deps e c) ancestors leaf) (tighten-Keeps e c).0

  -- The expiry computed along a chain is no later than any expiration date or `notAfter` of any
  -- credential in it, unreadable dates left out.
  pub chain_expiry-AllKept :
      (e : Option ℕ) (ancestors : List Presented) (leaf : Credential)
      → AllKept (chain_expiry deps e ancestors leaf) ancestors leaf
  chain_expiry-AllKept e [] leaf = (tighten-Keeps e leaf).1
  chain_expiry-AllKept e (none ∷ ancestors) leaf = chain_expiry-AllKept e ancestors leaf
  chain_expiry-AllKept e (some c ∷ ancestors) leaf = (
    Keeps-trans (chain_expiry deps (tighten deps e c) ancestors leaf) (tighten deps e c) c
        (chain_expiry-IsBy (tighten deps e c) ancestors leaf) (tighten-Keeps e c).1,
    chain_expiry-AllKept (tighten deps e c) ancestors leaf,
  )

  -- The expiry that an accepted chain is given is no later than any expiration date or `notAfter`
  -- of the leaf or of an ancestor that was resolved, unreadable dates left out.
  pub accepted-AllKept :
      (skip : Bool) (leaf : Credential) (expires : Option ℕ) (warnings : List String)
      (ancestors : List Presented)
      → validate_delegation_chain deps skip (some leaf) ≡ done (expires, warnings)
      → resolve_ancestors deps leaf ≡ done ancestors
      → AllKept expires ancestors leaf
  accepted-AllKept skip leaf expires warnings ancestors valid resolved =
      let a = validate_delegation_chain-IsAccepted deps skip leaf expires warnings valid in
      let (_, same) = accepted-IsChain deps skip leaf expires ancestors a resolved in
      subst (λ e. AllKept e ancestors leaf) (sym same) (chain_expiry-AllKept none ancestors leaf)
