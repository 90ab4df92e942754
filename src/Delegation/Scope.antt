-- ===== src/Delegation/Scope.antt =====
-- src/delegation/scope-matcher.ts: the scope matchers, when one pattern contains another, and when
-- a credential satisfies a required scope.
pub mod Containment
pub mod DotSegments
use kya_os_mcp.Common.{
  ℕ, zero, suc, ◌≡◌, Bool, true, false, ◌&&◌, ◌||◌, not, List, [], ◌∷◌, ◌++◌, map, Option, none,
  some, ltb, leb, ◌==◌, if◌then◌else◌, any, keep_if, includes, length, Eq, arith, ◌↔◌, nat_eq,
  list_eq, ==_iff,
}
use kya_os_mcp.Text.{Text, codes, starts_with, ends_with, drop_last, split_at}

abbrev pub max_regex_len : ℕ
max_regex_len = 256

abbrev pub max_value_len : ℕ
max_value_len = 256

-- The matcher kinds. Credentials are untrusted input: any other string may stand there.
pub data Matcher : Type 0 where
  exact prefix path_prefix regex : Matcher
  other : Text → Matcher

unfoldable pub matcher_beq : Matcher → Matcher → Bool
matcher_beq exact exact = true
matcher_beq prefix prefix = true
matcher_beq path_prefix path_prefix = true
matcher_beq regex regex = true
matcher_beq (other a) (other b) = a == b
matcher_beq _ _ = false

pub matcher_beq_iff : (a b : Matcher) → (matcher_beq a b ≡ true) ↔ (a ≡ b)
unfolding matcher_beq
matcher_beq_iff (other a) (other b) = ground (arith, ==_iff a b)
matcher_beq_iff exact exact = ground arith
matcher_beq_iff prefix prefix = ground arith
matcher_beq_iff path_prefix path_prefix = ground arith
matcher_beq_iff regex regex = ground arith
matcher_beq_iff _ _ = ground arith

instance abbrev pub matcher_eq : Eq Matcher
matcher_eq = record { same = matcher_beq; same_iff = matcher_beq_iff }

-- The string that names a matcher.
unfoldable pub matcher_name : Matcher → Text
matcher_name exact = codes "exact"
matcher_name prefix = codes "prefix"
matcher_name path_prefix = codes "path-prefix"
matcher_name regex = codes "regex"
matcher_name (other name) = name

pub record CrispScope : Type 0 where
  pub resource : Text
  pub matcher : Matcher

-- An entry of an untrusted list: `none` has no string resource or no string matcher.
abbrev pub ScopeEntry : Type 0
ScopeEntry = Option CrispScope

abbrev pub star : ℕ
star = b'*'

abbrev pub slash : ℕ
slash = b'/'

unfoldable pub prefix_base : Text → Text
prefix_base pattern = if ends_with pattern star then drop_last pattern else pattern

-- `while (base.endsWith('/')) base = base.slice(0, -1)`, one round for each unit of fuel
unfoldable pub strip_slashes : ℕ → Text → Text
strip_slashes zero base = base
strip_slashes (suc fuel) base =
    let rest = strip_slashes fuel (drop_last base) in if ends_with base slash then rest else base

unfoldable pub path_base : Text → Text
path_base pattern = let base = prefix_base pattern in strip_slashes (length base) base

-- `/` or `\`
abbrev pub is_separator : ℕ → Bool
is_separator c = c == slash || c == 92

abbrev pub is_dot_segment : Text → Bool
is_dot_segment segment = segment == codes "." || segment == codes ".."

unfoldable pub has_dot_segment : Text → Bool
has_dot_segment path = any is_dot_segment (split_at is_separator path)

-- `[^()]*` from a `(`, up to its end; then `)`, spaces and a quantifier.
abbrev pub is_quantifier : ℕ → Bool
is_quantifier c = c == b'+' || c == star || c == b'{'

abbrev pub is_inner_quantifier : ℕ → Bool
is_inner_quantifier c = is_quantifier c || c == b'?'

-- `\s`
abbrev pub is_space : ℕ → Bool
is_space c =
    (leb 9 c && leb c 13)
    || includes c (32 ∷ 160 ∷ 5760 ∷ 8232 ∷ 8233 ∷ 8239 ∷ 8287 ∷ 12288 ∷ 65279 ∷ [])
    || (leb 8192 c && leb c 8202)

-- `\s*[+*{]` at the head
unfoldable pub quantified_after : Text → Bool
quantified_after [] = false
quantified_after (c ∷ s) = is_quantifier c || (is_space c && quantified_after s)

-- `[^()]*[+*?{][^()]*\)\s*[+*{]` at the head, where `seen` tells of a quantifier passed
unfoldable pub group_body : Bool → Text → Bool
group_body seen [] = false
group_body seen (c ∷ s) =
    let rest = group_body (seen || is_inner_quantifier c) s in
    if c == b')' then seen && quantified_after s else if c == b'(' then false else rest

-- `NESTED_QUANTIFIER.test(pattern)`
unfoldable pub nested_quantifier : Text → Bool
nested_quantifier [] = false
nested_quantifier (c ∷ s) = (c == b'(' && group_body false s) || nested_quantifier s

-- `regex_test pattern value` is ``new RegExp(`^(?:${pattern})$`).test(value)``, false where the
-- pattern does not compile.
module _ (regex_test : Text → Text → Bool) where
  unfoldable pub match_scope : Text → Matcher → Text → Bool
  match_scope pattern exact value = pattern == value
  match_scope pattern prefix value =
      let base = prefix_base pattern in if base == [] then false else starts_with value base
  match_scope pattern path_prefix value =
      let base = path_base pattern in
      if base == []
      then false
      else if has_dot_segment base || has_dot_segment value
      then false
      else value == base || starts_with value (base ++ slash ∷ [])
  match_scope pattern regex value =
      if ltb max_regex_len (length pattern) || ltb max_value_len (length value)
      then false
      else if nested_quantifier pattern
      then false
      else regex_test pattern value
  match_scope pattern (other name) value = false

abbrev pub is_exact : Matcher → Bool
is_exact exact = true
is_exact _ = false

abbrev pub is_path_prefix : Matcher → Bool
is_path_prefix path_prefix = true
is_path_prefix _ = false

-- The rule of `CONTAINMENT` for `<inner>:<outer>`, if there is one.
unfoldable pub containment : Matcher → Matcher → Option (Text → Text → Bool)
containment prefix prefix = some (λ inner outer. starts_with inner outer)
containment path_prefix path_prefix =
    some (λ inner outer. inner == outer || starts_with inner (outer ++ slash ∷ []))
containment path_prefix prefix = some (λ inner outer. starts_with inner outer)
containment prefix path_prefix = some (λ inner outer. starts_with inner (outer ++ slash ∷ []))
containment _ _ = none

unfoldable pub base_of : CrispScope → Text
base_of scope =
    if is_path_prefix scope.matcher then path_base scope.resource else prefix_base scope.resource

abbrev pub scope_key : CrispScope → Text
scope_key scope = matcher_name scope.matcher ++ 0 ∷ scope.resource

unfoldable pub holds_for : Option (Text → Text → Bool) → Text → Text → Bool
holds_for none inner outer = false
holds_for (some rule) inner outer = not (inner == []) && (not (outer == []) && rule inner outer)

-- A path-prefix with a dot segment, which matches nothing.
unfoldable pub is_dotted_path : CrispScope → Bool
is_dotted_path scope = is_path_prefix scope.matcher && has_dot_segment (base_of scope)

-- `authority.filter(isCrispScope)`
unfoldable pub granted : List ScopeEntry → List CrispScope
granted [] = []
granted (none ∷ authority) = granted authority
granted (some scope ∷ authority) = scope ∷ granted authority

module _ (regex_test : Text → Text → Bool) where
  -- `matcherContains` on two entries that are scopes
  unfoldable pub scope_contains : CrispScope → CrispScope → Bool
  scope_contains outer inner =
      if outer.matcher == inner.matcher && outer.resource == inner.resource
      then true
      else if is_exact inner.matcher
      then match_scope regex_test outer.resource outer.matcher inner.resource
      else if is_dotted_path inner || is_dotted_path outer
      then false
      else holds_for (containment inner.matcher outer.matcher) (base_of inner) (base_of outer)

  unfoldable pub matcher_contains : ScopeEntry → ScopeEntry → Bool
  matcher_contains (some outer) (some inner) = scope_contains outer inner
  matcher_contains _ _ = false

  unfoldable pub authority_contains : List ScopeEntry → ScopeEntry → Bool
  authority_contains authority none = false
  authority_contains authority (some scope) =
      includes (scope_key scope) (map scope_key (granted authority))
      || any (λ entry. scope_contains entry scope)
          (keep_if (λ entry. not (is_exact entry.matcher)) (granted authority))
