-- ===== src/Delegation/Scope/Containment.antt =====
-- What `scope_contains` proves: the outer pattern matches what the inner one matches.
use kya_os_mcp.Common.{
  ℕ, zero, suc, ◌+◌, ◌≤◌, ◌≡◌, refl, ◌⊎◌, ◌≢◌, inl, inr, Bool, true, false, ◌&&◌, ◌||◌, [], ◌∷◌,
  ◌++◌, arith, ◌==◌, nat_eq, list_eq, ==_iff, Bool-cases, length,
}
use kya_os_mcp.Text.{
  Text, starts_with, ends_with, drop_last, starts_with_refl, starts_with_trans, starts_with-append,
}
use kya_os_mcp.Delegation.Scope.{
  Matcher, prefix, path_prefix, CrispScope, slash, prefix_base, strip_slashes, path_base,
  has_dot_segment, match_scope, containment, base_of, holds_for, is_dotted_path, scope_contains,
  matcher_eq, matcher_beq_iff, is_exact,
}

length-drop_last : (v : Text) → length v ≤ length (drop_last v) + 1
unfolding drop_last
length-drop_last [] = omega arith
length-drop_last (c ∷ []) = omega arith
length-drop_last (c ∷ d ∷ v) = omega (arith, length-drop_last (d ∷ v))

length-drop_last_lt : (v : Text) → ends_with v slash ≡ true → length (drop_last v) + 1 ≤ length v
unfolding drop_last ends_with
length-drop_last_lt [] h = cc
length-drop_last_lt (c ∷ []) h = omega arith
length-drop_last_lt (c ∷ d ∷ v) h = omega (arith, length-drop_last_lt (d ∷ v) h)

ends_with-strip_slashes :
    (fuel : ℕ) (b : Text) → length b ≤ fuel → ends_with (strip_slashes fuel b) slash ≡ false
unfolding strip_slashes
ends_with-strip_slashes zero [] h = unfold ends_with in refl
ends_with-strip_slashes zero (c ∷ b) h = absurd (omega arith)
ends_with-strip_slashes (suc fuel) b h = elim (Bool-cases (ends_with b slash)) [
  | inl more ↦
      rw more
        (ends_with-strip_slashes fuel (drop_last b) (omega (arith, length-drop_last_lt b more)))
  | inr done ↦ rw (done, strip_slashes) done
]

-- The fuel of `path_base` suffices: its result never ends with a slash.
pub ends_with-path_base : (p : Text) → ends_with (path_base p) slash ≡ false
unfolding path_base
ends_with-path_base p =
    ends_with-strip_slashes (length (prefix_base p)) (prefix_base p) (omega arith)

-- `v` is the path `b`, or lies under it.
abbrev pub is_under : Text → Text → Bool
is_under v b = v == b || starts_with v (b ++ slash ∷ [])

starts_with-dir : (v b : Text) → starts_with v (b ++ slash ∷ []) ≡ true → starts_with v b ≡ true
starts_with-dir v b h =
    starts_with_trans v (b ++ slash ∷ []) b h (starts_with-append b (slash ∷ []))

is_under_trans : (v i o : Text) → is_under v i ≡ true → is_under i o ≡ true → is_under v o ≡ true
is_under_trans v i o h k = ground (
  arith,
  ==_iff v i,
  ==_iff i o,
  ==_iff v o,
  starts_with-dir v i,
  starts_with_trans v i (o ++ slash ∷ []),
)

is_under-starts_with : (v b : Text) → is_under v b ≡ true → starts_with v b ≡ true
is_under-starts_with v b h = ground (arith, ==_iff v b, starts_with_refl b, starts_with-dir v b)

-- Where the value has a dot segment, a `prefix` under a `path-prefix` is not covered.
abbrev pub IsCovered : CrispScope → CrispScope → Text → Type 0
IsCovered outer inner v =
    (inner.matcher ≢ prefix) ⊎ ((outer.matcher ≢ path_prefix) ⊎ (has_dot_segment v ≡ false))

-- The pairs of different matchers that a rule relates, but for one.
module _ (regex_test : Text → Text → Bool) where
  prefix_in_prefix :
      (o i v : Text)
      → holds_for (containment prefix prefix) (prefix_base i) (prefix_base o) ≡ true
      → match_scope regex_test i prefix v ≡ true
      → match_scope regex_test o prefix v ≡ true
  unfolding holds_for containment match_scope
  prefix_in_prefix o i v h m = ground (arith, starts_with_trans v (prefix_base i) (prefix_base o))

  path_in_path :
      (o i v : Text)
      → holds_for (containment path_prefix path_prefix) (path_base i) (path_base o) ≡ true
      → has_dot_segment (path_base o) ≡ false
      → match_scope regex_test i path_prefix v ≡ true
      → match_scope regex_test o path_prefix v ≡ true
  unfolding holds_for containment match_scope
  path_in_path o i v h d m = ground (arith, is_under_trans v (path_base i) (path_base o))

  path_in_prefix :
      (o i v : Text)
      → holds_for (containment path_prefix prefix) (path_base i) (prefix_base o) ≡ true
      → match_scope regex_test i path_prefix v ≡ true
      → match_scope regex_test o prefix v ≡ true
  unfolding holds_for containment match_scope
  path_in_prefix o i v h m = ground (
    arith,
    is_under-starts_with v (path_base i),
    starts_with_trans v (path_base i) (prefix_base o),
  )

  prefix_in_path :
      (o i v : Text)
      → holds_for (containment prefix path_prefix) (prefix_base i) (path_base o) ≡ true
      → has_dot_segment (path_base o) ≡ false
      → has_dot_segment v ≡ false
      → match_scope regex_test i prefix v ≡ true
      → match_scope regex_test o path_prefix v ≡ true
  unfolding holds_for containment match_scope
  prefix_in_path o i v h d dv m =
      ground (arith, starts_with_trans v (prefix_base i) (path_base o ++ slash ∷ []))

  by_rule :
      (mo mi : Matcher) (o i v : Text)
      → IsCovered (record { resource = o; matcher = mo }) (record { resource = i; matcher = mi }) v
      → is_dotted_path (record { resource = o; matcher = mo }) ≡ false
      → holds_for
          (containment mi mo)
          (base_of (record { resource = i; matcher = mi }))
          (base_of (record { resource = o; matcher = mo }))
        ≡ true
      → match_scope regex_test i mi v ≡ true
      → match_scope regex_test o mo v ≡ true
  unfolding is_dotted_path base_of
  by_rule prefix prefix o i v c d h m = prefix_in_prefix o i v h m
  by_rule prefix path_prefix o i v c d h m = path_in_prefix o i v h m
  by_rule path_prefix path_prefix o i v c d h m = path_in_path o i v h d m
  by_rule path_prefix prefix o i v c d h m = prefix_in_path o i v h d (ground arith) m
  by_rule mo mi o i v c d h m = unfold containment holds_for in ground arith

  exact_inside :
      (outer inner : CrispScope) (v : Text)
      → is_exact inner.matcher ≡ true
      → match_scope regex_test outer.resource outer.matcher inner.resource ≡ true
      → match_scope regex_test inner.resource inner.matcher v ≡ true
      → match_scope regex_test outer.resource outer.matcher v ≡ true
  exact_inside outer inner v ex h m =
      let same : inner.resource ≡ v =
        unfold match_scope in ground (arith, ==_iff inner.resource v) in
      rw (← same) h

  -- Containment is sound: if `outer` contains `inner`, every value that `inner` matches `outer`
  -- matches too, unless `inner` is a `prefix`, `outer` a `path-prefix` and the value has a dot
  -- segment.
  pub scope_contains_sound :
      (outer inner : CrispScope) (v : Text)
      → IsCovered outer inner v
      → scope_contains regex_test outer inner ≡ true
      → match_scope regex_test inner.resource inner.matcher v ≡ true
      → match_scope regex_test outer.resource outer.matcher v ≡ true
  unfolding scope_contains
  scope_contains_sound outer inner v c h m =
      elim (Bool-cases (outer.matcher == inner.matcher && outer.resource == inner.resource)) [
        | inl same ↦ ground (
          arith,
          matcher_beq_iff outer.matcher inner.matcher,
          ==_iff outer.resource inner.resource,
        )
        | inr apart ↦ elim (Bool-cases (is_exact inner.matcher)) [
          | inl ex ↦ exact_inside outer inner v ex (rw (apart, ex) at h) m
          | inr pattern ↦ elim (Bool-cases (is_dotted_path inner || is_dotted_path outer)) [
            | inl dotted ↦ absurd (ground arith)
            | inr plain ↦
                by_rule outer.matcher inner.matcher outer.resource inner.resource v c (ground arith)
                  (rw (apart, pattern, plain) at h) m
          ]
        ]
      ]
