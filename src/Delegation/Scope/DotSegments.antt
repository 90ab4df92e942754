-- ===== src/Delegation/Scope/DotSegments.antt =====
-- Dot segments of a longer path, and the values that a `prefix` inside a `path-prefix` still
-- matches.
use kya_os_mcp.Common.{
  ℕ, ◌≡◌, refl, ◌≢◌, inl, inr, Bool, true, false, ◌||◌, List, [], ◌∷◌, ◌++◌, arith, ◌==◌, nat_eq,
  list_eq, list_beq, ==_iff, Bool-cases, any,
}
use kya_os_mcp.Text.{
  Text, codes, starts_with, ends_with, push_head, split_at, starts_with_refl,
  starts_with-append_both,
}
use kya_os_mcp.Delegation.Scope.{
  prefix, path_prefix, star, slash, is_separator, is_dot_segment, prefix_base, path_base,
  has_dot_segment, match_scope, containment, base_of, holds_for, is_dotted_path, scope_contains,
  matcher_beq,
}

any-append {ℓ} :
    {A : Type ℓ} (p : A → Bool) (xs ys : List A) → any p (xs ++ ys) ≡ (any p xs || any p ys)
any-append p [] ys = refl
any-append p (x ∷ xs) ys = ground (arith, any-append p xs ys)

push_head-append :
    (c : ℕ) (xs ys : List Text) → xs ≢ [] → push_head c (xs ++ ys) ≡ push_head c xs ++ ys
unfolding push_head
push_head-append c [] ys h = absurd (h refl)
push_head-append c (x ∷ xs) ys h = refl

split_at-ne-nil : (sep : ℕ → Bool) (v : Text) → split_at sep v ≢ []
unfolding split_at push_head
split_at-ne-nil sep [] = cc
split_at-ne-nil sep (c ∷ v) = ground arith

-- A separator splits a text in two.
pub split_at-append :
    (sep : ℕ → Bool) (v w : Text) (c : ℕ)
    → sep c ≡ true
    → split_at sep (v ++ c ∷ w) ≡ split_at sep v ++ split_at sep w
unfolding split_at
split_at-append sep [] w c h = rw h
split_at-append sep (d ∷ v) w c h = rw (split_at-append sep v w c h) (elim (Bool-cases (sep d)) [
  | inl s ↦ rw s
  | inr n ↦ rw n (push_head-append d (split_at sep v) (split_at sep w) (split_at-ne-nil sep v))
])

-- A path is dotted where the part before or after a slash is.
pub has_dot_segment-append :
    (v w : Text) → has_dot_segment (v ++ slash ∷ w) ≡ (has_dot_segment v || has_dot_segment w)
unfolding has_dot_segment
has_dot_segment-append v w =
    rw (split_at-append is_separator v w slash refl)
      (any-append is_dot_segment (split_at is_separator v) (split_at is_separator w))

has_dot_segment-up : (w : Text) → has_dot_segment (codes ".." ++ slash ∷ w) ≡ true
unfolding has_dot_segment split_at
has_dot_segment-up w = refl

ends_with-append : (v : Text) (c d : ℕ) → ends_with (v ++ c ∷ []) d ≡ (c == d)
unfolding ends_with
ends_with-append [] c d = refl
ends_with-append (a ∷ []) c d = refl
ends_with-append (a ∷ b ∷ v) c d = ends_with-append (b ∷ v) c d

prefix_base-dir : (b : Text) → prefix_base (b ++ slash ∷ []) ≡ b ++ slash ∷ []
unfolding prefix_base
prefix_base-dir b = rw (ends_with-append b slash star)

append-ne-nil : (v : Text) (c : ℕ) (w : Text) → list_beq (v ++ c ∷ w) [] ≡ false
append-ne-nil [] c w = refl
append-ne-nil (a ∷ v) c w = refl

-- Every directory `b` that is not empty, has no dot segment and is its own base, granted as a
-- `path-prefix`, contains the `prefix` pattern `b/`, though that pattern matches the value
-- `b/../w`, which the `path-prefix` refuses.
pub contained-prefix_escapes :
    (regex_test : Text → Text → Bool) (b w : Text)
    → path_base b ≡ b
    → b ≢ []
    → has_dot_segment b ≡ false
    → (scope_contains regex_test
          (record { resource = b; matcher = path_prefix })
          (record { resource = b ++ slash ∷ []; matcher = prefix })
        ≡ true)
      × (match_scope regex_test (b ++ slash ∷ []) prefix (b ++ slash ∷ (codes ".." ++ slash ∷ w))
          ≡ true)
      × (match_scope regex_test b path_prefix (b ++ slash ∷ (codes ".." ++ slash ∷ w)) ≡ false)
unfolding scope_contains match_scope is_dotted_path holds_for containment base_of matcher_beq
    starts_with
contained-prefix_escapes rt b w h ne d =
    let filled : (b == []) ≡ false = ground (arith, ==_iff b []) in
    (
      rw (h, prefix_base-dir b, d, filled, append-ne-nil b slash [])
          (starts_with_refl (b ++ slash ∷ [])),
      rw (prefix_base-dir b, append-ne-nil b slash [])
          (starts_with-append_both b (slash ∷ (codes ".." ++ slash ∷ w)) (slash ∷ [])),
      rw (
        h,
        filled,
        d,
        has_dot_segment-append b (codes ".." ++ slash ∷ w),
        d,
        has_dot_segment-up w,
      ),
    )
