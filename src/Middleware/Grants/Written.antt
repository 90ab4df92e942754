-- ===== src/Middleware/Grants/Written.antt =====
-- What the map of grants and the list of scopes of src/middleware/with-kya-os.grants.ts hold after a
-- write.
use kya_os_mcp.Common.{
  ◌≡◌, refl, ◌∙◌, ◌⊎◌, inl, inr, Bool, true, false, List, [], ◌∷◌, ◌++◌, String, ◌==◌, string_eq,
  option_eq, list_eq, nat_eq, Bool-cases, Any, keep_if, includes, includes-append, if◌then◌else◌,
  add_item,
}
use kya_os_mcp.Common.Map.{values, set}
use kya_os_mcp.Text.{Text}
use kya_os_mcp.Delegation.Authority.{add_all}
use kya_os_mcp.Stores.GrantStore.{Grant, Grants}

pub Any-keep_if_own :
    {A : Type 0} (a : A) (p : A → Bool) (xs : List A)
    → p a ≡ true
    → Any (λ x. x ≡ a) xs
    → Any (λ x. x ≡ a) (keep_if p xs)
Any-keep_if_own a p [] h k = elim k [ ]
Any-keep_if_own a p (x ∷ xs) h (inl same) = rw (same, h) (inl refl)
Any-keep_if_own a p (x ∷ xs) h (inr there) = elim (Bool-cases (p x)) [
  | inl kept ↦ rw kept (inr (Any-keep_if_own a p xs h there))
  | inr gone ↦ rw gone (Any-keep_if_own a p xs h there)
]

pub values-set : (id : String) (g : Grant) (m : Grants) → Any (λ x. x ≡ g) (values (set id g m))
unfolding set
values-set id g [] = inl refl
values-set id g ((j, w) ∷ m) = elim (Bool-cases (j == id)) [
  | inl same ↦ rw (same, set) (inl refl)
  | inr other ↦ rw (other, set) (inr (values-set id g m))
]

-- What a written map holds is what was written or what it held.
pub set-values :
    (id : String) (g h : Grant) (m : Grants)
    → Any (λ x. x ≡ h) (values (set id g m))
    → (g ≡ h) ⊎ Any (λ x. x ≡ h) (values m)
unfolding set
set-values id g h [] (inl same) = inl same
set-values id g h [] (inr nothing) = elim nothing [ ]
set-values id g h ((j, w) ∷ m) there = elim (Bool-cases (j == id)) [
  | inl same ↦ written (rw (same, set) at there)
  | inr other ↦ kept (set-values id g h m) (rw (other, set) at there)
]
  where
    written :
        (g ≡ h) ⊎ Any (λ x. x ≡ h) (values m) → (g ≡ h) ⊎ ((w ≡ h) ⊎ Any (λ x. x ≡ h) (values m))
    written (inl now) = inl now
    written (inr later) = inr (inr later)

    kept :
        (Any (λ x. x ≡ h) (values (set id g m)) → (g ≡ h) ⊎ Any (λ x. x ≡ h) (values m))
        → (w ≡ h) ⊎ Any (λ x. x ≡ h) (values (set id g m))
        → (g ≡ h) ⊎ ((w ≡ h) ⊎ Any (λ x. x ≡ h) (values m))
    kept again (inl here) = inr (inl here)
    kept again (inr later) = written (again later)

pub includes-add_all :
    (t : Text) (acc items : List Text)
    → includes t acc ≡ true
    → includes t (add_all acc items) ≡ true
unfolding add_all
includes-add_all t acc [] h = h
includes-add_all t acc (s ∷ items) h =
    includes-add_all t (add_item s acc) items (kept (includes s acc))
  where
    kept : (b : Bool) → includes t (if b then acc else acc ++ s ∷ []) ≡ true
    kept true = h
    kept false = includes-append t acc (s ∷ []) ∙ rw h refl
