-- ===== src/Text.antt =====
-- JavaScript strings whose characters the program reads: the list of their UTF-16 code units, with
-- the string methods that src/delegation/scope-matcher.ts uses. A string that the program only
-- compares is a native `String`.
use Prim.Native.Char.{code}
use kya_os_mcp.Common.{
  ℕ, ◌≡◌, refl, Bool, true, false, ◌&&◌, ◌||◌, ltb, List, [], ◌∷◌, ◌++◌, arith, ◌==◌, nat_eq,
  if◌then◌else◌, String,
}

abbrev pub Text : Type 0
Text = List ℕ

-- The code units of a literal; one for each character of the basic plane.
abbrev pub codes : String → Text
codes String.[] = []
codes (String.◌∷◌ c s) = code c ∷ codes s

-- `value.startsWith(prefix)`
unfoldable pub starts_with : Text → Text → Bool
starts_with v [] = true
starts_with [] (c ∷ p) = false
starts_with (d ∷ v) (c ∷ p) = d == c && starts_with v p

-- `value.endsWith(c)` for one code unit
unfoldable pub ends_with : Text → ℕ → Bool
ends_with [] c = false
ends_with (d ∷ []) c = d == c
ends_with (d ∷ d' ∷ v) c = ends_with (d' ∷ v) c

-- `value.slice(0, -1)`
unfoldable pub drop_last : Text → Text
drop_last [] = []
drop_last (d ∷ []) = []
drop_last (d ∷ d' ∷ v) = d ∷ drop_last (d' ∷ v)

unfoldable pub push_head : ℕ → List Text → List Text
push_head c [] = (c ∷ []) ∷ []
push_head c (seg ∷ segs) = (c ∷ seg) ∷ segs

-- `value.split(separator)` for a separator of one code unit
unfoldable pub split_at : (ℕ → Bool) → Text → List Text
unfolding push_head
split_at sep [] = [] ∷ []
split_at sep (c ∷ v) = let segs = split_at sep v in if sep c then [] ∷ segs else push_head c segs

-- `<` on strings, by code units.
unfoldable pub is_before : Text → Text → Bool
is_before [] [] = false
is_before [] (c ∷ b) = true
is_before (c ∷ a) [] = false
is_before (c ∷ a) (d ∷ b) = ltb c d || (c == d && is_before a b)

unfoldable pub insert_text : Text → List Text → List Text
unfolding is_before
insert_text v [] = v ∷ []
insert_text v (w ∷ ws) =
    let later = insert_text v ws in if is_before v w then v ∷ w ∷ ws else w ∷ later

-- `sort()`
unfoldable pub sort_texts : List Text → List Text
unfolding insert_text
sort_texts [] = []
sort_texts (v ∷ vs) = insert_text v (sort_texts vs)

-- `join(separator)` for a separator of one code unit
unfoldable pub join_texts : ℕ → List Text → Text
join_texts sep [] = []
join_texts sep (v ∷ []) = v
join_texts sep (v ∷ w ∷ ws) = v ++ sep ∷ join_texts sep (w ∷ ws)

pub starts_with_refl : (v : Text) → starts_with v v ≡ true
unfolding starts_with
starts_with_refl [] = refl
starts_with_refl (c ∷ v) = ground (arith, starts_with_refl v)

pub starts_with_trans :
    (v p q : Text) → starts_with v p ≡ true → starts_with p q ≡ true → starts_with v q ≡ true
unfolding starts_with
starts_with_trans v p [] h k = refl
starts_with_trans v [] (c ∷ q) h k = ground arith
starts_with_trans [] (d ∷ p) (c ∷ q) h k = ground arith
starts_with_trans (b ∷ v) (d ∷ p) (c ∷ q) h k = ground (arith, starts_with_trans v p q)

pub starts_with-append : (p s : Text) → starts_with (p ++ s) p ≡ true
unfolding starts_with
starts_with-append [] s = refl
starts_with-append (c ∷ p) s = ground (arith, starts_with-append p s)

pub starts_with-append_both : (p s t : Text) → starts_with (p ++ s) (p ++ t) ≡ starts_with s t
unfolding starts_with
starts_with-append_both [] s t = refl
starts_with-append_both (c ∷ p) s t = ground (arith, starts_with-append_both p s t)
