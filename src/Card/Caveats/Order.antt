-- ===== src/Card/Caveats/Order.antt =====
-- A caveat that narrows a narrower one narrows.
use kya_os_mcp.Common.{
  ℕ, ◌≡◌, refl, sym, ◌∙◌, inl, inr, Bool, true, false, Option, none, some, arith, Bool-cases, ◌==◌,
  ==_iff, list_eq, option_eq, nat_eq, and_left, and_right,
}
use kya_os_mcp.Text.{Text}
use kya_os_mcp.Card.Json.{Json, sort_keys, deep_equal}
use kya_os_mcp.Card.Decimal.{decimal_lte}
use kya_os_mcp.Card.Decimal.Order.{decimal_lte_trans}
use kya_os_mcp.Card.Caveats.{
  Platform, Caveat, caveat_type, date, limit, currency, valid_until_type, max_amount_type, both_are,
  both_dates, currency_narrows, date_lte, caveat_narrows,
}

both_are_trans :
    (r : Text → Text → Bool) (a b c : Option Text)
    → ((x y z : Text) → r x y ≡ true → r y z ≡ true → r x z ≡ true)
    → both_are r a b ≡ true
    → both_are r b c ≡ true
    → both_are r a c ≡ true
both_are_trans r none b c t h k = absurd (cc)
both_are_trans r (some x) none c t h k = absurd (cc)
both_are_trans r (some x) (some y) none t h k = absurd (cc)
both_are_trans r (some x) (some y) (some z) t h k = t x y z h k

both_dates_trans :
    (a b c : Option ℕ) → both_dates a b ≡ true → both_dates b c ≡ true → both_dates a c ≡ true
both_dates_trans none b c h k = absurd (cc)
both_dates_trans (some x) none c h k = absurd (cc)
both_dates_trans (some x) (some y) none h k = absurd (cc)
both_dates_trans (some x) (some y) (some z) h k = ground arith

currency_narrows_trans :
    (a b c : Option Text)
    → currency_narrows a b ≡ true
    → currency_narrows b c ≡ true
    → currency_narrows a c ≡ true
unfolding currency_narrows
currency_narrows_trans none b c h k = refl
currency_narrows_trans (some x) none c h k = absurd (cc)
currency_narrows_trans (some x) (some y) none h k = absurd (cc)
currency_narrows_trans (some x) (some y) (some z) h k =
    ground (arith, ==_iff x y, ==_iff y z, ==_iff x z)

module _ (platform : Platform) where
  pub date_lte_trans :
      (a b c : Text)
      → date_lte platform a b ≡ true
      → date_lte platform b c ≡ true
      → date_lte platform a c ≡ true
  unfolding date_lte
  date_lte_trans a b c h k =
      both_dates_trans (platform.parse_date a) (platform.parse_date b) (platform.parse_date c) h k

  -- What `caveatNarrows` tests, by the caveat's type.
  data Narrowing (parent child : Caveat) : Type 0 where
    by_date :
        caveat_type parent ≡ valid_until_type
        → caveat_type child ≡ valid_until_type
        → both_are (date_lte platform) (date child) (date parent) ≡ true
        → Narrowing parent child
    by_amount :
        caveat_type parent ≡ max_amount_type
        → caveat_type child ≡ max_amount_type
        → currency_narrows (currency parent) (currency child) ≡ true
        → both_are decimal_lte (limit child) (limit parent) ≡ true
        → Narrowing parent child
    verbatim :
        (caveat_type parent == valid_until_type) ≡ false
        → (caveat_type parent == max_amount_type) ≡ false
        → caveat_type parent ≡ caveat_type child
        → deep_equal platform.stringify (Json.object parent) (Json.object child) ≡ true
        → Narrowing parent child

  caveat_narrows→Narrowing : (p c : Caveat) → caveat_narrows platform p c ≡ true → Narrowing p c
  unfolding caveat_narrows
  caveat_narrows→Narrowing p c h = elim (Bool-cases (caveat_type p == caveat_type c)) [
    | inr other ↦ absurd (let bad = rw (other, caveat_narrows) at h in cc)
    | inl e ↦
        let same = (==_iff (caveat_type p) (caveat_type c)).0 e in
        elim (Bool-cases (caveat_type p == valid_until_type)) [
          | inl d ↦
              let at = (==_iff (caveat_type p) valid_until_type).0 d in
              by_date at (sym same ∙ at) (rw (e, d, caveat_narrows) at h)
          | inr n ↦ elim (Bool-cases (caveat_type p == max_amount_type)) [
            | inl m ↦
                let at = (==_iff (caveat_type p) max_amount_type).0 m in
                let both = rw (e, n, m, caveat_narrows) at h in
                by_amount at (sym same ∙ at) (and_left _ _ both) (and_right _ _ both)
            | inr n' ↦ verbatim n n' same (rw (e, n, n', caveat_narrows) at h)
          ]
        ]
  ]

  Narrowing→caveat_narrows : (p c : Caveat) → Narrowing p c → caveat_narrows platform p c ≡ true
  unfolding caveat_narrows
  Narrowing→caveat_narrows p c (by_date at at' h) = rw (at, at', caveat_narrows) h
  Narrowing→caveat_narrows p c (by_amount at at' h k) =
      rw (at, at', caveat_narrows) (rw (h, k) refl)
  Narrowing→caveat_narrows p c (verbatim n n' same h) =
      let e = (==_iff (caveat_type p) (caveat_type c)).1 same in rw (e, n, n', caveat_narrows) h

  -- A type that is known passes its test.
  untested : (c : Caveat) (t : Option Text) → caveat_type c ≡ t → (caveat_type c == t) ≡ false → ⊥
  untested c t at h = let bad = (==_iff (caveat_type c) t).1 at in cc

  deep_equal_trans :
      (a b c : Json)
      → deep_equal platform.stringify a b ≡ true
      → deep_equal platform.stringify b c ≡ true
      → deep_equal platform.stringify a c ≡ true
  unfolding deep_equal
  deep_equal_trans a b c h k =
      let text : Json → Text = λ j. platform.stringify (sort_keys j) in
      (==_iff (text a) (text c)).1 ((==_iff (text a) (text b)).0 h ∙ (==_iff (text b) (text c)).0 k)

  Narrowing-trans : (a b c : Caveat) → Narrowing a b → Narrowing b c → Narrowing a c
  Narrowing-trans a b c (by_date at at' h) (by_date _ at'' k) =
      by_date at at''
        (both_are_trans (date_lte platform) (date c) (date b) (date a) date_lte_trans k h)
  Narrowing-trans a b c (by_amount at at' h i) (by_amount _ at'' k j) =
      by_amount at at'' (currency_narrows_trans (currency a) (currency b) (currency c) h k)
        (both_are_trans decimal_lte (limit c) (limit b) (limit a) decimal_lte_trans j i)
  Narrowing-trans a b c (verbatim n n' same h) (verbatim _ _ same' k) =
      verbatim n n' (same ∙ same')
        (deep_equal_trans (Json.object a) (Json.object b) (Json.object c) h k)
  Narrowing-trans a b c (by_date at at' h) (by_amount at'' _ k j) =
      absurd (let bad = sym at' ∙ at'' in cc)
  Narrowing-trans a b c (by_amount at at' h i) (by_date at'' _ k) =
      absurd (let bad = sym at' ∙ at'' in cc)
  Narrowing-trans a b c (by_date at at' h) (verbatim n _ _ _) =
      absurd (untested b valid_until_type at' n)
  Narrowing-trans a b c (by_amount at at' h i) (verbatim _ n _ _) =
      absurd (untested b max_amount_type at' n)
  Narrowing-trans a b c (verbatim n _ same _) (by_date at _ _) =
      absurd (untested a valid_until_type (same ∙ at) n)
  Narrowing-trans a b c (verbatim _ n same _) (by_amount at _ _ _) =
      absurd (untested a max_amount_type (same ∙ at) n)

  pub caveat_narrows_trans :
      (a b c : Caveat)
      → caveat_narrows platform a b ≡ true
      → caveat_narrows platform b c ≡ true
      → caveat_narrows platform a c ≡ true
  caveat_narrows_trans a b c h k =
      Narrowing→caveat_narrows a c
        (Narrowing-trans a b c (caveat_narrows→Narrowing a b h) (caveat_narrows→Narrowing b c k))
