-- ===== src/Replay/Card/Keys.antt =====
-- The NUL in the key keeps the DID and the nonce apart.
use kya_os_mcp.Common.{ℕ, ◌≡◌, refl, ap, false, [], ◌∷◌, arith, nat_eq, ==_iff, includes}
use kya_os_mcp.Text.{Text}
use kya_os_mcp.Replay.Card.{card_key}

tail_of : Text → Text
tail_of [] = []
tail_of (x ∷ xs) = xs

head_of : Text → ℕ
head_of [] = 0
head_of (x ∷ xs) = x

-- Two DIDs without a NUL and two nonces give the same key only if they are the same.
pub card_key_injective :
    (did other : Text) (nonce again : Text)
    → includes 0 did ≡ false
    → includes 0 other ≡ false
    → card_key did nonce ≡ card_key other again
    → (did ≡ other) × (nonce ≡ again)
unfolding card_key tail_of head_of
card_key_injective [] [] nonce again h k e = (refl, ap tail_of e)
card_key_injective [] (y ∷ other) nonce again h k e =
    absurd (let z = ap head_of e in ground (arith, ==_iff y 0))
card_key_injective (x ∷ did) [] nonce again h k e =
    absurd (let z = ap head_of e in ground (arith, ==_iff x 0))
card_key_injective (x ∷ did) (y ∷ other) nonce again h k e =
    let head : x ≡ y = ap head_of e in
    let (same, rest) =
      card_key_injective did other nonce again (ground arith) (ground arith) (ap tail_of e) in
    (ap2 head same, rest)
  where
    ap2 : x ≡ y → did ≡ other → (x ∷ did) ≡ (y ∷ other)
    ap2 p q = cc
