-- ===== src/Text/Compare.antt =====
-- utils/string.cpp: `strnieq` and `stristartswith`. `std::toupper` is that of the C locale, which
-- changes the letters of ASCII alone.
use redis_cerberus.Prelude.{
  ℕ, zero, suc, ◌-◌, Bool, true, false, ◌&&◌, [], ◌∷◌, Bytes, length, take, map, leb, ◌==◌,
  if◌then◌else◌, ◌≡◌, ◌↔◌, arith,
}

unfoldable pub to_upper : ℕ → ℕ
to_upper c = if leb b'a' c && leb c b'z' then c - 32 else c

-- Where a text ends within the first `n` bytes, both have to end there.
unfoldable pub strnieq : Bytes → Bytes → ℕ → Bool
unfolding to_upper
strnieq lhs rhs zero = true
strnieq [] [] (suc n) = true
strnieq [] (y ∷ ys) (suc n) = false
strnieq (x ∷ xs) [] (suc n) = false
strnieq (x ∷ xs) (y ∷ ys) (suc n) = to_upper x == to_upper y && strnieq xs ys n

unfoldable pub stristartswith : Bytes → Bytes → Bool
unfolding strnieq
stristartswith s pre = strnieq s pre (length pre)

heads_eq :
    (a b : ℕ) (t : Bool) (xs ys : Bytes)
    → (t ≡ true) ↔ (xs ≡ ys)
    → ((a == b && t) ≡ true) ↔ (a ∷ xs ≡ b ∷ ys)
heads_eq a b true xs ys h = ground arith
heads_eq a b false xs ys h = ground arith

-- A text starts with another, letter case aside, exactly if its first bytes are the other's.
pub stristartswith_iff :
    (s pre : Bytes)
    → (stristartswith s pre ≡ true) ↔ (map to_upper (take (length pre) s) ≡ map to_upper pre)
unfolding stristartswith
stristartswith_iff s [] = ground arith
stristartswith_iff [] (y ∷ ys) = ground arith
stristartswith_iff (x ∷ xs) (y ∷ ys) =
    heads_eq (to_upper x) (to_upper y) _ _ _ (stristartswith_iff xs ys)
