-- ===== src/Text/Atoi/Digits.antt =====
-- utils/string.cpp: `util::atoi` reads back what `util::str` printed.
use redis_cerberus.Prelude.{
  ℕ, ◌+◌, ◌-◌, ◌*◌, ◌%◌, ◌^◌, ◌≤◌, ◌<◌, Bool, true, false, [], ◌∷◌, ◌++◌, Bytes, ltb, ◌==◌, ◌≡◌,
  refl, sym, ap, subst, ◌∙◌, arith,
}
use redis_cerberus.Prelude.Int.{ℤ, pos}
use redis_cerberus.Message.Outcome.{ok}
use redis_cerberus.Text.Atoi.{
  atoi, is_space, skip_ws, is_digit, read_digits, finish, from_sign, at_number,
}
use redis_cerberus.Text.Decimal.{str, str_ind, str_digit}

-- Every byte is a decimal digit.
unfoldable pub AreDigits : Bytes → Type 0
AreDigits [] = Unit
AreDigits (c ∷ cs) = (48 ≤ c) × (c ≤ 57) × AreDigits cs

AreDigits-append : (xs : Bytes) (c : ℕ) → AreDigits xs → 48 ≤ c → c ≤ 57 → AreDigits (xs ++ c ∷ [])
unfolding AreDigits
AreDigits-append [] c h k l = (k, l, tt)
AreDigits-append (x ∷ xs) c (h, h', hs) k l = (h, h', AreDigits-append xs c hs k l)

-- The value of digits behind those of a number.
unfoldable value : ℕ → Bytes → ℕ
value n [] = n
value n (c ∷ cs) = value (n * 10 + (c - 48)) cs

value-append : (n : ℕ) (xs : Bytes) (c : ℕ) → value n (xs ++ c ∷ []) ≡ value n xs * 10 + (c - 48)
unfolding value
value-append n [] c = refl
value-append n (x ∷ xs) c = value-append (n * 10 + (x - 48)) xs c

read_digits-value :
    (seen : Bool) (n : ℕ) (xs : Bytes)
    → AreDigits xs
    → read_digits true n xs ≡ (true, value n xs, [])
unfolding AreDigits value read_digits
read_digits-value seen n [] h = refl
read_digits-value seen n (c ∷ cs) (h, h', hs) =
    let digit : is_digit c ≡ true = ground arith in
    rw digit (read_digits-value seen (n * 10 + (c - 48)) cs hs)

str-value : (n : ℕ) → AreDigits (str n) × (value 0 (str n) ≡ n)
unfolding AreDigits value
str-value =
    str_ind (λ n ds. AreDigits ds × (value 0 ds ≡ n))
      (λ n h. ((omega arith, omega arith, tt), omega arith))
      (λ n ds (h, e). (
        AreDigits-append ds (48 + n % 10) h (omega arith) (omega arith),
        value-append 0 ds (48 + n % 10) ∙ ap (λ v. v * 10 + (48 + n % 10 - 48)) e ∙ omega arith,
      ))

pub str-AreDigits : (n : ℕ) → AreDigits (str n)
str-AreDigits n = (str-value n).0

-- A digit in front, and only digits behind it.
atoi-digits :
    (unset : ℤ) (c : ℕ) (cs : Bytes) (n : ℕ)
    → AreDigits (c ∷ cs)
    → value 0 (c ∷ cs) ≡ n
    → n < 2 ^ 31
    → atoi unset (c ∷ cs) ≡ ok (pos n)
unfolding AreDigits value atoi skip_ws is_space at_number from_sign read_digits finish
atoi-digits unset c cs n (h, h', hs) e small =
    let visible : is_space c ≡ false = ground arith in
    let plus : (c == b'+') ≡ false = ground arith in
    let minus : (c == b'-') ≡ false = ground arith in
    let digit : is_digit c ≡ true = ground arith in
    let fits : ltb n (2 ^ 31) ≡ true = ground arith in
    rw (visible, minus, plus, digit, read_digits-value true (0 * 10 + (c - 48)) cs hs, e, fits) refl

pub atoi-str : (unset : ℤ) (n : ℕ) → n < 2 ^ 31 → atoi unset (str n) ≡ ok (pos n)
atoi-str unset n small =
    let (d, ds, h, e) = str_digit n in
    let (digits, worth) = str-value n in
    ap (atoi unset) e
    ∙ atoi-digits unset (b'0' + d) ds n (subst AreDigits e digits) (ap (value 0) (sym e) ∙ worth)
        small
