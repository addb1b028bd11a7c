-- ===== src/Message/Number/Bounds.antt =====
-- core/message.hpp: `btoi` on a printed number, within the 64 bits of an `rint`.
use redis_cerberus.Prelude.{
  ℕ, suc, ◌+◌, ◌*◌, ◌/◌, ◌%◌, ◌<◌, ◌^◌, Bool, true, false, ◌&&◌, ◌==◌, ltb, [], ◌∷◌, ◌++◌, Bytes,
  length, drop, if◌then◌else◌, append_assoc, ◌≡◌, refl, ap, ◌∙◌, arith,
}
use redis_cerberus.Prelude.Int.{ℤ, pos, negsuc, neg, ◌*ℤ◌}
use redis_cerberus.Text.Decimal.{str, str_ind}
use redis_cerberus.Text.HostPort.{int_str}
use redis_cerberus.Message.Outcome.{ok}
use redis_cerberus.Message.Scan.{next_digit, btoi}
use redis_cerberus.Message.Number.{next_digit-pos, btoi-str, btoi-minus_str}

abbrev pub in_rint : ℤ → Bool
in_rint (pos n) = ltb n (2 ^ 63)
in_rint (negsuc n) = ltb n (2 ^ 63)

-- The loop of `btou` computes no value beyond the 64 bits, neither `i * 10` nor the sum.
unfoldable pub keeps_rint : ℤ → Bytes → Bool
keeps_rint i [] = true
keeps_rint i (b ∷ rest) =
    let on = keeps_rint (next_digit i b) rest in
    if b == b'\r' then true else (in_rint (i *ℤ pos 10) && (in_rint (next_digit i b) && on))

keeps_rint-digit :
    (m d : ℕ) (rest : Bytes)
    → d < 10
    → m * 10 + d < 2 ^ 63
    → keeps_rint (pos m) ((b'0' + d) ∷ rest) ≡ keeps_rint (pos (m * 10 + d)) rest
unfolding keeps_rint ◌*ℤ◌
keeps_rint-digit m d rest h small =
    let no_cr : ((b'0' + d) == b'\r') ≡ false = ground arith in
    let product : in_rint (pos m *ℤ pos 10) ≡ true = ground arith in
    let sum : ltb (m * 10 + d) (2 ^ 63) ≡ true = ground arith in
    rw (no_cr, product, next_digit-pos m d, sum) refl

-- From the digits of `n` on, the loop goes on with the value `n`.
abbrev KeepsRint : ℕ → Bytes → Type 0
KeepsRint n ds =
    n < 2 ^ 63 → (rest : Bytes) → keeps_rint (pos 0) (ds ++ rest) ≡ keeps_rint (pos n) rest

KeepsRint-one : (n : ℕ) → n < 10 → KeepsRint n ((b'0' + n) ∷ [])
KeepsRint-one n h small rest =
    keeps_rint-digit 0 n rest h (omega arith)
    ∙ ap (λ m. keeps_rint (pos m) rest) {x = 0 * 10 + n} {y = n} (omega arith)

KeepsRint-more :
    (n : ℕ) (ds : Bytes) → KeepsRint (n / 10) ds → KeepsRint n (ds ++ (b'0' + n % 10) ∷ [])
KeepsRint-more n ds h small rest =
    let value : n / 10 * 10 + n % 10 ≡ n = omega arith in
    rw append_assoc (
      h (omega arith) _
      ∙ keeps_rint-digit (n / 10) (n % 10) rest (omega arith) (omega arith)
      ∙ rw value refl)

KeepsRint-str : (n : ℕ) → KeepsRint n (str n)
KeepsRint-str = str_ind KeepsRint KeepsRint-one KeepsRint-more

keeps_rint-line :
    (n : ℕ) (rest : Bytes) → n < 2 ^ 63 → keeps_rint (pos 0) (str n ++ b'\r' ∷ b'\n' ∷ rest) ≡ true
unfolding keeps_rint
keeps_rint-line n rest small = KeepsRint-str n small (b'\r' ∷ b'\n' ∷ rest)

abbrev pub magnitude : ℤ → ℕ
magnitude (pos n) = n
magnitude (negsuc n) = suc n

-- `btoi` reads back a printed number, negative or not, that is above the least and at most the greatest
-- of 64 bits; its position is behind the line, and no value that it computes on the way overflows.
pub btoi-int_str :
    (i : ℤ) (buf : Bytes) (p : ℕ) (rest : Bytes)
    → magnitude i < 2 ^ 63
    → drop p buf ≡ int_str i ++ b'\r' ∷ b'\n' ∷ rest
    → (btoi buf p ≡ ok (i, p + length (int_str i) + 2))
      × (keeps_rint (pos 0) (str (magnitude i) ++ b'\r' ∷ b'\n' ∷ rest) ≡ true)
unfolding int_str
btoi-int_str (pos n) buf p rest small e = (btoi-str buf p n rest e, keeps_rint-line n rest small)
btoi-int_str (negsuc n) buf p rest small e =
    let place : p + 1 + length (str (suc n)) + 2 ≡ p + suc (length (str (suc n))) + 2 =
      omega arith in
    let negative : neg (pos (suc n)) ≡ negsuc n = ground arith in
    (
      btoi-minus_str buf p (suc n) rest e ∙ rw (negative, place) refl,
      keeps_rint-line (suc n) rest small,
    )
