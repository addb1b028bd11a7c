-- ===== src/Message/Number.antt =====
-- core/message.hpp: `btou` and `btoi` on numbers that `util::str` printed.
pub mod Bounds
use redis_cerberus.Prelude.{
  ℕ, ◌+◌, ◌*◌, ◌/◌, ◌%◌, ◌<◌, [], ◌∷◌, ◌++◌, Bytes, length, drop, length-append, append_assoc, ◌==◌,
  ◌≡◌, ap, ◌∙◌, arith, false,
}
use redis_cerberus.Prelude.Int.{neg, pos, ◌+ℤ◌, ◌*ℤ◌}
use redis_cerberus.Text.Decimal.{str, str_ind, str_digit}
use redis_cerberus.Message.Outcome.{ok}
use redis_cerberus.Message.Scan.{next_digit, btou_from, btou, btoi}
use redis_cerberus.Message.Splitter.{is_minus}

pub next_digit-pos : (m d : ℕ) → next_digit (pos m) (b'0' + d) ≡ pos (m * 10 + d)
unfolding ◌+ℤ◌ ◌*ℤ◌
next_digit-pos m d = ground arith

btou_digit :
    (m d p : ℕ) (rest : Bytes)
    → d < 10
    → btou_from (pos m) p ((b'0' + d) ∷ rest) ≡ btou_from (pos (m * 10 + d)) (p + 1) rest
unfolding btou_from
btou_digit m d p rest h =
    let no_cr : ((b'0' + d) == b'\r') ≡ false = ground arith in rw (no_cr, next_digit-pos m d)

-- Reading the digits of `n` from a value of zero gives `n`.
abbrev Reads : ℕ → Bytes → Type 0
Reads n ds =
    (p : ℕ) (rest : Bytes)
    → btou_from (pos 0) p (ds ++ rest) ≡ btou_from (pos n) (p + length ds) rest

Reads-more : (n : ℕ) (ds : Bytes) → Reads (n / 10) ds → Reads n (ds ++ (b'0' + n % 10) ∷ [])
Reads-more n ds h p rest =
    let value : n / 10 * 10 + n % 10 ≡ n = omega arith in
    let place : p + length ds + 1 ≡ p + length (ds ++ (b'0' + n % 10) ∷ []) =
      omega (arith, length-append ds ((b'0' + n % 10) ∷ [])) in
    rw append_assoc
      (h p _ ∙ btou_digit (n / 10) (n % 10) (p + length ds) rest (omega arith) ∙ rw (value, place))

Reads-one : (n : ℕ) → n < 10 → Reads n ((b'0' + n) ∷ [])
Reads-one n h p rest =
    btou_digit 0 n p rest h
    ∙ ap (λ m. btou_from (pos m) (p + 1) rest) {x = 0 * 10 + n} {y = n} (omega arith)

pub btou_from-str : (n : ℕ) → Reads n (str n)
btou_from-str = str_ind Reads Reads-one Reads-more

pub btou_from-line :
    (n p : ℕ) (rest : Bytes)
    → btou_from (pos 0) p (str n ++ b'\r' ∷ b'\n' ∷ rest) ≡ ok (pos n, p + length (str n) + 2)
unfolding btou_from
btou_from-line n p rest =
    let place : p + length (str n) + 1 + 1 ≡ p + length (str n) + 2 = omega arith in
    btou_from-str n p (b'\r' ∷ b'\n' ∷ rest) ∙ rw place

-- A printed number in front of a line's end is read whole, and the position is behind the line.
pub btou-str :
    (buf : Bytes) (p n : ℕ) (rest : Bytes)
    → drop p buf ≡ str n ++ b'\r' ∷ b'\n' ∷ rest
    → btou buf p ≡ ok (pos n, p + length (str n) + 2)
unfolding btou
btou-str buf p n rest e = rw e (btou_from-line n p rest)

-- The first byte that was printed is no sign.
pub is_minus-str : (n : ℕ) (rest : Bytes) → is_minus (str n ++ rest) ≡ false
is_minus-str n rest = let (d, ds, h, e) = str_digit n in rw e (ground arith)

pub btoi-str :
    (buf : Bytes) (p n : ℕ) (rest : Bytes)
    → drop p buf ≡ str n ++ b'\r' ∷ b'\n' ∷ rest
    → btoi buf p ≡ ok (pos n, p + length (str n) + 2)
unfolding btoi
btoi-str buf p n rest e =
    let (d, ds, h, first) = str_digit n in
    let no_sign : ((b'0' + d) == b'-') ≡ false = ground arith in
    let line = btou_from-line n p rest in rw (e, first, no_sign) (rw first at line)

-- A printed number with a minus in front is read as the negative one, and the position is behind the line.
pub btoi-minus_str :
    (buf : Bytes) (p n : ℕ) (rest : Bytes)
    → drop p buf ≡ b'-' ∷ (str n ++ b'\r' ∷ b'\n' ∷ rest)
    → btoi buf p ≡ ok (neg (pos n), p + 1 + length (str n) + 2)
unfolding btoi
btoi-minus_str buf p n rest e = rw (e, btou_from-line n (p + 1) rest)
