-- ===== src/Text/Atoi.antt =====
-- utils/string.cpp: `util::atoi`, which reads an `int` of 32 bits from a string stream between two
-- `std::ws`, and throws `BadRedisMessage` unless that brought the stream to its end.
pub mod Digits
use redis_cerberus.Prelude.{
  ℕ, ◌+◌, ◌-◌, ◌*◌, ◌^◌, Bool, true, false, ◌&&◌, ◌||◌, [], ◌∷◌, Bytes, ltb, leb, ◌==◌,
  if◌then◌else◌,
}
use redis_cerberus.Prelude.Int.{ℤ, pos, negsuc}
use redis_cerberus.Message.Outcome.{Outcome, ok, bad_redis_message}

is_space : ℕ → Bool
is_space c = c == b' ' || (leb 9 c && leb c 13)

-- `std::ws`.
skip_ws : Bytes → Bytes
unfolding is_space
skip_ws [] = []
skip_ws (c ∷ cs) = let rest = skip_ws cs in if is_space c then rest else c ∷ cs

abbrev is_digit : ℕ → Bool
is_digit c = leb b'0' c && leb c b'9'

-- The digits that stand in front: whether there are any, their value, and what follows.
read_digits : Bool → ℕ → Bytes → Bool × ℕ × Bytes
read_digits seen n [] = (seen, n, [])
read_digits seen n (c ∷ cs) =
    let more = read_digits true (n * 10 + (c - b'0')) cs in
    if is_digit c then more else (seen, n, c ∷ cs)

-- The number is kept within the type's range, as the stream does when it fails.
abbrev signed : Bool → ℕ → ℤ
signed false n = if ltb n (2 ^ 31) then pos n else pos (2 ^ 31 - 1)
signed true n =
    if n == 0 then pos 0 else (if leb n (2 ^ 31) then negsuc (n - 1) else negsuc (2 ^ 31 - 1))

abbrev in_range : Bool → ℕ → Bool
in_range false n = ltb n (2 ^ 31)
in_range true n = leb n (2 ^ 31)

abbrev at_end : Bytes → ℤ → Outcome ℤ
at_end [] r = ok r
at_end (_ ∷ _) r = bad_redis_message

-- With no digit the value is zero. Once the reading failed, `std::ws` skips nothing.
finish : Bool → Bool × ℕ × Bytes → Outcome ℤ
unfolding skip_ws
finish minus (false, _, rest) = at_end rest (pos 0)
finish minus (true, n, rest) =
    if in_range minus n
    then at_end (skip_ws rest) (signed minus n)
    else at_end rest (signed minus n)

from_sign : Bytes → Outcome ℤ
unfolding read_digits finish
from_sign [] = finish false (false, 0, [])
from_sign (c ∷ cs) =
    if c == b'-'
    then finish true (read_digits false 0 cs)
    else if c == b'+'
    then finish false (read_digits false 0 cs)
    else finish false (read_digits false 0 (c ∷ cs))

-- Of a text of spaces nothing is read: the stream is at its end, and `r` holds what it held
-- before, which is not set: `unset`.
at_number : ℤ → Bytes → Outcome ℤ
unfolding from_sign
at_number unset [] = ok unset
at_number unset (c ∷ cs) = from_sign (c ∷ cs)

unfoldable pub atoi : ℤ → Bytes → Outcome ℤ
unfolding skip_ws at_number
atoi unset a = at_number unset (skip_ws a)
