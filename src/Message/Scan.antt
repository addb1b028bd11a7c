-- ===== src/Message/Scan.antt =====
-- core/message.hpp: `btou`, `btoi`, `parse_simple_str`, `parse_str` and `pass_nil`. A loop over
-- `begin != end` walks the rest of the buffer, `drop p buf`, and counts the position along.
use redis_cerberus.Prelude.{
  ℕ, zero, suc, ◌+◌, ◌-◌, Option, none, some, [], ◌∷◌, Bytes, drop, length, ltb, ◌==◌,
  if◌then◌else◌,
}
use redis_cerberus.Prelude.Int.{ℤ, pos, negsuc, ◌+ℤ◌, ◌*ℤ◌, sub_ℕ, neg}
use redis_cerberus.Message.Outcome.{Outcome, ok, message_interrupted, fault, ◌>>=◌}

-- `LENGTH_OF_CR_LF`.
abbrev pub length_of_cr_lf : ℕ
length_of_cr_lf = 2

-- Behind a carriage return at `p - 1`: what follows is skipped unread, but it has to be there.
after_cr : ℕ → Bytes → Outcome ℕ
after_cr p [] = message_interrupted
after_cr p (_ ∷ _) = ok (p + 1)

-- `i = i * 10 + (b - '0')`: any byte is taken for a digit, so the value may be negative. A `rint`
-- has 64 bits; the model keeps the value that the source computes where it does not overflow.
abbrev pub next_digit : ℤ → ℕ → ℤ
next_digit i b = i *ℤ pos 10 +ℤ sub_ℕ b b'0'

unfoldable pub btou_from : ℤ → ℕ → Bytes → Outcome (ℤ × ℕ)
unfolding after_cr
btou_from i p [] = message_interrupted
btou_from i p (b ∷ rest) =
    if b == b'\r'
    then (after_cr (p + 1) rest >>= λ q. ok (i, q))
    else btou_from (next_digit i b) (p + 1) rest

module _ (buf : Bytes) where
  unfoldable pub btou : ℕ → Outcome (ℤ × ℕ)
  unfolding btou_from
  btou p = btou_from (pos 0) p (drop p buf)

  -- The first byte is read with no test against the end.
  btoi_at : ℕ → Bytes → Outcome (ℤ × ℕ)
  btoi_at p [] = fault
  btoi_at p (b ∷ rest) =
      if b == b'-'
      then (btou_from (pos 0) (p + 1) rest >>= λ (i, q). ok (neg i, q))
      else btou_from (pos 0) p (b ∷ rest)

  unfoldable pub btoi : ℕ → Outcome (ℤ × ℕ)
  unfolding btoi_at
  btoi p = btoi_at p (drop p buf)

unfoldable pub simple_str_from : ℕ → Bytes → Outcome ℕ
unfolding after_cr
simple_str_from p [] = message_interrupted
simple_str_from p (b ∷ rest) =
    if b == b'\r' then after_cr (p + 1) rest else simple_str_from (p + 1) rest

-- An iterator moved by a signed distance; before the begin there is none.
abbrev pub advance : ℕ → ℤ → Option ℕ
advance p (pos n) = some (p + n)
advance p (negsuc n) = if ltb n p then some (p - suc n) else none

module _ (buf : Bytes) where
  unfoldable pub parse_simple_str : ℕ → Outcome ℕ
  unfolding simple_str_from
  parse_simple_str p = simple_str_from p (drop p buf)

  -- `size` comes from `btou` and may be negative: then `last` lies before `begin`.
  unfoldable pub parse_str : ℤ → ℕ → Outcome ℕ
  parse_str size begin = elim (advance begin (size +ℤ pos length_of_cr_lf)) [
    | none ↦ fault
    | some last ↦ if ltb (length buf) last then message_interrupted else ok last
  ]

  pass_from : ℕ → ℕ → Bytes → Outcome ℕ
  pass_from zero p rest = ok p
  pass_from (suc size) p [] = message_interrupted
  pass_from (suc size) p (_ ∷ rest) = pass_from size (p + 1) rest

  unfoldable pub pass_nil : ℕ → Outcome ℕ
  unfolding pass_from
  pass_nil p = pass_from (1 + length_of_cr_lf) p (drop p buf)
