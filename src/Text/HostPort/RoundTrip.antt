-- ===== src/Text/HostPort/RoundTrip.antt =====
-- utils/address.cpp: an address that was printed is read back.
use redis_cerberus.Prelude.{
  ℕ, ◌^◌, ◌≤◌, ◌<◌, false, [], ◌∷◌, ◌++◌, append-nil, Bytes, codes, some, ◌==◌, ◌≡◌, refl, sym, ap,
  ◌∙◌, arith,
}
use redis_cerberus.Prelude.Int.{ℤ, pos}
use redis_cerberus.Message.Outcome.{ok}
use redis_cerberus.Text.Atoi.{atoi}
use redis_cerberus.Text.Atoi.Digits.{AreDigits, str-AreDigits, atoi-str}
use redis_cerberus.Text.Decimal.{str}
use redis_cerberus.Text.Split.{has, split_str, join}
use redis_cerberus.Text.Split.Pieces.{Lacks, AllLack, split_str-join}
use redis_cerberus.Text.HostPort.{
  until_nul, first_or, to_option, address_at, from_pieces, from_host_port, int_str, address_str,
}

-- A byte that is no digit is in no number.
pub Lacks-digits :
    (d : ℕ) (xs : Bytes)
    → ((c : ℕ) → 48 ≤ c → c ≤ 57 → (d == c) ≡ false)
    → AreDigits xs
    → Lacks (d ∷ []) xs
unfolding Lacks has AreDigits
Lacks-digits d [] other h = tt
Lacks-digits d (c ∷ cs) other (h, h', hs) = (rw (other c h h') refl, Lacks-digits d cs other hs)

until_nul-digits : (xs : Bytes) → AreDigits xs → until_nul xs ≡ xs
unfolding until_nul AreDigits
until_nul-digits [] h = refl
until_nul-digits (c ∷ cs) (h, h', hs) =
    let visible : (c == 0) ≡ false = ground arith in rw (visible, until_nul-digits cs hs) refl

-- A text without the delimiter is one piece.
split_str-one : (d : ℕ) (xs : Bytes) → Lacks (d ∷ []) xs → split_str xs (d ∷ []) false ≡ xs ∷ []
unfolding join AllLack
split_str-one d xs h =
    ap (λ x. split_str x (d ∷ []) false) (sym (append-nil xs)) ∙ split_str-join d xs [] (h, tt)

port-str :
    (unset : ℤ) (n : ℕ)
    → n < 2 ^ 31
    → atoi unset (until_nul (first_or [] (split_str (str n) (codes "@") false))) ≡ ok (pos n)
port-str unset n small =
    let digits = str-AreDigits n in
    let one =
      split_str-one b'@' (str n) (Lacks-digits b'@' (str n) (λ c h k. ground arith) digits) in
    ap (λ ps. atoi unset (until_nul (first_or [] ps))) one
    ∙ ap (atoi unset) (until_nul-digits (str n) digits)
    ∙ atoi-str unset n small

-- Reading a printed address gives it back, where the host has no colon in it and the port is a
-- non-negative `int`.
pub from_host_port-address_str :
    (unset : ℤ) (host : Bytes) (n : ℕ)
    → Lacks (codes ":") host
    → n < 2 ^ 31
    → from_host_port unset (address_str (record { host = host; port = pos n }))
      ≡ some (record { host = host; port = pos n })
unfolding from_host_port from_pieces address_str int_str join AllLack
from_host_port-address_str unset host n h small =
    let colons = Lacks-digits b':' (str n) (λ c k l. ground arith) (str-AreDigits n) in
    let whole = ap (λ x. host ++ b':' ∷ x) (sym (append-nil (str n))) in
    let parts =
      ap (λ x. split_str x (codes ":") false) whole
      ∙ split_str-join b':' host (str n ∷ []) (h, (colons, tt)) in
    ap (from_pieces unset) parts ∙ ap (λ o. address_at host (to_option o)) (port-str unset n small)
