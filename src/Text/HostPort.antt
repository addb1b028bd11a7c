-- ===== src/Text/HostPort.antt =====
-- utils/address.cpp: addresses read from text and printed. A `std::runtime_error`, of which
-- `BadRedisMessage` is one, is the result `none`.
pub mod RoundTrip
use redis_cerberus.Prelude.{
  ℕ, suc, Bool, true, false, List, [], ◌∷◌, ◌++◌, Bytes, codes, Option, none, some, ◌==◌,
  if◌then◌else◌,
}
use redis_cerberus.Prelude.Int.{ℤ, pos, negsuc}
use redis_cerberus.Message.Outcome.{Outcome, ok}
use redis_cerberus.Command.Parser.Keys.{is_nil}
use redis_cerberus.Text.Address.{Address, insert_address}
use redis_cerberus.Text.Atoi.{atoi}
use redis_cerberus.Text.Decimal.{str}
use redis_cerberus.Text.Split.{split_str}

-- The text that a pointer to characters stands for, which ends at the first byte of zero.
unfoldable pub until_nul : Bytes → Bytes
until_nul [] = []
until_nul (c ∷ cs) = if c == 0 then [] else c ∷ until_nul cs

abbrev pub first_or : Bytes → List Bytes → Bytes
first_or d [] = d
first_or d (x ∷ xs) = x

abbrev pub to_option {ℓ} : {A : Type ℓ} → Outcome A → Option A
to_option (ok a) = some a
to_option _ = none

abbrev pub address_at : Bytes → Option ℤ → Option Address
address_at host none = none
address_at host (some port) = some (record { host = host; port = port })

-- `unset` is what `util::atoi` gives for a blank text.
unfoldable pub from_pieces : ℤ → List Bytes → Option Address
unfolding until_nul split_str atoi
from_pieces unset (host ∷ port ∷ []) =
    address_at host
      (to_option (atoi unset (until_nul (first_or [] (split_str port (codes "@") false)))))
from_pieces unset _ = none

unfoldable pub from_host_port : ℤ → Bytes → Option Address
unfolding split_str from_pieces
from_host_port unset addr = from_pieces unset (split_str addr (codes ":") false)

-- Empty texts are passed over, and the first bad one throws.
unfoldable pub insert_hosts_ports : ℤ → List Bytes → List Address → Option (List Address)
unfolding from_host_port insert_address
insert_hosts_ports unset [] res = some res
insert_hosts_ports unset (s ∷ rest) res =
    let passed = insert_hosts_ports unset rest res in
    if is_nil s then passed else (elim (from_host_port unset s) [
      | none ↦ none
      | some a ↦ insert_hosts_ports unset rest (insert_address a res)
    ])

abbrev some_address : Option (List Address) → Option (List Address)
some_address (some []) = none
some_address o = o

unfoldable pub from_hosts_ports : ℤ → Bytes → Option (List Address)
unfolding split_str insert_hosts_ports
from_hosts_ports unset addrs =
    some_address (insert_hosts_ports unset (split_str addrs (codes ",") false) [])

-- `util::str` on an `int`.
unfoldable pub int_str : ℤ → Bytes
unfolding str
int_str (pos n) = str n
int_str (negsuc n) = b'-' ∷ str (suc n)

-- `Address::str`.
unfoldable pub address_str : Address → Bytes
unfolding int_str
address_str a = a.host ++ (b':' ∷ int_str a.port)
