-- ===== src/Text.antt =====
-- utils/string.cpp over byte strings: `Decimal` is `util::str` on integers, `Compare` the comparison of
-- prefixes without case, `Atoi` the integer reader, `Split` `split_str` and `join`. `Address` is
-- utils/address.hpp and `HostPort` utils/address.cpp.
pub mod Decimal
pub mod Atoi
pub mod HostPort
pub mod Address
pub mod Compare
pub mod Split
