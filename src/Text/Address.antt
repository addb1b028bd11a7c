-- ===== src/Text/Address.antt =====
-- utils/address.hpp: an address and its order, by which a `std::set` of addresses is kept.
use redis_cerberus.Prelude.{
  Bool, true, false, ◌&&◌, ◌||◌, List, [], ◌∷◌, Bytes, ltb, ◌==◌, bytes_eq, if◌then◌else◌,
}
use redis_cerberus.Prelude.Int.{ℤ, ltb_ℤ}

pub record Address : Type 0 where
  pub host : Bytes
  pub port : ℤ

-- `std::string`'s operator<.
unfoldable pub bytes_lt : Bytes → Bytes → Bool
bytes_lt [] [] = false
bytes_lt [] (y ∷ ys) = true
bytes_lt (x ∷ xs) [] = false
bytes_lt (x ∷ xs) (y ∷ ys) = ltb x y || (x == y && bytes_lt xs ys)

unfoldable pub address_lt : Address → Address → Bool
unfolding bytes_lt bytes_eq
address_lt a b = if bytes_eq a.host b.host then ltb_ℤ a.port b.port else bytes_lt a.host b.host

-- `std::set::insert`: the elements rise, and one that is there already is kept.
unfoldable pub insert_address : Address → List Address → List Address
unfolding address_lt
insert_address a [] = a ∷ []
insert_address a (b ∷ bs) =
    if address_lt a b
    then a ∷ b ∷ bs
    else (if address_lt b a then b ∷ insert_address a bs else b ∷ bs)
