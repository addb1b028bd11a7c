-- ===== src/SlotMap/Node.antt =====
-- core/slot_map.hpp: `RedisNode`. A `std::set` of ranges is a list that rises.
use redis_cerberus.Prelude.{
  ℕ, Bool, true, false, ◌||◌, ◌&&◌, List, [], ◌∷◌, Bytes, ltb, ◌==◌, if◌then◌else◌,
}
use redis_cerberus.Text.Address.{Address}

abbrev pub Range : Type 0
Range = ℕ × ℕ

pub record RedisNode : Type 0 where
  pub addr : Address
  pub node_id : Bytes
  pub master_id : Bytes
  pub slot_ranges : List Range

abbrev pub is_master : RedisNode → Bool
is_master n = elim n.master_id [ [] ↦ true | b ∷ bs ↦ false ]

abbrev pub range_lt : Range → Range → Bool
range_lt a b = ltb a.0 b.0 || (a.0 == b.0 && ltb a.1 b.1)

unfoldable pub insert_range : Range → List Range → List Range
insert_range a [] = a ∷ []
insert_range a (b ∷ bs) =
    if range_lt a b then a ∷ b ∷ bs else (if range_lt b a then b ∷ insert_range a bs else b ∷ bs)
