-- ===== src/Tests/Nodes.antt =====
-- Addresses and answers to CLUSTER NODES at concrete inputs.
use redis_cerberus.Prelude.{true, false, [], ◌∷◌, some, codes, ◌≡◌, refl, arith}
use redis_cerberus.Prelude.Int.{pos}
use redis_cerberus.Text.Split.{has, index_of, find_first_of, split_loop, split_str, join}
use redis_cerberus.Text.Split.Pieces.{
  Lacks, AllLack, pieces, trimmed, split_str-pieces, split_str-join,
}
use redis_cerberus.Text.HostPort.{from_host_port, address_str}
use redis_cerberus.Text.HostPort.RoundTrip.{from_host_port-address_str}
use redis_cerberus.SlotMap.Nodes.{parse_slot_map}

split_str_words : split_str (codes "a  bc ") (codes " ") true ≡ codes "a" ∷ codes "bc" ∷ []
unfolding split_str split_loop find_first_of index_of has
split_str_words = refl

split_str-join_example :
    split_str (join (codes ",") (codes "a:1" ∷ [] ∷ codes "b:2" ∷ [])) (codes ",") false
    ≡ codes "a:1" ∷ [] ∷ codes "b:2" ∷ []
unfolding AllLack Lacks has
split_str-join_example =
    split_str-join b',' (codes "a:1") ([] ∷ codes "b:2" ∷ [])
      ((refl, (refl, (refl, tt))), (tt, ((refl, (refl, (refl, tt))), tt)))

split_str-pieces_example :
    split_str (codes "a  bc ") (codes " ") true ≡ trimmed true (pieces (codes " ") (codes "a  bc "))
split_str-pieces_example = split_str-pieces (codes "a  bc ") (codes " ") true

from_host_port-address_str_example :
    from_host_port (pos 0) (address_str (record { host = codes "10.0.0.1"; port = pos 6379 }))
    ≡ some (record { host = codes "10.0.0.1"; port = pos 6379 })
unfolding Lacks has
from_host_port-address_str_example =
    from_host_port-address_str (pos 0) (codes "10.0.0.1") 6379
      (refl, (refl, (refl, (refl, (refl, (refl, (refl, (refl, tt)))))))) (omega arith)

parse_slot_map_one :
    parse_slot_map
      (pos 0)
      (codes "29fa :7000 myself,master - 0 0 0 connected 0-99 [7-<-2] 200\nx y\n")
      (codes "h")
    ≡ (record {
      addr = record { host = codes "h"; port = pos 7000 };
      node_id = codes "29fa";
      master_id = [];
      slot_ranges = (0, 99) ∷ (200, 200) ∷ [];
    })
      ∷ []
unfolding parse_slot_map
parse_slot_map_one = refl
