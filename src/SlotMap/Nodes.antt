-- ===== src/SlotMap/Nodes.antt =====
-- core/slot_map.cpp: `parse_slot_map`, which reads what a server answers to CLUSTER NODES. Where a line throws
-- a `std::runtime_error` the result is `none`, and the line is passed over.
use redis_cerberus.Prelude.{
  Bool, true, false, ◌||◌, ◌&&◌, List, [], ◌∷◌, Bytes, codes, length, drop, get_or, Option, none,
  some, bytes_eq, ltb, ◌==◌, if◌then◌else◌,
}
use redis_cerberus.Prelude.Int.{ℤ}
use redis_cerberus.Command.Parser.Keys.{is_nil}
use redis_cerberus.Command.Parser.Single.{to_slot}
use redis_cerberus.Text.Address.{Address}
use redis_cerberus.Text.Atoi.{atoi}
use redis_cerberus.Text.HostPort.{to_option, from_host_port}
use redis_cerberus.Text.Split.{split_str}
use redis_cerberus.SlotMap.Node.{Range, RedisNode, insert_range}

unfoldable pub starts_with : Bytes → Bytes → Bool
starts_with s [] = true
starts_with [] (p ∷ ps) = false
starts_with (c ∷ cs) (p ∷ ps) = c == p && starts_with cs ps

-- `std::string::find(..) != npos`.
unfoldable pub finds : Bytes → Bytes → Bool
unfolding starts_with
finds [] pat = starts_with [] pat
finds (c ∷ cs) pat = starts_with (c ∷ cs) pat || finds cs pat

abbrev pub add_range : Option ℤ → Option ℤ → List Range → Option (List Range)
add_range (some a) (some b) ranges = some (insert_range (to_slot a, to_slot b) ranges)
add_range _ _ ranges = none

-- The numbers between the dashes; those behind the second are not looked at.
unfoldable pub parse_begin_end : ℤ → List Bytes → List Range → Option (List Range)
unfolding atoi insert_range
parse_begin_end unset [] ranges = some ranges
parse_begin_end unset (a ∷ []) ranges = let s = to_option (atoi unset a) in add_range s s ranges
parse_begin_end unset (a ∷ b ∷ _) ranges =
    add_range (to_option (atoi unset a)) (to_option (atoi unset b)) ranges

-- A slot that is being moved is in brackets.
abbrev pub is_moving : Bytes → Bool
is_moving [] = false
is_moving (c ∷ cs) = c == b'['

unfoldable pub parse_ranges : ℤ → List Bytes → List Range → Option (List Range)
unfolding split_str parse_begin_end
parse_ranges unset [] ranges = some ranges
parse_ranges unset (rg ∷ rgs) ranges =
    elim (if is_moving rg
      then some ranges
      else parse_begin_end unset (split_str rg (codes "-") true) ranges) [
        | none ↦ none
        | some more ↦ parse_ranges unset rgs more
      ]

abbrev node_with : Address → Bytes → Bytes → Option (List Range) → Option RedisNode
node_with addr node_id master_id none = none
node_with addr node_id master_id (some ranges) = some (record {
  addr = addr;
  node_id = node_id;
  master_id = if bytes_eq master_id (codes "-") then [] else master_id;
  slot_ranges = ranges;
})

unfoldable pub parse_node : ℤ → Bytes → Bytes → Bytes → List Bytes → Option RedisNode
unfolding from_host_port parse_ranges bytes_eq
parse_node unset address node_id master_id rgs = elim (from_host_port unset address) [
  | none ↦ none
  | some addr ↦ node_with addr node_id master_id (parse_ranges unset rgs [])
]

-- A server may leave its own host out.
abbrev with_host : Bytes → Bytes → RedisNode → RedisNode
with_host flags default_host node =
    if is_nil node.addr.host && finds flags (codes "myself")
    then record node { addr = record { host = default_host; port = node.addr.port } }
    else node

abbrev push_node : Bytes → Bytes → Option RedisNode → List RedisNode → List RedisNode
push_node flags default_host none nodes = nodes
push_node flags default_host (some node) nodes = with_host flags default_host node ∷ nodes

-- The nodes of a line and of those behind it.
unfoldable pub push_line : ℤ → Bytes → List Bytes → List RedisNode → List RedisNode
unfolding finds parse_node
push_line unset default_host cont nodes =
    let at = get_or cont in
    if ltb (length cont) 8 || finds (at 2 []) (codes "fail")
    then nodes
    else push_node (at 2 []) default_host
        (parse_node unset (at 1 []) (at 0 []) (at 3 []) (drop 8 cont)) nodes

unfoldable pub parse_lines : ℤ → Bytes → List Bytes → List RedisNode
unfolding split_str push_line
parse_lines unset default_host [] = []
parse_lines unset default_host (line ∷ lines) =
    push_line unset default_host (split_str line (codes " ") true)
      (parse_lines unset default_host lines)

unfoldable pub parse_slot_map : ℤ → Bytes → Bytes → List RedisNode
unfolding split_str parse_lines
parse_slot_map unset nodes_info default_host =
    parse_lines unset default_host (split_str nodes_info (codes "\n") true)
