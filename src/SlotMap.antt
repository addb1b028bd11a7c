-- ===== src/SlotMap.antt =====
-- core/slot_map.hpp and slot_map.cpp: `SlotMap`, with the allocation of servers from core/server.cpp.
-- Whether a connection can be opened is an argument.
pub mod Node
pub mod Close
pub mod Carries
pub mod Nodes
pub mod Mapped
use redis_cerberus.Prelude.{
  ℕ, zero, suc, ◌+◌, ◌-◌, Bool, true, false, not, ◌||◌, ◌&&◌, List, [], ◌∷◌, ◌++◌, Bytes, length,
  take, Option, none, some, bytes_eq, ltb, leb, if◌then◌else◌,
}
use redis_cerberus.Text.Address.{Address}
use redis_cerberus.Text.Compare.{stristartswith}
use redis_cerberus.Command.Parser.Keys.{is_nil}
use redis_cerberus.Command.Parser.Single.{cluster_slot_count}
use redis_cerberus.State.{Server, Proxy, set_server, update, insert, contains}
use redis_cerberus.Server.{close_conn, same_addr, erase_if}
use Node.{Range, RedisNode, is_master}

-- What the connections of a thread depend on: where a connection can be opened, and whether
-- `send_readonly_for_each_conn` was called.
pub record Network : Type 0 where
  pub connects : Address → Bool
  pub readonly : Bool

unfoldable pub find_addr : Address → List (Address × ℕ) → Option ℕ
find_addr a [] = none
find_addr a ((b, s) ∷ entries) = if same_addr a b then some s else find_addr a entries

unfoldable pub last_or : ℕ → List ℕ → ℕ
last_or d [] = d
last_or d (x ∷ xs) = last_or x xs

abbrev pub drop_last : List ℕ → List ℕ
drop_last xs = take (length xs - 1) xs

-- Eight more servers, with no descriptor, go to an empty pool.
abbrev pub fill_pool : Proxy → Proxy
fill_pool p =
    let n = p.next_server in
    if is_nil p.servers_pool
    then record p {
      servers_pool = n ∷ (n + 1) ∷ (n + 2) ∷ (n + 3) ∷ (n + 4) ∷ (n + 5) ∷ (n + 6) ∷ (n + 7) ∷ [];
      next_server = n + 8;
    }
    else p

-- `_reconnect`: READONLY is sent at once, and its response is for no command.
abbrev pub reconnect : Network → Address → ℕ → Proxy → Proxy
reconnect net a s p =
    let svr = p.servers s in
    let opened = record svr { closed = false; addr = a } in
    if net.connects a
    then set_server s
        (if net.readonly
          then record opened { sent_commands = svr.sent_commands ++ none ∷ [] }
          else opened)
        p
    else close_conn s (set_server s opened p)

-- `_alloc_server`. Where the connection fails `close_conn` has put the server into the pool again
-- before the last of the pool is removed, so it stays there.
unfoldable pub alloc_server : Network → Address → Proxy → Proxy × ℕ
unfolding close_conn last_or
alloc_server net a p =
    let q = fill_pool p in
    let s = last_or 0 q.servers_pool in
    let r = reconnect net a s q in (record r { servers_pool = drop_last r.servers_pool }, s)

-- `std::map::insert` keeps an entry that is there.
abbrev pub insert_server : Address → ℕ → List (Address × ℕ) → List (Address × ℕ)
insert_server a s entries = elim (find_addr a entries) [
  | none ↦ entries ++ (a, s) ∷ []
  | some t ↦ entries
]

abbrev pub new_server : Network → Address → Proxy → Proxy × ℕ
new_server net a p =
    let (q, s) = alloc_server net a p in
    (record q { servers_map = insert_server a s q.servers_map }, s)

unfoldable pub get_server : Network → Address → Proxy → Proxy × ℕ
unfolding find_addr alloc_server
get_server net a p = elim (find_addr a p.servers_map) [
  | none ↦ new_server net a p
  | some s ↦ (if (p.servers s).closed then new_server net a p else (p, s))
]

-- The proxy as slots are mapped, the servers that slots were taken from, and those that got some.
-- Null, which the source erases from the first set at the end, is left out of it.
pub record Mapping : Type 0 where
  pub proxy : Proxy
  pub removed : List ℕ
  pub new_mapped : List ℕ

abbrev pub insert_some : Option ℕ → List ℕ → List ℕ
insert_some none xs = xs
insert_some (some s) xs = insert s xs

unfoldable pub map_slot : ℕ → ℕ → Mapping → Mapping
map_slot server slot m = record {
  proxy = record m.proxy {
    server_map = update m.proxy.server_map slot (some server);
    faulted = m.proxy.faulted || leb cluster_slot_count slot;
  };
  removed = insert_some (m.proxy.server_map slot) m.removed;
  new_mapped = insert server m.new_mapped;
}

-- The loop from a slot on, by the number of slots that are left.
unfoldable pub map_range : ℕ → ℕ → ℕ → Mapping → Mapping
unfolding map_slot
map_range server slot zero m = m
map_range server slot (suc n) m = map_range server (suc slot) n (map_slot server slot m)

unfoldable pub map_ranges : ℕ → List Range → Mapping → Mapping
unfolding map_range
map_ranges server [] m = m
map_ranges server ((first, last) ∷ ranges) m =
    map_ranges server ranges (map_range server first (suc last - first) m)

abbrev pub map_node : Network → Address → List Range → Mapping → Mapping
map_node net a ranges m =
    let (q, s) = get_server net a m.proxy in map_ranges s ranges (record m { proxy = q })

-- The loop over the nodes, with the address by which each is to be reached.
unfoldable pub map_nodes : Network → (RedisNode → Address) → List RedisNode → Mapping → Mapping
unfolding get_server map_ranges
map_nodes net addr_of [] m = m
map_nodes net addr_of (node ∷ nodes) m =
    map_nodes net addr_of nodes
      (if is_nil node.slot_ranges then m else map_node net (addr_of node) node.slot_ranges m)

-- `slave_of_map`, newest entry first.
unfoldable pub slave_of : List (Bytes × RedisNode) → Bytes → Option RedisNode
slave_of [] id = none
slave_of ((master, node) ∷ entries) id =
    if bytes_eq master id then some node else slave_of entries id

abbrev pub preferred : Bytes → Option RedisNode → Bool
preferred beginning none = false
preferred beginning (some node) = stristartswith node.addr.host beginning

unfoldable pub slaves : Bytes → List RedisNode → List (Bytes × RedisNode) → List (Bytes × RedisNode)
unfolding slave_of stristartswith
slaves beginning [] entries = entries
slaves beginning (node ∷ nodes) entries = slaves beginning nodes (
    if is_master node || preferred beginning (slave_of entries node.master_id)
    then entries
    else (node.master_id, node) ∷ entries)

-- How a node is reached: `none` where slaves are not used, else the beginning of the hosts wanted.
unfoldable pub addr_for : Option Bytes → List RedisNode → RedisNode → Address
unfolding slaves
addr_for none nodes node = node.addr
addr_for (some beginning) nodes node = elim (slave_of (slaves beginning nodes []) node.node_id) [
  | none ↦ node.addr
  | some slave ↦ slave.addr
]

unfoldable pub close_all : List ℕ → Proxy → Proxy
unfolding close_conn
close_all [] p = p
close_all (s ∷ ss) p = close_all ss (close_conn s p)

-- `SlotMap::replace_map`: servers that lost their last slot are closed. The sets are in the order of
-- insertion and not of the pointers.
unfoldable pub replace_map : Network → Option Bytes → List RedisNode → Proxy → Proxy
unfolding map_nodes addr_for erase_if close_all contains
replace_map net slave nodes p =
    let m =
      map_nodes net (addr_for slave nodes) nodes
        (record { proxy = p; removed = []; new_mapped = [] }) in
    close_all (erase_if (contains m.new_mapped) m.removed) m.proxy

-- The servers of the slots below `n`.
unfoldable pub mapped_servers : ℕ → (ℕ → Option ℕ) → List ℕ
unfolding contains
mapped_servers zero f = []
mapped_servers (suc n) f = insert_some (f n) (mapped_servers n f)

-- `SlotMap::clear`.
unfoldable pub clear : Proxy → Proxy
unfolding mapped_servers close_all
clear p =
    let q = close_all (mapped_servers cluster_slot_count p.server_map) p in
    record q { server_map = λ _. none }
