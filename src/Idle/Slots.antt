-- ===== src/Idle/Slots.antt =====
-- core/slot_map.cpp, server.cpp and proxy.cpp: the update of the slot map leaves closed servers without
-- commands.
use redis_cerberus.Prelude.{
  ◌+◌, length, Bytes, ℕ, zero, suc, ◌-◌, true, false, ltb, List, [], ◌∷◌, ◌++◌, Option, none, some,
  if◌then◌else◌, ◌≡◌, refl, if-both,
}
use redis_cerberus.Text.Address.{Address}
use redis_cerberus.Command.Parser.Admin.{set_remotes}
use redis_cerberus.Command.Parser.Keys.{is_nil}
use redis_cerberus.Command.Parser.Single.{cluster_slot_count}
use redis_cerberus.SlotMap.Node.{Range, RedisNode}
use redis_cerberus.SlotMap.{
  Network, fill_pool, last_or, reconnect, alloc_server, new_server, get_server, find_addr, Mapping,
  map_slot, map_range, map_ranges, map_node, map_nodes, addr_for, close_all, replace_map,
  mapped_servers, clear,
}
use redis_cerberus.State.{CommandRef, Server, Proxy, Updater, set_server, contains}
use redis_cerberus.State.Queues.{select_server}
use redis_cerberus.Server.{close_conn, erase_if}
use redis_cerberus.Client.Responses.{on_remote_responsed}
use redis_cerberus.Proxy.{
  Settings, retry_commands, set_slot_map, cluster_down, discard_commands, all_closed,
  move_closed_slot_updaters, discard_all, candidate, update_slot_map_failed,
  notify_slot_map_updated, open_updaters, retrieve_slot_map,
}
use redis_cerberus.Idle.{IsIdle, set_open-IsIdle, select_server-IsIdle}
use redis_cerberus.Idle.Answers.{on_remote_responsed-IsIdle}
use redis_cerberus.Idle.Servers.{close_conn-IsIdle}

fill_pool-IsIdle : (p : Proxy) → IsIdle p → IsIdle (fill_pool p)
fill_pool-IsIdle p idle = if-both IsIdle (is_nil p.servers_pool) _ p idle idle

module _ (net : Network) where
  reconnect-IsIdle : (a : Address) (s : ℕ) (p : Proxy) → IsIdle p → IsIdle (reconnect net a s p)
  reconnect-IsIdle a s p idle =
      let svr = p.servers s in
      let opened = record svr { closed = false; addr = a } in
      let asked = record opened { sent_commands = svr.sent_commands ++ none ∷ [] } in
      let up = if net.readonly then asked else opened in
      let is_open =
        if-both (λ (t : Server). t.closed ≡ false) net.readonly asked opened refl refl in
      if-both IsIdle (net.connects a) (set_server s up p) (close_conn s (set_server s opened p))
        (set_open-IsIdle s up p is_open idle)
        (close_conn-IsIdle s (set_server s opened p) (set_open-IsIdle s opened p refl idle))

  alloc_server-IsIdle : (a : Address) (p : Proxy) → IsIdle p → IsIdle (alloc_server net a p).0
  unfolding alloc_server
  alloc_server-IsIdle a p idle =
      let q = fill_pool p in
      reconnect-IsIdle a (last_or 0 q.servers_pool) q (fill_pool-IsIdle p idle)

  get_server-IsIdle : (a : Address) (p : Proxy) → IsIdle p → IsIdle (get_server net a p).0
  unfolding get_server
  get_server-IsIdle a p idle = found (find_addr a p.servers_map)
    where
      found :
          (o : Option ℕ)
          → (let r : Proxy × ℕ = elim o [
            | none ↦ new_server net a p
            | some s ↦ (if (p.servers s).closed then new_server net a p else (p, s))
          ] in
              IsIdle r.0)
      found none = alloc_server-IsIdle a p idle
      found (some s) =
          if-both (λ (r : Proxy × ℕ). IsIdle r.0) (p.servers s).closed (new_server net a p) (p, s)
            (alloc_server-IsIdle a p idle) idle

  map_range-IsIdle :
      (s slot n : ℕ) (m : Mapping) → IsIdle m.proxy → IsIdle (map_range s slot n m).proxy
  unfolding map_range map_slot
  map_range-IsIdle s slot zero m idle = idle
  map_range-IsIdle s slot (suc n) m idle = map_range-IsIdle s (suc slot) n (map_slot s slot m) idle

  map_ranges-IsIdle :
      (s : ℕ) (ranges : List Range) (m : Mapping)
      → IsIdle m.proxy
      → IsIdle (map_ranges s ranges m).proxy
  unfolding map_ranges
  map_ranges-IsIdle s [] m idle = idle
  map_ranges-IsIdle s ((first, last) ∷ ranges) m idle =
      map_ranges-IsIdle s ranges (map_range s first (suc last - first) m)
        (map_range-IsIdle s first (suc last - first) m idle)

  map_node-IsIdle :
      (a : Address) (ranges : List Range) (m : Mapping)
      → IsIdle m.proxy
      → IsIdle (map_node net a ranges m).proxy
  map_node-IsIdle a ranges m idle =
      let r = get_server net a m.proxy in
      map_ranges-IsIdle r.1 ranges (record m { proxy = r.0 }) (get_server-IsIdle a m.proxy idle)

  map_nodes-IsIdle :
      (addr_of : RedisNode → Address) (nodes : List RedisNode) (m : Mapping)
      → IsIdle m.proxy
      → IsIdle (map_nodes net addr_of nodes m).proxy
  unfolding map_nodes
  map_nodes-IsIdle addr_of [] m idle = idle
  map_nodes-IsIdle addr_of (node ∷ nodes) m idle =
      let mapped = map_node net (addr_of node) node.slot_ranges m in
      let next = if is_nil node.slot_ranges then m else mapped in
      map_nodes-IsIdle addr_of nodes next (
        if-both (λ (m : Mapping). IsIdle m.proxy) (is_nil node.slot_ranges) m mapped idle
          (map_node-IsIdle (addr_of node) node.slot_ranges m idle))

close_all-IsIdle : (ss : List ℕ) (p : Proxy) → IsIdle p → IsIdle (close_all ss p)
unfolding close_all
close_all-IsIdle [] p idle = idle
close_all-IsIdle (s ∷ ss) p idle = close_all-IsIdle ss (close_conn s p) (close_conn-IsIdle s p idle)

replace_map-IsIdle :
    (net : Network) (slave : Option Bytes) (nodes : List RedisNode) (p : Proxy)
    → IsIdle p
    → IsIdle (replace_map net slave nodes p)
unfolding replace_map
replace_map-IsIdle net slave nodes p idle =
    let m : Mapping = record { proxy = p; removed = []; new_mapped = [] } in
    let mapped = map_nodes net (addr_for slave nodes) nodes m in
    close_all-IsIdle (erase_if (contains mapped.new_mapped) mapped.removed) mapped.proxy
      (map_nodes-IsIdle net (addr_for slave nodes) nodes m idle)

clear-IsIdle : (p : Proxy) → IsIdle p → IsIdle (clear p)
unfolding clear
clear-IsIdle p idle = close_all-IsIdle (mapped_servers cluster_slot_count p.server_map) p idle

retry_commands-IsIdle : (cs : List CommandRef) (p : Proxy) → IsIdle p → IsIdle (retry_commands cs p)
unfolding retry_commands
retry_commands-IsIdle [] p idle = idle
retry_commands-IsIdle (c ∷ cs) p idle =
    let r = select_server c p in
    retry_commands-IsIdle cs _ (marked r.0 r.1 (select_server-IsIdle c p idle))
  where
    marked :
        (q : Proxy) (o : Option ℕ)
        → IsIdle q
        → IsIdle (elim o [ none ↦ record q { slot_map_expired = true } | some s ↦ q ])
    marked q none idle = idle
    marked q (some s) idle = idle

module _ (settings : Settings) where
  set_slot_map-IsIdle :
      (nodes : List RedisNode) (remotes : List Address) (p : Proxy)
      → IsIdle p
      → IsIdle (set_slot_map settings nodes remotes p)
  unfolding set_slot_map
  set_slot_map-IsIdle nodes remotes p idle =
      let q = replace_map settings.network settings.slave nodes p in
      retry_commands-IsIdle q.retrying_commands
        (record q {
          slot_map_expired = false;
          cluster_ok = true;
          effects = q.effects ++ set_remotes remotes ∷ [];
          retrying_commands = [];
        })
        (replace_map-IsIdle settings.network settings.slave nodes p idle)

  discard_commands-IsIdle :
      (cs : List CommandRef) (p : Proxy) → IsIdle p → IsIdle (discard_commands cs p)
  unfolding discard_commands
  discard_commands-IsIdle [] p idle = idle
  discard_commands-IsIdle (c ∷ cs) p idle =
      discard_commands-IsIdle cs (on_remote_responsed c cluster_down true p)
        (on_remote_responsed-IsIdle c cluster_down true p idle)

  discard_all-IsIdle : (p : Proxy) → IsIdle p → IsIdle (discard_all p)
  unfolding discard_all
  discard_all-IsIdle p idle =
      let begun = record (move_closed_slot_updaters p) { cluster_ok = false } in
      let q = clear begun in
      discard_commands-IsIdle q.retrying_commands (record q { retrying_commands = [] })
        (clear-IsIdle begun idle)

  pub update_slot_map_failed-IsIdle :
      (p : Proxy) → IsIdle p → IsIdle (update_slot_map_failed settings p)
  unfolding update_slot_map_failed
  update_slot_map_failed-IsIdle p idle =
      if-both IsIdle (all_closed p.slot_updaters)
        (chosen (candidate settings.req_full_cov p.slot_updaters)) p
        (chosen-IsIdle (candidate settings.req_full_cov p.slot_updaters)) idle
    where
      chosen : Option Updater → Proxy
      chosen o = elim o [
        | none ↦ discard_all p
        | some u ↦ move_closed_slot_updaters (set_slot_map settings u.nodes u.remotes p)
      ]

      chosen-IsIdle : (o : Option Updater) → IsIdle (chosen o)
      chosen-IsIdle none = discard_all-IsIdle p idle
      chosen-IsIdle (some u) = set_slot_map-IsIdle u.nodes u.remotes p idle

  pub notify_slot_map_updated-IsIdle :
      (nodes : List RedisNode) (remotes : List Address) (covered : ℕ) (p : Proxy)
      → IsIdle p
      → IsIdle (notify_slot_map_updated settings nodes remotes covered p)
  unfolding notify_slot_map_updated
  notify_slot_map_updated-IsIdle nodes remotes covered p idle =
      if-both IsIdle (ltb covered cluster_slot_count) (update_slot_map_failed settings p)
        (move_closed_slot_updaters (set_slot_map settings nodes remotes p))
        (update_slot_map_failed-IsIdle p idle) (set_slot_map-IsIdle nodes remotes p idle)

  pub retrieve_slot_map-IsIdle :
      (remotes : List Address) (p : Proxy)
      → IsIdle p
      → IsIdle (retrieve_slot_map settings remotes p)
  unfolding retrieve_slot_map
  retrieve_slot_map-IsIdle remotes p idle =
      let us = p.slot_updaters ++ open_updaters settings.network.connects p.next_updater remotes in
      let q = record p { slot_updaters = us; next_updater = p.next_updater + length remotes } in
      if-both IsIdle (is_nil remotes) (update_slot_map_failed settings p)
        (if is_nil us then update_slot_map_failed settings q else q)
        (update_slot_map_failed-IsIdle p idle)
        (if-both IsIdle (is_nil us) (update_slot_map_failed settings q) q
          (update_slot_map_failed-IsIdle q idle) idle)
