-- ===== src/Proxy/SlotsMapUpdater.antt =====
-- core/proxy.cpp: `SlotsMapUpdater`, which asks a server for the slots of the cluster. An updater is
-- found by its number, among those that run and those that are finished.
pub mod Coverage
pub mod Receive
pub mod Finished
use redis_cerberus.Prelude.{
  ℕ, zero, suc, ◌-◌, Bool, true, false, List, [], ◌∷◌, ◌++◌, map, Bytes, codes, Option, none, some,
  ◌==◌, if◌then◌else◌,
}
use redis_cerberus.Prelude.Int.{ℤ}
use redis_cerberus.Text.Address.{Address, insert_address}
use redis_cerberus.Message.Outcome.{Outcome, ok}
use redis_cerberus.Buffer.{Answer}
use redis_cerberus.Buffer.Flush.{flush_mem}
use redis_cerberus.Command.Parser.Keys.{is_nil}
use redis_cerberus.Response.{Response, get_buffer, split_server_response}
use redis_cerberus.State.{Updater, Proxy, insert}
use redis_cerberus.SlotMap.Node.{Range, RedisNode}
use redis_cerberus.SlotMap.Nodes.{parse_slot_map}
use redis_cerberus.Client.{Input, Events, Handled}
use redis_cerberus.Subscription.{after_flush, program_ends}
use redis_cerberus.Proxy.{Settings, covered_slots, notify_slot_map_updated}

unfoldable pub find_updater : ℕ → List Updater → Option Updater
find_updater n [] = none
find_updater n (u ∷ us) = if u.number == n then some u else find_updater n us

abbrev pub replace : Updater → Updater → Updater
replace v u = if u.number == v.number then v else u

abbrev pub put_updater : Updater → Proxy → Proxy
put_updater v p = record p {
  slot_updaters = map (replace v) p.slot_updaters;
  finished_slot_updaters = map (replace v) p.finished_slot_updaters;
}

-- `_notify_updated`.
unfoldable pub notify_updated : Settings → Updater → Proxy → Proxy
notify_updated settings u p =
    let q = put_updater (record u { closed = true }) p in
    if u.proxy_already_updated
    then q
    else notify_slot_map_updated settings u.nodes u.remotes (covered_slots u) q

-- The loop over a range, by the number of slots that are left.
unfoldable pub cover_range : ℕ → ℕ → List ℕ → List ℕ
cover_range slot zero covered = covered
cover_range slot (suc n) covered = cover_range (suc slot) n (insert slot covered)

unfoldable pub cover_ranges : List Range → List ℕ → List ℕ
unfolding cover_range
cover_ranges [] covered = covered
cover_ranges ((first, last) ∷ ranges) covered =
    cover_ranges ranges (cover_range first (suc last - first) covered)

-- The body of the loop over the nodes, given whether the node's host is empty.
unfoldable pub note_node : Bool → RedisNode → Updater → Updater
unfolding cover_ranges
note_node true node u = u
note_node false node u = record u {
  covered = cover_ranges node.slot_ranges u.covered;
  remotes = insert_address node.addr u.remotes;
}

unfoldable pub note_nodes : List RedisNode → Updater → Updater
unfolding note_node
note_nodes [] u = u
note_nodes (node ∷ nodes) u = note_nodes nodes (note_node (is_nil node.addr.host) node u)

-- What one response makes of the updater.
unfoldable pub read_nodes : ℤ → Response → Updater → Updater
read_nodes unset rsp u =
    let nodes = parse_slot_map unset (get_buffer rsp) u.addr.host in
    note_nodes nodes (record u { nodes = nodes })

-- `_recv_rsp`, with the answer to the `BadRedisMessage` that it may throw.
unfoldable pub recv_rsp : Settings → Updater → Outcome (List Response × Bytes) → Proxy → Proxy
recv_rsp settings u (ok ([], rest)) p = put_updater (record u { rsp = rest }) p
recv_rsp settings u (ok (r ∷ [], rest)) p =
    notify_updated settings (read_nodes settings.environment.unset r (record u { rsp = rest })) p
recv_rsp settings u (ok (r ∷ s ∷ rs, rest)) p = notify_updated settings (record u { rsp = rest }) p
recv_rsp settings u _ p = notify_updated settings u p

-- An end of the input is taken for no bytes.
unfoldable pub read_updater : Settings → Updater → Input → Proxy → Handled
unfolding recv_rsp
read_updater settings u Input.fails p = (p, true)
read_updater settings u (Input.bytes bs) p =
    (recv_rsp settings u (split_server_response (u.rsp ++ bs)) p, false)

-- `CLUSTER_NODES_CMD`.
abbrev pub cluster_nodes_cmd : Bytes
cluster_nodes_cmd = codes "*2\r\n$7\r\ncluster\r\n$5\r\nnodes\r\n"

-- `_send_cmd`, with `write_slot_map_cmd_to`.
unfoldable pub send_cmd : List Answer → Proxy → Handled
unfolding flush_mem
send_cmd answers p = after_flush (flush_mem cluster_nodes_cmd answers).status p

-- `on_events` of an updater whose descriptor is open or not.
unfoldable pub on_updater_events :
    Settings → Updater → Events → Input → List Answer → Proxy → Handled
unfolding notify_updated send_cmd read_updater
on_updater_events settings u events input answers p =
    if events.hup
    then (notify_updated settings u p, false)
    else if events.writable
    then (if u.closed then (program_ends p, false) else send_cmd answers p)
    else if events.readable
    then (if u.closed then (program_ends p, false) else read_updater settings u input p)
    else (p, false)

-- With what the event loop does where an `IOErrorBase` leaves the handler: `on_error` is
-- `_notify_updated`.
unfoldable pub handle_updater : Settings → ℕ → Events → Input → List Answer → Proxy → Handled
unfolding find_updater on_updater_events notify_updated
handle_updater settings n events input answers p =
    elim (find_updater n (p.slot_updaters ++ p.finished_slot_updaters)) [
      | none ↦ (record p { faulted = true }, false)
      | some u ↦
          (let (q, failed) = on_updater_events settings u events input answers p in
            if failed then (notify_updated settings u q, true) else (q, false))
    ]
