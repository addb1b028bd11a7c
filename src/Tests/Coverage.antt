-- ===== src/Tests/Coverage.antt =====
-- The nodes that updaters receive, at concrete states.
use redis_cerberus.Prelude.{ℕ, ◌<◌, true, false, List, [], ◌∷◌, codes, ◌≡◌, refl, arith}
use redis_cerberus.Prelude.Int.{pos}
use redis_cerberus.Command.Parser.Single.{cluster_slot_count}
use redis_cerberus.Message.Outcome.{ok}
use redis_cerberus.Response.{Response, normal}
use redis_cerberus.State.{Updater, Proxy}
use redis_cerberus.SlotMap.Node.{RedisNode}
use redis_cerberus.SlotMap.Nodes.{parse_slot_map}
use redis_cerberus.SlotMap.Mapped.{covers}
use redis_cerberus.Proxy.{move_closed_slot_updaters, set_slot_map, update_slot_map_failed}
use redis_cerberus.Proxy.SlotsMapUpdater.{put_updater, recv_rsp}
use redis_cerberus.Proxy.SlotsMapUpdater.Coverage.{named_covers}
use redis_cerberus.Proxy.SlotsMapUpdater.Receive.{
  nodes_in, received, recv_rsp-full, recv_rsp-partial,
}
use redis_cerberus.Tests.Thread.{thread, settings, idle_server}

abbrev updater : Updater
updater = record {
  number = 0;
  addr = idle_server.addr;
  rsp = [];
  closed = false;
  proxy_already_updated = false;
  nodes = [];
  remotes = [];
  covered = [];
}

abbrev updating_thread : Proxy
updating_thread = record thread { slot_updaters = updater ∷ [] }

-- A node that has all slots, and one that has a few.
abbrev whole : Response
whole = normal (codes "a h:7000 master - 0 0 0 connected 0-16383\n") false

abbrev few : Response
few = normal (codes "a h:7000 master - 0 0 0 connected 0-99\n") false

abbrev node_with_slots : ℕ → List RedisNode
node_with_slots last =
    (record {
      addr = record { host = codes "h"; port = pos 7000 };
      node_id = codes "a";
      master_id = [];
      slot_ranges = (0, last) ∷ [];
    })
    ∷ []

whole_nodes : nodes_in settings updater whole ≡ node_with_slots 16383
unfolding parse_slot_map
whole_nodes = refl

few_nodes : nodes_in settings updater few ≡ node_with_slots 99
unfolding parse_slot_map
few_nodes = refl

whole_covers :
    (slot : ℕ)
    → slot < cluster_slot_count
    → named_covers (nodes_in settings updater whole) slot ≡ true
unfolding named_covers covers
whole_covers slot h = rw whole_nodes (ground arith)

few_covers :
    (slot : ℕ)
    → named_covers (nodes_in settings updater few) slot ≡ true
    → slot < cluster_slot_count
unfolding named_covers covers
few_covers slot h = let k = rw few_nodes at h in ground arith

recv_rsp-full_example :
    recv_rsp settings updater (ok (whole ∷ [], [])) updating_thread
    ≡ move_closed_slot_updaters (
        set_slot_map settings
          (nodes_in settings updater whole)
          (received settings updater [] whole).remotes
          (put_updater (received settings updater [] whole) updating_thread))
recv_rsp-full_example =
    recv_rsp-full settings updater whole [] updating_thread refl refl whole_covers

recv_rsp-partial_example :
    recv_rsp settings updater (ok (few ∷ [], [])) updating_thread
    ≡ update_slot_map_failed settings
        (put_updater (received settings updater [] few) updating_thread)
unfolding named_covers covers
recv_rsp-partial_example =
    recv_rsp-partial settings updater few [] updating_thread refl refl 100 (omega arith)
      (rw few_nodes refl) few_covers
