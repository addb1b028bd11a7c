-- ===== src/Tests/Thread.antt =====
-- Runs of the handlers of a thread, and the theorems about them at concrete states.
use mathlib.Core.List.{Memᴰ}
use redis_cerberus.Prelude.{
  ℕ, zero, suc, ◌==◌, ◌++◌, map, Bool, Option, if◌then◌else◌, true, false, List, [], ◌∷◌, none,
  some, codes, ◌≡◌, refl, arith, inl,
}
use redis_cerberus.Prelude.Int.{pos}
use redis_cerberus.Message.Outcome.{ok}
use redis_cerberus.Response.{normal}
use redis_cerberus.Buffer.{Answer, room}
use redis_cerberus.SlotMap.{map_ranges}
use redis_cerberus.SlotMap.Mapped.{covers, map_ranges-server_map}
use redis_cerberus.State.{
  LongConnection, one_slot, CommandRef, CommandGroup, GroupState, Client, Server, Proxy, update,
  contains,
}
use redis_cerberus.State.Queues.{command_in}
use redis_cerberus.Client.{Events}
use redis_cerberus.Server.{goes_on, recv_from, destroy_client}
use redis_cerberus.Server.Pairing.{Joins, left_after, unanswered, recv_from-Joins}
use redis_cerberus.Server.Waits.{Waits}
use redis_cerberus.Server.Destroy.{HeldByPeers, at_server, Outlives, destroy_client-Outlives}
use redis_cerberus.SlotMap.Node.{RedisNode}
use redis_cerberus.Proxy.Retry.{set_slot_map-Waits}
use redis_cerberus.Proxy.{
  Settings, all_closed, max_covered, candidate, set_slot_map, update_slot_map_failed,
}
use redis_cerberus.Proxy.Update.{IsDiscarded, update_slot_map_failed-IsDiscarded}

abbrev pub idle_client : Client
idle_client = record {
  closed = false;
  peers = [];
  parsed_groups = [];
  awaiting_groups = [];
  ready_groups = [];
  awaiting_count = pos 0;
  buffer = [];
  output = record { buf_arr = []; first_offset = 0 };
  written = [];
}

abbrev pub idle_server : Server
idle_server = record {
  closed = false;
  addr = record { host = codes "10.0.0.1"; port = pos 6379 };
  buffer = [];
  output = record { buf_arr = []; first_offset = 0 };
  commands = [];
  sent_commands = [];
  long_connections = [];
}

abbrev no_group : CommandGroup
no_group = record { client = 0; state = GroupState.direct [] }

abbrev group_of_client : ℕ → GroupState → CommandGroup
group_of_client c s = record { client = c; state = s }

-- Client 0 has a GET that waits, of group 0, with a PING behind it that is parsed, of group 1.
abbrev groups : ℕ → CommandGroup
groups =
    update
      (update (λ _. no_group) 0
        (group_of_client 0 (
          GroupState.single (one_slot (record { buffer = codes "$1\r\n7\r\n"; key_slot = 5 }))
            true)))
      1 (group_of_client 0 (GroupState.direct (codes "+PONG\r\n")))

abbrev waiting_client : Client
waiting_client = record idle_client {
  parsed_groups = 1 ∷ [];
  awaiting_groups = 0 ∷ [];
  output = record { buf_arr = codes "+OK\r\n" ∷ []; first_offset = 2 };
  written = codes "+O";
}

abbrev pub gone_connection : LongConnection
gone_connection = record {
  of_client = 0;
  server = 0;
  command = [];
  pops = false;
  closed = true;
  server_closed = true;
  buffer = [];
  written = [];
  deleted = true;
}

abbrev pub thread : Proxy
thread = record {
  clients = update (λ _. idle_client) 0 waiting_client;
  servers = λ _. idle_server;
  groups = groups;
  next_group = 2;
  server_map = λ _. some 0;
  retrying_commands = [];
  conn_poll_type = λ _. none;
  long_connections = λ _. gone_connection;
  next_long_connection = 0;
  inactive_long_connections = [];
  servers_map = (idle_server.addr, 0) ∷ [];
  servers_pool = [];
  next_server = 1;
  slot_updaters = [];
  finished_slot_updaters = [];
  next_updater = 0;
  cluster_ok = true;
  slot_map_expired = false;
  fd_closed = false;
  accepting = true;
  clients_count = pos 1;
  long_conns_count = pos 0;
  effects = [];
  faulted = false;
  terminated = false;
  blocked = false;
}

-- Client 0's GET was sent to server 0, which has a second command to send.
abbrev pub get : CommandRef
get = record { group = 0; place = 0 }

abbrev pub busy_server : Server
busy_server = record idle_server { commands = get ∷ []; sent_commands = some get ∷ none ∷ [] }

abbrev pub busy_thread : Proxy
busy_thread = record thread { servers = update (λ _. idle_server) 0 busy_server }

recv_from-Joins_example :
    let q = (recv_from 0 (ok (normal (codes ":7\r\n") false ∷ [], [])) busy_thread).0 in
    ((recv_from 0 (ok (normal (codes ":7\r\n") false ∷ [], [])) busy_thread).1 ≡ goes_on)
    × Joins (left_after 1 0 0 busy_thread) (unanswered 0 q)
    × ((more : List CommandRef) × (q.retrying_commands ≡ more))
recv_from-Joins_example =
    recv_from-Joins 0 0 (normal (codes ":7\r\n") false ∷ []) [] busy_thread (omega arith)

abbrev hung_up : Events
hung_up = record { hup = true; readable = false; writable = false }

abbrev pub settings : Settings
settings = record {
  network = record { connects = λ _. false; readonly = false };
  slave = none;
  req_full_cov = false;
  iov_max = 1024;
  environment = record { writes = true; unset = pos 0; random_slot = 0; stats = [] };
}

abbrev failed_thread : Proxy
failed_thread = record busy_thread {
  retrying_commands = get ∷ [];
  slot_updaters =
      (record {
        number = 0;
        addr = idle_server.addr;
        rsp = [];
        closed = true;
        proxy_already_updated = false;
        nodes = [];
        remotes = [];
        covered = [];
      })
      ∷ [];
}

update_slot_map_failed-IsDiscarded_example :
    IsDiscarded 5 failed_thread (update_slot_map_failed settings failed_thread)
unfolding all_closed candidate max_covered
update_slot_map_failed-IsDiscarded_example =
    update_slot_map_failed-IsDiscarded settings 5 failed_thread (omega arith) refl refl

-- Server 0 is a peer of client 0 here.
abbrev known_thread : Proxy
known_thread = record busy_thread {
  clients = update (λ _. idle_client) 0 (record waiting_client { peers = 0 ∷ [] });
}

abbrev held_by : Server → List (Option CommandRef)
held_by svr = svr.sent_commands ++ map some svr.commands

only_busy :
    (b : Bool) → b ≡ false → Memᴰ (some get) (held_by (if b then busy_server else idle_server)) → ⊥
only_busy true e m = absurd (ground arith)
only_busy false e m = elim m [ ]

get-HeldByPeers : HeldByPeers 0 get known_thread
unfolding contains
get-HeldByPeers zero m = refl
get-HeldByPeers (suc s) m =
    let other : (0 == suc s) ≡ false = ground arith in absurd (only_busy (0 == suc s) other m)

destroy_client-Outlives_example : Outlives true (at_server 0) get (destroy_client 0 known_thread)
destroy_client-Outlives_example =
    destroy_client-Outlives 0 (at_server 0) get known_thread (Memᴰ.head refl) (λ _. get-HeldByPeers)

abbrev one_node : List RedisNode
one_node =
    (record {
      addr = record { host = codes "10.0.0.2"; port = pos 6379 };
      node_id = codes "a";
      master_id = [];
      slot_ranges = (0, 9) ∷ [];
    })
    ∷ []

set_slot_map-Waits_example : Waits get (set_slot_map settings one_node [] failed_thread)
unfolding command_in
set_slot_map-Waits_example =
    set_slot_map-Waits settings one_node [] get
      (one_slot (record { buffer = codes "$1\r\n7\r\n"; key_slot = 5 })) failed_thread refl
      (inl (Memᴰ.head refl))

abbrev trickle : List Answer
trickle = room 1 ∷ room 1 ∷ room 1 ∷ room 1 ∷ []

map_ranges-server_map_example :
    (map_ranges 7
        ((0, 4) ∷ (9, 9) ∷ [])
        (record { proxy = thread; removed = []; new_mapped = [] })).proxy.server_map
      9
    ≡ some 7
unfolding covers
map_ranges-server_map_example =
    map_ranges-server_map 7 ((0, 4) ∷ (9, 9) ∷ [])
      (record { proxy = thread; removed = []; new_mapped = [] }) 9
