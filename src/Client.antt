-- ===== src/Client.antt =====
-- core/client.cpp: the handlers of a client's connection. What the socket gives and takes at each
-- call is an argument.
pub mod Responses
pub mod Frame
pub mod Order
pub mod Process
pub mod Delivery
pub mod Grows
pub mod Progress
pub mod Gather
pub mod Answers
pub mod Queued
pub mod Renames
pub mod Calm
use redis_cerberus.Prelude.{
  ℕ, zero, suc, ◌+◌, min, Bool, true, false, not, ◌||◌, ◌&&◌, List, [], ◌∷◌, ◌++◌, Bytes, length,
  take, drop, Option, none, some, if◌then◌else◌,
}
use redis_cerberus.Prelude.Int.{ℤ, pos}
use redis_cerberus.Message.Outcome.{Outcome, ok}
use redis_cerberus.Buffer.{
  Answer, Status, complete, later, threw, exhausted, BufferSet, Writing, writev,
}
use redis_cerberus.Command.Group
use redis_cerberus.Command.Group.{Group, OneSlotCommand, Multiple}
use redis_cerberus.Command.Parser.Keys.{is_nil}
use redis_cerberus.Command.Parser.Rename.{rename_command}
use redis_cerberus.Command.Parser.Admin.{Effect, set_remotes, update_slot_map}
use redis_cerberus.Command.Splitter.{Environment, split_client_command}
use redis_cerberus.State.{
  CommandRef, DataCommand, one_slot, multi_steps, Gathering, GroupState, direct, single, multiple,
  subscribe, blocked_pop, CommandGroup, LongConnection, Client, Server, Proxy, client_connection,
  server_connection, set_client, set_server, set_group, update, set_conn_poll_rw, set_conn_poll_ro,
  incr, is_zero, is_positive,
}
use redis_cerberus.State.Queues.{get_server_by_slot, select_remote}
use redis_cerberus.Client.Responses.{push_awaitings_to_ready}

-- The proxy after a handler, and whether an `IOErrorBase` leaves it.
abbrev pub Handled : Type 0
Handled = Proxy × Bool

-- The group that the splitter made, as an object of its class.
unfoldable pub new_group : Group → GroupState
new_group (Group.direct b) = direct b
new_group (Group.single c) = single (one_slot c) false
new_group (Group.rename old new src dst) =
    single (multi_steps (rename_command old new src dst)) false
new_group (Group.multiple kind cs) =
    multiple kind
      (record { arr_payload = []; commands = cs; awaiting_count = length cs; complete = false })
new_group (Group.subscribe b) = subscribe b
new_group (Group.blocked_pop b s) = blocked_pop b s

unfoldable pub push_command : ℕ → Group → Proxy → Proxy
unfolding new_group
push_command c g p =
    let cl = p.clients c in
    set_client c (record cl { parsed_groups = cl.parsed_groups ++ p.next_group ∷ [] })
      (record p {
        groups = update p.groups p.next_group (record { client = c; state = new_group g });
        next_group = suc p.next_group;
      })

unfoldable pub push_commands : ℕ → List Group → Proxy → Proxy
unfolding push_command
push_commands c [] p = p
push_commands c (g ∷ gs) p = push_commands c gs (push_command c g p)

abbrev pub is_long : GroupState → Bool
is_long (subscribe _) = true
is_long (blocked_pop _ _) = true
is_long _ = false

abbrev pub waits_remote : GroupState → Bool
waits_remote (single _ _) = true
waits_remote (multiple _ _) = true
waits_remote _ = false

abbrev pub close : ℕ → Proxy → Proxy
close c p = set_client c (record (p.clients c) { closed = true }) p

-- `new Subscription` or `new BlockedListPop`, which take the descriptor over and attach themselves to
-- the server.
unfoldable pub convert : ℕ → ℕ → Bytes → Bool → Proxy → Proxy
convert c s command pops p =
    let svr = p.servers s in
    let q =
      set_server s
        (record svr { long_connections = svr.long_connections ++ p.next_long_connection ∷ [] }) p in
    record q {
      long_connections = update p.long_connections p.next_long_connection (record {
        of_client = c;
        server = s;
        command = command;
        pops = pops;
        closed = false;
        server_closed = false;
        buffer = [];
        written = [];
        deleted = false;
      });
      next_long_connection = suc p.next_long_connection;
      long_conns_count = incr p.long_conns_count;
    }

-- The client has no descriptor afterwards in any case. The random slot is that of
-- `SlotMap::random_addr`, which may give a closed server.
unfoldable pub deliver_client : ℕ → ℕ → GroupState → Proxy → Proxy
unfolding convert get_server_by_slot
deliver_client random_slot c (subscribe b) p = elim (p.server_map random_slot) [
  | none ↦ close c p
  | some s ↦ close c (convert c s b false p)
]
deliver_client random_slot c (blocked_pop b slot) p = elim (get_server_by_slot slot p) [
  | none ↦ close c p
  | some s ↦ close c (convert c s b true p)
]
deliver_client random_slot c _ p = p

-- `MAX_PIPE`.
abbrev pub max_pipe : ℕ
max_pipe = 64

abbrev pub await : ℕ → ℕ → Proxy → Proxy
await c g p =
    let cl = p.clients c in
    set_client c (record cl { awaiting_groups = cl.awaiting_groups ++ g ∷ [] }) p

abbrev pub count_awaiting : ℕ → Proxy → Proxy
count_awaiting c p =
    let cl = p.clients c in set_client c (record cl { awaiting_count = incr cl.awaiting_count }) p

unfoldable pub process_group : ℕ → ℕ → Proxy → Proxy
unfolding select_remote
process_group c g p =
    let s = (p.groups g).state in
    await c g (if waits_remote s then select_remote g s (count_awaiting c p) else p)

-- The loop over the first groups. A group for a long connection ends it: the client is given up.
unfoldable pub process_groups : ℕ → ℕ → List ℕ → Proxy → Proxy × Bool
unfolding process_group deliver_client
process_groups random_slot c [] p = (p, false)
process_groups random_slot c (g ∷ gs) p =
    let s = (p.groups g).state in
    let rest = process_groups random_slot c gs (process_group c g p) in
    if is_long s then (close c (deliver_client random_slot c s p), true) else rest

unfoldable pub watch_peers : List ℕ → Proxy → Proxy
watch_peers [] p = p
watch_peers (s ∷ ss) p = watch_peers ss (set_conn_poll_rw (server_connection s) p)

-- Behind the loop of `_process`.
unfoldable pub process_end : ℕ → Proxy → Proxy
unfolding watch_peers push_awaitings_to_ready
process_end c p =
    let cl = p.clients c in
    let q = set_client c (record cl { parsed_groups = drop max_pipe cl.parsed_groups }) p in
    if is_positive cl.awaiting_count then watch_peers cl.peers q else push_awaitings_to_ready c q

unfoldable pub process : ℕ → ℕ → Proxy → Proxy
unfolding process_groups process_end
process random_slot c p =
    let (q, left) = process_groups random_slot c (take max_pipe (p.clients c).parsed_groups) p in
    if left then q else process_end c q

-- What `writev` did to the output.
abbrev pub wrote : ℕ → Writing → Proxy → Proxy
wrote c w p =
    let cl = p.clients c in
    set_client c (record cl { output = w.buffers; written = cl.written ++ w.sent }) p

abbrev pub all_sent : ℕ → Proxy → Proxy
all_sent c p =
    let cl = p.clients c in
    set_client c
      (record cl { ready_groups = []; peers = if is_nil cl.awaiting_groups then [] else cl.peers })
      p

unfoldable pub after_writev : ℕ → ℕ → Writing → Status → Proxy → Handled
unfolding process
after_writev random_slot c w complete p =
    let q = all_sent c (wrote c w p) in
    (if is_nil (q.clients c).parsed_groups then q else process random_slot c q, false)
after_writev random_slot c w threw p = (wrote c w p, true)
after_writev random_slot c w _ p = (wrote c w p, false)

-- The loop of `writev` has a round for each buffer. A write with no descriptor is a `SystemError`
-- (EBADF), which nothing catches but the thread, to end the program.
unfoldable pub send_buffer_set : ℕ → ℕ → ℕ → List Answer → Proxy → Handled
unfolding writev after_writev
send_buffer_set iov_max random_slot c answers p =
    let cl = p.clients c in
    let out = cl.output in
    let w = writev iov_max (length out.buf_arr) out.buf_arr out.first_offset answers in
    if cl.closed && not (is_nil out.buf_arr)
    then (record p { terminated = true }, false)
    else after_writev random_slot c w w.status p

-- `_write_response`, with what the socket answers to each of the two calls of `writev`.
unfoldable pub write_first : ℕ → ℕ → ℕ → List Answer → Proxy → Handled
unfolding send_buffer_set
write_first iov_max random_slot c answers p =
    if is_nil (p.clients c).output.buf_arr
    then (p, false)
    else send_buffer_set iov_max random_slot c answers p

unfoldable pub write_response : ℕ → ℕ → ℕ → List Answer → List Answer → Proxy → Handled
unfolding write_first send_buffer_set push_awaitings_to_ready
write_response iov_max random_slot c first second p =
    let (q, failed) = write_first iov_max random_slot c first p in
    let cl = q.clients c in
    if failed || is_nil cl.awaiting_groups || not (is_zero cl.awaiting_count)
    then (q, failed)
    else send_buffer_set iov_max random_slot c second (push_awaitings_to_ready c q)

-- What `Buffer::read` brought, or the error it threw.
pub data Input : Type 0 where
  bytes : Bytes → Input
  fails : Input

-- Whether `notify_each_thread_update_slot_map` was called.
unfoldable pub asks_update : List Effect → Bool
asks_update [] = false
asks_update (update_slot_map ∷ effects) = true
asks_update (set_remotes remotes ∷ effects) = asks_update effects

-- The effects on the proxies of all threads are kept, in order; that on this one is done.
abbrev pub take_effects : List Effect → Proxy → Proxy
take_effects effects p = record p {
  effects = p.effects ++ effects;
  slot_map_expired = asks_update effects || p.slot_map_expired;
}

-- A bad message closes the client.
unfoldable pub split_read : ℕ → ℕ → Outcome (List Group × List Effect × Bytes) → Proxy → Proxy
unfolding push_commands process
split_read random_slot c (ok (groups, effects, rest)) p =
    let q = push_commands c groups (take_effects effects p) in
    let r = set_client c (record (q.clients c) { buffer = rest }) q in
    if is_nil (r.clients c).awaiting_groups then process random_slot c r else r
split_read random_slot c _ p = close c p

unfoldable pub read_request : Environment → ℕ → Input → Proxy → Handled
unfolding split_read
read_request env c fails p = (p, true)
read_request env c (bytes []) p = (close c p, false)
read_request env c (bytes (b ∷ bs)) p = (
  split_read env.random_slot c (split_client_command env ((p.clients c).buffer ++ b ∷ bs)) p,
  false,
)

-- The events that `poll` reports.
pub record Events : Type 0 where
  pub hup : Bool
  pub readable : Bool
  pub writable : Bool

-- What a client's socket gives and takes during its handler.
pub record Socket : Type 0 where
  pub input : Input
  pub first : List Answer
  pub second : List Answer

unfoldable pub watch_client : ℕ → Proxy → Proxy
watch_client c p =
    if is_nil (p.clients c).output.buf_arr
    then set_conn_poll_ro (client_connection c) p
    else set_conn_poll_rw (client_connection c) p

unfoldable pub on_write : ℕ → Environment → ℕ → Socket → Bool → Proxy → Handled
unfolding write_response
on_write iov_max env c socket writable p =
    if writable
    then write_response iov_max env.random_slot c socket.first socket.second p
    else (p, false)

-- `on_events`: an exception closes the client.
unfoldable pub on_events : ℕ → Environment → ℕ → Events → Socket → Proxy → Proxy
unfolding read_request on_write watch_client
on_events iov_max env c events socket p =
    let (q, failed) = if events.readable then read_request env c socket.input p else (p, false) in
    let (r, failed') = on_write iov_max env c socket events.writable q in
    if events.hup
    then close c p
    else if failed
    then close c q
    else if (q.clients c).closed
    then q
    else if failed'
    then close c r
    else watch_client c r
