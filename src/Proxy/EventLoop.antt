-- ===== src/Proxy/EventLoop.antt =====
-- core/proxy.cpp and acceptor.cpp: `Proxy::handle_events`, the round of the event loop.
pub mod Long
pub mod Faults
pub mod Freed
use redis_cerberus.Prelude.{
  ℕ, Bool, true, false, not, ◌||◌, ◌&&◌, List, [], ◌∷◌, ◌++◌, map, Option, none, some,
  if◌then◌else◌,
}
use redis_cerberus.Text.Address.{Address}
use redis_cerberus.Buffer.{Answer}
use redis_cerberus.Command.Parser.Admin.{Effect, set_remotes, update_slot_map}
use redis_cerberus.Command.Parser.Keys.{is_nil}
use redis_cerberus.State.{
  Connection, client_connection, server_connection, long_connection, long_server, slots_map_updater,
  acceptor, is_connection, Proxy,
}
use redis_cerberus.Client
use redis_cerberus.Client.{Input, Events, Socket, Handled}
use redis_cerberus.Server
use redis_cerberus.Server.{close_conn, after_client_events}
use redis_cerberus.Subscription.{
  close_long, close_server_conn, program_ends, on_client_events, on_subscription_events,
  on_pop_events, on_pop_error, after_long_events, after_server_conn_events,
}
use redis_cerberus.Proxy.{Settings, new_client, should_update_slot_map, retrieve_slot_map}
use redis_cerberus.Proxy.SlotsMapUpdater.{handle_updater}

-- What a call of `accept` gives: a descriptor, for the client of a new number; the descriptor 0; too
-- many open files; an error that is passed over; or one that is thrown.
pub data Accepted : Type 0 where
  accepted : ℕ → Accepted
  accepted_zero : Accepted
  too_many : Accepted
  passing : Accepted
  failing : Accepted

-- `Acceptor::on_events`. Past the end of the list nobody waits (EAGAIN).
unfoldable pub accept_all : List Accepted → Proxy → Handled
unfolding new_client
accept_all [] p = (p, false)
accept_all (accepted c ∷ rest) p = accept_all rest (new_client c p)
accept_all (accepted_zero ∷ rest) p = (p, false)
accept_all (too_many ∷ rest) p = (record p { accepting = false }, false)
accept_all (passing ∷ rest) p = (p, false)
accept_all (failing ∷ rest) p = (p, true)

-- An event of a connection, with what its socket gives and takes meanwhile. A blocked pop gives
-- its descriptor to a client of a new number; the second answers are those to its `on_error`.
pub data Event : Type 0 where
  client_event : ℕ → Events → Socket → Event
  server_event : ℕ → Events → Input → List Answer → Event
  long_event : ℕ → Events → Input → Event
  subscription_event : ℕ → Events → Input → List Answer → Event
  pop_event : ℕ → ℕ → Events → Input → List Answer → List Answer → Event
  updater_event : ℕ → Events → Input → List Answer → Event
  acceptor_event : List Accepted → Event

abbrev pub connection_of : Event → Connection
connection_of (client_event c events socket) = client_connection c
connection_of (server_event s events input answers) = server_connection s
connection_of (long_event n events input) = long_connection n
connection_of (subscription_event n events input answers) = long_server n
connection_of (pop_event n c events input answers second) = long_server n
connection_of (updater_event n events input answers) = slots_map_updater n
connection_of (acceptor_event results) = acceptor

-- The handler of an exception that left a handler: what `on_error` of the connection does.
abbrev pub on_error : (Proxy → Proxy) → Handled → Handled
on_error error (p, true) = (error p, true)
on_error error (p, false) = (p, false)

-- An exception that leaves `on_error` ends the program.
abbrev pub or_ends : Handled → Proxy
or_ends (p, true) = program_ends p
or_ends (p, false) = p

-- The body of the loop over the events, and whether an `IOErrorBase` left the handler. None
-- leaves a client's.
unfoldable pub on_event : Settings → Event → Proxy → Handled
unfolding Client.on_events Server.on_events on_client_events on_subscription_events on_pop_events
    handle_updater accept_all
on_event settings (client_event c events socket) p =
    (Client.on_events settings.iov_max settings.environment c events socket p, false)
on_event settings (server_event s events input answers) p =
    on_error (close_conn s) (Server.on_events settings.iov_max s events input answers p)
on_event settings (long_event n events input) p =
    on_error (close_long n) (on_client_events n events input p)
on_event settings (subscription_event n events input answers) p =
    on_error (close_server_conn n) (on_subscription_events n events input answers p)
on_event settings (pop_event n c events input answers second) p =
    on_error (λ q. or_ends (on_pop_error n c second q)) (on_pop_events n c events input answers p)
on_event settings (updater_event n events input answers) p =
    handle_updater settings n events input answers p
on_event settings (acceptor_event results) p = accept_all results p

-- A `std::set` of connections, in the order of insertion.
unfoldable pub has_connection : List Connection → Connection → Bool
has_connection [] c = false
has_connection (d ∷ ds) c = is_connection d c || has_connection ds c

abbrev pub insert_connection : Connection → List Connection → List Connection
insert_connection c cs = if has_connection cs c then cs else cs ++ c ∷ []

-- The loop over the events, with `closed_conns` and `active_conns`.
unfoldable pub on_each_event :
    Settings → List Connection → List Connection → List Event → Proxy → Proxy × List Connection
unfolding on_event has_connection
on_each_event settings closed active [] p = (p, active)
on_each_event settings closed active (e ∷ es) p =
    let c = connection_of e in
    let (q, failed) = on_event settings e p in
    let skip = has_connection closed c in
    on_each_event settings (if not skip && failed then insert_connection c closed else closed)
      (if skip then active else insert_connection c active) es (if skip then p else q)

-- `Server::after_events`.
abbrev pub after_server_events : ℕ → Proxy → Proxy
after_server_events s p = if (p.servers s).closed then record p { slot_map_expired = true } else p

unfoldable pub after_events : Connection → Proxy → Proxy
unfolding after_client_events
after_events (client_connection c) p = after_client_events c p
after_events (server_connection s) p = after_server_events s p
after_events (long_connection n) p = after_long_events n p
after_events (long_server n) p = after_server_conn_events n p
after_events (slots_map_updater n) p = p
after_events acceptor p = p

-- The other half of a long connection, which `after_events` takes out of the set when it deletes both.
abbrev pub erased_by : Connection → Proxy → List Connection
erased_by (long_connection n) p = if (p.long_connections n).closed then long_server n ∷ [] else []
erased_by (long_server n) p =
    if (p.long_connections n).server_closed then long_connection n ∷ [] else []
erased_by _ p = []

-- The loop over `active_conns`, with those that were taken out of it.
unfoldable pub after_each : List Connection → List Connection → Proxy → Proxy
unfolding after_events has_connection
after_each erased [] p = p
after_each erased (c ∷ cs) p =
    let skip = has_connection erased c in
    after_each (if skip then erased else erased ++ erased_by c p) cs
      (if skip then p else after_events c p)

-- Behind the handlers of the events: `poll_ctl` takes the changes of what is watched, connections
-- that were closed are deleted, and so are the updaters that are finished; the slot map is asked for
-- where it has to be, and where a descriptor was closed the acceptor is watched again.
unfoldable pub after_poll : Settings → List Address → List Connection → Proxy → Proxy
unfolding after_each should_update_slot_map retrieve_slot_map
after_poll settings remotes active p =
    let q = record (after_each [] active (record p { conn_poll_type = λ _. none })) {
      finished_slot_updaters = [];
    } in
    let r =
      if should_update_slot_map q
      then record (retrieve_slot_map settings remotes q) { conn_poll_type = λ _. none }
      else q in
    record r { fd_closed = false; accepting = r.fd_closed || r.accepting }

-- The first loop: a long connection whose server was closed is closed. One that was freed since then
-- is still in the set.
unfoldable pub close_inactive : List ℕ → Proxy → Proxy
close_inactive [] p = p
close_inactive (n ∷ ns) p =
    let gone = (p.long_connections n).deleted in
    close_inactive ns (record (close_long n p) { fd_closed = true; faulted = gone || p.faulted })

-- What `get_remotes` gives behind these effects, which were set before.
unfoldable pub remotes_after : List Effect → List Address → List Address
remotes_after [] remotes = remotes
remotes_after (set_remotes remotes ∷ effects) old = remotes_after effects remotes
remotes_after (update_slot_map ∷ effects) remotes = remotes_after effects remotes

-- `remotes` are those that were set before the effects which the proxy holds.
unfoldable pub handle_events : Settings → List Address → List Event → Proxy → Proxy
unfolding close_inactive on_each_event remotes_after after_poll
handle_events settings remotes events p =
    let inactive = p.inactive_long_connections in
    let q = record (close_inactive inactive p) { inactive_long_connections = [] } in
    let (r, active) = on_each_event settings (map long_connection inactive) [] events q in
    after_poll settings (remotes_after r.effects remotes) active r
