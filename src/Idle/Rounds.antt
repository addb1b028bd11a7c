-- ===== src/Idle/Rounds.antt =====
-- core/proxy.cpp and subscription.cpp: a whole round of the event loop leaves closed servers without commands.
use redis_cerberus.Prelude.{
  ◌==◌, ℕ, true, false, not, ◌&&◌, List, [], ◌∷◌, ◌++◌, map, none, if◌then◌else◌, if-both,
}
use redis_cerberus.Text.Address.{Address}
use redis_cerberus.State.{
  Connection, client_connection, server_connection, long_connection, long_server, slots_map_updater,
  acceptor, Proxy,
}
use redis_cerberus.Client.{Handled}
use redis_cerberus.Server
use redis_cerberus.Server.{
  After, goes_on, returns, throws, erase_if, close_conn, after_client_events,
}
use redis_cerberus.Subscription.{
  close_long, close_server_conn, on_client_events, on_subscription_events, on_pop_error,
  on_pop_events, delete_long,
}
use redis_cerberus.Proxy.{Settings, new_client, should_update_slot_map, retrieve_slot_map}
use redis_cerberus.Proxy.EventLoop.{
  Accepted, accepted, accepted_zero, too_many, passing, failing, accept_all, Event, client_event,
  server_event, long_event, subscription_event, pop_event, updater_event, acceptor_event,
  connection_of, on_error, or_ends, on_event, has_connection, insert_connection, on_each_event,
  after_events, erased_by, after_each, after_poll, close_inactive, remotes_after, handle_events,
}
use redis_cerberus.Idle.{IsIdle, set_server-IsIdle}
use redis_cerberus.Idle.Servers
use redis_cerberus.Idle.Servers.{close_conn-IsIdle, after_client_events-IsIdle}
use redis_cerberus.Idle.Clients
use redis_cerberus.Idle.Long.{
  Stays, on_client_events-IsIdle, on_subscription_events-IsIdle, on_pop_error-IsIdle,
  on_pop_events-IsIdle,
}
use redis_cerberus.Idle.Slots.{retrieve_slot_map-IsIdle}
use redis_cerberus.Idle.Updaters.{handle_updater-IsIdle}

accept_all-IsIdle : (results : List Accepted) (p : Proxy) → IsIdle p → Stays (accept_all results p)
unfolding accept_all new_client
accept_all-IsIdle [] p idle = idle
accept_all-IsIdle (accepted c ∷ rest) p idle = accept_all-IsIdle rest (new_client c p) idle
accept_all-IsIdle (accepted_zero ∷ rest) p idle = idle
accept_all-IsIdle (too_many ∷ rest) p idle = idle
accept_all-IsIdle (passing ∷ rest) p idle = idle
accept_all-IsIdle (failing ∷ rest) p idle = idle

on_error-IsIdle :
    (error : Proxy → Proxy) (h : Handled)
    → ((q : Proxy) → IsIdle q → IsIdle (error q))
    → Stays h
    → Stays (on_error error h)
on_error-IsIdle error (q, true) closes idle = closes q idle
on_error-IsIdle error (q, false) closes idle = idle

or_ends-IsIdle : (h : Handled) → Stays h → IsIdle (or_ends h)
or_ends-IsIdle (q, true) idle = idle
or_ends-IsIdle (q, false) idle = idle

on_event-IsIdle :
    (settings : Settings) (e : Event) (p : Proxy) → IsIdle p → Stays (on_event settings e p)
unfolding on_event
on_event-IsIdle settings (client_event c events socket) p idle =
    Clients.on_events-IsIdle settings.iov_max settings.environment c events socket p idle
on_event-IsIdle settings (server_event s events input answers) p idle =
    on_error-IsIdle (close_conn s) (Server.on_events settings.iov_max s events input answers p)
      (close_conn-IsIdle s)
      (Servers.on_events-IsIdle settings.iov_max s events input answers p idle)
on_event-IsIdle settings (long_event n events input) p idle =
    on_error-IsIdle (close_long n) (on_client_events n events input p) (λ q kept. kept)
      (on_client_events-IsIdle n events input p idle)
on_event-IsIdle settings (subscription_event n events input answers) p idle =
    on_error-IsIdle (close_server_conn n) (on_subscription_events n events input answers p)
      (λ q kept. kept) (on_subscription_events-IsIdle n events input answers p idle)
on_event-IsIdle settings (pop_event n c events input answers second) p idle =
    on_error-IsIdle (λ q. or_ends (on_pop_error n c second q))
      (on_pop_events n c events input answers p)
      (λ q kept. or_ends-IsIdle (on_pop_error n c second q) (on_pop_error-IsIdle n c second q kept))
      (on_pop_events-IsIdle n c answers events input p idle)
on_event-IsIdle settings (updater_event n events input answers) p idle =
    handle_updater-IsIdle settings n events input answers p idle
on_event-IsIdle settings (acceptor_event results) p idle = accept_all-IsIdle results p idle

on_each_event-IsIdle :
    (settings : Settings) (closed active : List Connection) (es : List Event) (p : Proxy)
    → IsIdle p
    → IsIdle (on_each_event settings closed active es p).0
unfolding on_each_event
on_each_event-IsIdle settings closed active [] p idle = idle
on_each_event-IsIdle settings closed active (e ∷ es) p idle =
    let c = connection_of e in
    let (q, failed) = on_event settings e p in
    let skip = has_connection closed c in
    on_each_event-IsIdle settings
      (if not skip && failed then insert_connection c closed else closed)
      (if skip then active else insert_connection c active) es (if skip then p else q)
      (if-both IsIdle skip p q idle (on_event-IsIdle settings e p idle))

delete_long-IsIdle : (n : ℕ) (p : Proxy) → IsIdle p → IsIdle (delete_long n p)
unfolding delete_long
delete_long-IsIdle n p idle =
    let s = (p.long_connections n).server in
    set_server-IsIdle s
      (record (p.servers s) {
        long_connections = erase_if (λ m. m == n) (p.servers s).long_connections;
      })
      p (idle s) idle

after_events-IsIdle : (c : Connection) (p : Proxy) → IsIdle p → IsIdle (after_events c p)
unfolding after_events
after_events-IsIdle (client_connection cli) p idle = after_client_events-IsIdle cli p idle
after_events-IsIdle (server_connection s) p idle =
    if-both IsIdle (p.servers s).closed (record p { slot_map_expired = true }) p idle idle
after_events-IsIdle (long_connection n) p idle =
    if-both IsIdle (p.long_connections n).closed (delete_long n p) p (delete_long-IsIdle n p idle)
      idle
after_events-IsIdle (long_server n) p idle =
    if-both IsIdle (p.long_connections n).server_closed (delete_long n p) p
      (delete_long-IsIdle n p idle) idle
after_events-IsIdle (slots_map_updater n) p idle = idle
after_events-IsIdle acceptor p idle = idle

after_each-IsIdle :
    (cs erased : List Connection) (p : Proxy) → IsIdle p → IsIdle (after_each erased cs p)
unfolding after_each
after_each-IsIdle [] erased p idle = idle
after_each-IsIdle (c ∷ cs) erased p idle =
    let skip = has_connection erased c in
    after_each-IsIdle cs (if skip then erased else erased ++ erased_by c p)
      (if skip then p else after_events c p)
      (if-both IsIdle skip p (after_events c p) idle (after_events-IsIdle c p idle))

after_poll-IsIdle :
    (settings : Settings) (remotes : List Address) (active : List Connection) (p : Proxy)
    → IsIdle p
    → IsIdle (after_poll settings remotes active p)
unfolding after_poll
after_poll-IsIdle settings remotes active p idle =
    let q = record (after_each [] active (record p { conn_poll_type = λ _. none })) {
      finished_slot_updaters = [];
    } in
    let kept = after_each-IsIdle active [] (record p { conn_poll_type = λ _. none }) idle in
    if-both IsIdle (should_update_slot_map q)
      (record (retrieve_slot_map settings remotes q) { conn_poll_type = λ _. none }) q
      (retrieve_slot_map-IsIdle settings remotes q kept) kept

close_inactive-IsIdle : (ns : List ℕ) (p : Proxy) → IsIdle p → IsIdle (close_inactive ns p)
unfolding close_inactive
close_inactive-IsIdle [] p idle = idle
close_inactive-IsIdle (n ∷ ns) p idle = close_inactive-IsIdle ns _ idle

-- A round of the event loop, whatever its events are, what the sockets give and take, what the servers
-- and the nodes answer, and which connections open, keeps every closed server without commands:
-- none is given to a server that could not send it or whose responses nobody reads.
pub handle_events-IsIdle :
    (settings : Settings) (remotes : List Address) (events : List Event) (p : Proxy)
    → IsIdle p
    → IsIdle (handle_events settings remotes events p)
unfolding handle_events
handle_events-IsIdle settings remotes events p idle =
    let inactive = p.inactive_long_connections in
    let q = record (close_inactive inactive p) { inactive_long_connections = [] } in
    let (r, active) = on_each_event settings (map long_connection inactive) [] events q in
    after_poll-IsIdle settings (remotes_after r.effects remotes) active r (
      on_each_event-IsIdle settings (map long_connection inactive) [] events q
        (close_inactive-IsIdle inactive p idle))
