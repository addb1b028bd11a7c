-- ===== src/Tests/Long.antt =====
-- Runs of long connections, of updaters and of the event loop, and the theorems about them at concrete
-- states.
use mathlib.Core.List.{Memᴰ}
use redis_cerberus.Prelude.{true, false, [], ◌∷◌, codes, ◌≡◌, refl, arith}
use redis_cerberus.Prelude.Int.{pos}
use redis_cerberus.Buffer.{room, eagain, complete}
use redis_cerberus.Buffer.Calm.{NoFails}
use redis_cerberus.Buffer.Flush.{flush_mem, read, got, no_more}
use redis_cerberus.Buffer.Flush.Ends.{flush_mem-Writes}
use redis_cerberus.Message.Reply.{bulk, put, IsReply}
use redis_cerberus.Text.Decimal.{str}
use redis_cerberus.Text.Compare.{stristartswith}
use redis_cerberus.Response.{asks_retry}
use redis_cerberus.Response.Stream.{respond, last_error_in}
use redis_cerberus.State.{
  LongConnection, Updater, Proxy, Connection, long_connection, long_server, client_connection,
  update,
}
use redis_cerberus.Client.{Input}
use redis_cerberus.Subscription.{on_pop_events}
use redis_cerberus.Subscription.Pop.{Silent, on_pop_events-Silent}
use redis_cerberus.Subscription.Served.{Served, on_pop_events-Served}
use redis_cerberus.Proxy.SlotsMapUpdater.{find_updater, handle_updater}
use redis_cerberus.Proxy.SlotsMapUpdater.Finished.{Apart, handle_updater-Apart}
use redis_cerberus.Proxy.EventLoop.{
  long_event, subscription_event, pop_event, server_event, after_each, close_inactive,
}
use redis_cerberus.Proxy.EventLoop.Long.{after_each-faulted}
use redis_cerberus.Proxy.EventLoop.Faults.{
  hung, readable, behind, on_each_event-published, on_each_event-served,
}
use redis_cerberus.Proxy.EventLoop.Freed.{close_inactive-faulted}
use redis_cerberus.Tests.Thread.{thread, settings, idle_server, gone_connection}

-- The three calls take "+O", nothing, and "K" with the line's end.
flush_mem-Writes_example :
    let f = flush_mem (codes "+OK") (room 2 ∷ eagain ∷ room 9 ∷ room 1 ∷ []) in
    (f.status ≡ complete) × (f.sent ≡ codes "+OK")
unfolding NoFails
flush_mem-Writes_example =
    flush_mem-Writes (codes "+OK") (room 2 ∷ eagain ∷ room 9 ∷ room 1 ∷ []) tt (omega arith)

two_reads : read (got (codes "+O") ∷ got (codes "K") ∷ no_more ∷ []) ≡ Input.bytes (codes "+OK")
unfolding read
two_reads = refl

-- Long connection 0 is a blocked pop that is attached to server 0, of whose answer a line was read.
abbrev popping : LongConnection
popping = record gone_connection {
  pops = true;
  closed = false;
  server_closed = false;
  buffer = codes "$1\r\n";
  deleted = false;
}

abbrev popping_thread : Proxy
popping_thread = record thread {
  long_connections = update (λ _. gone_connection) 0 popping;
  next_long_connection = 1;
  servers = update (λ _. idle_server) 0 (record idle_server { long_connections = 0 ∷ [] });
  long_conns_count = pos 1;
}

on_pop_events-Served_example :
    let h =
      on_pop_events 0 5 readable
        (Input.bytes (codes "7\r\n"))
        (room 3 ∷ eagain ∷ room 1 ∷ room 1 ∷ room 1 ∷ room 1 ∷ room 1 ∷ room 1 ∷ [])
        popping_thread in
    (h.1 ≡ false) × Served 0 5 (respond (bulk (codes "7"))) popping_thread h.0
unfolding NoFails put IsReply str respond asks_retry stristartswith last_error_in
on_pop_events-Served_example =
    on_pop_events-Served 0 5 (bulk (codes "7")) b'7' (codes "\r\n")
      (room 3 ∷ eagain ∷ room 1 ∷ room 1 ∷ room 1 ∷ room 1 ∷ room 1 ∷ room 1 ∷ []) popping_thread
      refl refl tt refl tt (omega arith)

on_pop_events-Silent_example :
    Silent 7 popping_thread
      (on_pop_events 7 5 readable (Input.bytes (codes ":1\r\n")) [] popping_thread).0
on_pop_events-Silent_example =
    on_pop_events-Silent 7 5 [] readable (Input.bytes (codes ":1\r\n")) popping_thread refl

on_each_event-published_example :
    (behind settings
      (long_event 0 hung (Input.bytes [])
        ∷ subscription_event 0 readable (Input.bytes (codes "+x\r\n")) []
        ∷ [])
      popping_thread).terminated
    ≡ true
on_each_event-published_example =
    on_each_event-published settings 0 b'+' (codes "x\r\n") (Input.bytes []) [] popping_thread

on_each_event-served_example :
    (behind settings
      (pop_event 0 5 readable
          (Input.bytes (codes "7\r\n"))
          (room 3 ∷ room 1 ∷ room 1 ∷ room 1 ∷ room 1 ∷ room 1 ∷ room 1 ∷ [])
          []
        ∷ long_event 0 readable (Input.bytes (codes "x"))
        ∷ [])
      popping_thread).terminated
    ≡ true
unfolding NoFails put IsReply str respond asks_retry stristartswith last_error_in
on_each_event-served_example =
    on_each_event-served settings 0 5 (bulk (codes "7")) b'7' (codes "\r\n")
      (room 3 ∷ room 1 ∷ room 1 ∷ room 1 ∷ room 1 ∷ room 1 ∷ room 1 ∷ []) []
      (Input.bytes (codes "x")) popping_thread refl refl tt refl tt (omega arith)

close_inactive-faulted_example :
    let q =
      behind settings
        (server_event 0 hung (Input.bytes []) [] ∷ long_event 0 hung (Input.bytes []) ∷ [])
        popping_thread in
    let r = after_each [] (Connection.server_connection 0 ∷ long_connection 0 ∷ []) q in
    (close_inactive r.inactive_long_connections r).faulted ≡ true
close_inactive-faulted_example =
    close_inactive-faulted settings 0 0 (Input.bytes []) (Input.bytes []) [] popping_thread refl
      (Memᴰ.head refl)

after_each-faulted_example :
    (after_each []
      (long_server 0 ∷ client_connection 0 ∷ long_connection 0 ∷ [])
      popping_thread).faulted
    ≡ false
after_each-faulted_example =
    after_each-faulted (long_server 0 ∷ client_connection 0 ∷ long_connection 0 ∷ []) popping_thread
      ((refl, (refl, tt)), ((refl, tt), (tt, tt))) (refl, (tt, (refl, tt)))

-- An updater that is finished, whose response comes in the same round.
abbrev late_updater : Updater
late_updater = record {
  number = 3;
  addr = idle_server.addr;
  rsp = [];
  closed = false;
  proxy_already_updated = true;
  nodes = [];
  remotes = [];
  covered = [];
}

abbrev late_thread : Proxy
late_thread = record thread { finished_slot_updaters = late_updater ∷ [] }

handle_updater-Apart_example :
    Apart late_thread
      (handle_updater settings 3 readable (Input.bytes (codes "+x\r\n")) [] late_thread).0
unfolding find_updater
handle_updater-Apart_example =
    handle_updater-Apart settings 3 late_updater readable (Input.bytes (codes "+x\r\n")) []
      late_thread refl refl
