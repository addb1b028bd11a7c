-- ===== src/Subscription.antt =====
-- core/subscription.cpp: `LongConnection`, `Subscription` and `BlockedListPop`, each with its `ServerConn`.
-- What sockets give and take is an argument. A system call on a descriptor that was given up is
-- a `SystemError`, which ends the program.
pub mod Pop
pub mod Served
use redis_cerberus.Prelude.{
  ℕ, Bool, true, false, not, ◌||◌, ◌&&◌, ◌==◌, List, [], ◌∷◌, ◌++◌, Bytes, if◌then◌else◌,
}
use redis_cerberus.Message.Outcome.{Outcome, ok}
use redis_cerberus.Buffer.{Answer, Status, threw, exhausted}
use redis_cerberus.Buffer.Flush.{Flushed, flush_mem}
use redis_cerberus.Command.Parser.Keys.{is_nil}
use redis_cerberus.Response.{Response, nil_str, get_buffer, server_moved, split_server_response}
use redis_cerberus.State.{
  LongConnection, Proxy, Connection, long_connection, long_server, set_server, update, decr,
}
use redis_cerberus.Client.{Input, Events, Handled}
use redis_cerberus.Server.{After, goes_on, returns, throws, erase_if}
use redis_cerberus.Proxy.{new_client}

abbrev pub set_long : ℕ → LongConnection → Proxy → Proxy
set_long n l p = record p { long_connections = update p.long_connections n l }

-- `ProxyConnection::on_error`, for each of the two descriptors.
abbrev pub close_long : ℕ → Proxy → Proxy
close_long n p = set_long n (record (p.long_connections n) { closed = true }) p

abbrev pub close_server_conn : ℕ → Proxy → Proxy
close_server_conn n p = set_long n (record (p.long_connections n) { server_closed = true }) p

abbrev pub program_ends : Proxy → Proxy
program_ends p = record p { terminated = true }

-- Behind the read, where an event to write is not expected.
abbrev pub unexpected_write : (Proxy → Handled) → Bool → Proxy → After → Handled
unexpected_write error writable p goes_on = if writable then error p else (p, false)
unexpected_write error writable p returns = (p, false)
unexpected_write error writable p throws = (p, true)

-- What a client sends now is thrown away.
unfoldable pub read_open : ℕ → Input → Proxy → Proxy × After
read_open n Input.fails p = (p, throws)
read_open n (Input.bytes []) p = (close_long n p, returns)
read_open n (Input.bytes (b ∷ bs)) p = (p, goes_on)

unfoldable pub read_client : ℕ → Input → Proxy → Proxy × After
unfolding read_open
read_client n input p =
    if (p.long_connections n).closed then (program_ends p, returns) else read_open n input p

-- `LongConnection::on_events`.
unfoldable pub on_client_events : ℕ → Events → Input → Proxy → Handled
unfolding read_client
on_client_events n events input p =
    let (q, after) = if events.readable then read_client n input p else (p, goes_on) in
    if events.hup
    then (close_long n p, false)
    else unexpected_write (λ r. (close_long n r, false)) events.writable q after

-- How `Buffer::write` ends.
abbrev pub after_flush : Status → Proxy → Handled
after_flush threw p = (p, true)
after_flush exhausted p = (record p { blocked = true }, false)
after_flush _ p = (p, false)

-- `Buffer::write` to the client.
unfoldable pub write_client : ℕ → Bytes → List Answer → Proxy → Handled
unfolding flush_mem
write_client n rsp answers p =
    let l = p.long_connections n in
    let f = flush_mem rsp answers in
    if l.closed && not (is_nil rsp)
    then (program_ends p, false)
    else after_flush f.status (set_long n (record l { written = l.written ++ f.sent }) p)

abbrev pub ended : Handled → Proxy × After
ended (p, true) = (p, throws)
ended (p, false) = (p, goes_on)

-- What the server publishes is sent on as it comes.
unfoldable pub read_published : ℕ → Input → List Answer → Proxy → Proxy × After
unfolding write_client
read_published n Input.fails answers p = (p, throws)
read_published n (Input.bytes []) answers p = (close_server_conn n p, returns)
read_published n (Input.bytes (b ∷ bs)) answers p = ended (write_client n (b ∷ bs) answers p)

-- `Subscription::ServerConn::on_events`.
unfoldable pub on_subscription_events : ℕ → Events → Input → List Answer → Proxy → Handled
unfolding read_published
on_subscription_events n events input answers p =
    let (q, after) = if events.readable then read_published n input answers p else (p, goes_on) in
    if events.hup
    then (close_server_conn n p, false)
    else unexpected_write (λ r. (close_server_conn n r, false)) events.writable q after

-- The descriptor goes to a client of a number that is new.
abbrev pub hand_over : ℕ → ℕ → Bool → Proxy → Proxy
hand_over n c moved p =
    let q = new_client c (close_long n p) in
    record q { slot_map_expired = moved || q.slot_map_expired }

-- `BlockedListPop::restore_client`.
unfoldable pub restore_client : ℕ → ℕ → Bytes → Bool → List Answer → Proxy → Handled
unfolding write_client new_client
restore_client n c rsp moved answers p =
    let (q, failed) = write_client n rsp answers p in
    if (p.long_connections n).closed
    then (p, false)
    else if failed || q.blocked
    then (q, failed)
    else (hand_over n c moved q, false)

-- `BlockedListPop::ServerConn::on_error`.
unfoldable pub on_pop_error : ℕ → ℕ → List Answer → Proxy → Handled
unfolding restore_client
on_pop_error n c answers p = restore_client n c nil_str true answers (close_server_conn n p)

abbrev pub keep_rest : ℕ → Bytes → Proxy → Proxy
keep_rest n rest p = set_long n (record (p.long_connections n) { buffer = rest }) p

-- The first response is the client's. Nothing catches a `BadRedisMessage` here.
unfoldable pub respond_pop :
    ℕ → ℕ → Outcome (List Response × Bytes) → List Answer → Proxy → Proxy × After
unfolding restore_client
respond_pop n c (ok ([], rest)) answers p = (keep_rest n rest p, returns)
respond_pop n c (ok (r ∷ rs, rest)) answers p =
    let rsp = if server_moved r then nil_str else get_buffer r in
    ended (restore_client n c rsp (server_moved r) answers (keep_rest n rest p))
respond_pop n c _ answers p = (program_ends p, returns)

unfoldable pub read_popped : ℕ → ℕ → Input → List Answer → Proxy → Proxy × After
unfolding respond_pop on_pop_error
read_popped n c Input.fails answers p = (p, throws)
read_popped n c (Input.bytes []) answers p =
    let (q, failed) = on_pop_error n c answers p in (q, if failed then throws else returns)
read_popped n c (Input.bytes (b ∷ bs)) answers p =
    respond_pop n c (split_server_response ((p.long_connections n).buffer ++ b ∷ bs)) answers p

-- `BlockedListPop::ServerConn::on_events`. The client is answered once, so it is the same
-- answers that its socket gives.
unfoldable pub on_pop_events : ℕ → ℕ → Events → Input → List Answer → Proxy → Handled
unfolding read_popped on_pop_error
on_pop_events n c events input answers p =
    let (q, after) = if events.readable then read_popped n c input answers p else (p, goes_on) in
    if events.hup
    then on_pop_error n c answers p
    else unexpected_write (on_pop_error n c answers) events.writable q after

-- `delete`: `~LongConnection` detaches it from its server, and both descriptors are closed. To free
-- it twice is a fault.
unfoldable pub delete_long : ℕ → Proxy → Proxy
unfolding erase_if
delete_long n p =
    let l = p.long_connections n in
    let svr = p.servers l.server in
    let q =
      set_server l.server
        (record svr { long_connections = erase_if (λ m. m == n) svr.long_connections }) p in
    record (set_long n (record l { closed = true; server_closed = true; deleted = true }) q) {
      long_conns_count = decr q.long_conns_count;
      faulted = l.deleted || q.faulted;
    }

-- `after_events` of both classes, and of their `ServerConn`s.
abbrev pub after_long_events : ℕ → Proxy → Proxy
after_long_events n p = if (p.long_connections n).closed then delete_long n p else p

abbrev pub after_server_conn_events : ℕ → Proxy → Proxy
after_server_conn_events n p = if (p.long_connections n).server_closed then delete_long n p else p
