-- ===== src/Idle/Servers.antt =====
-- core/server.cpp: the handlers of servers leave closed servers without commands.
use redis_cerberus.Prelude.{
  zero, suc, ℕ, Bool, true, false, ltb, List, [], ◌∷◌, ◌++◌, map, Bytes, length, drop, Option, some,
  if◌then◌else◌, ◌≡◌, refl, ap, ◌∙◌, Bool-cases, inl, inr, if-both,
}
use redis_cerberus.Message.Outcome.{Outcome, ok}
use redis_cerberus.Buffer.{Answer, Status, complete, later, threw, exhausted, writev}
use redis_cerberus.Command.Parser.Keys.{is_nil}
use redis_cerberus.Response.{Response, split_server_response}
use redis_cerberus.State.{
  CommandRef, Proxy, set_server, set_conn_poll_rw, set_conn_poll_ro, server_connection,
}
use redis_cerberus.Client.{Input, Events, Handled}
use redis_cerberus.Server
use redis_cerberus.Server.{
  After, goes_on, returns, throws, erase_if, is_of, reset_if, pop_from_server, pop_from_servers,
  pop_client, destroy_client, after_client_events, close_conn, recv_from, on_read,
  push_to_buffer_set, bytes_of, respond_each, watch_server, on_rest, after_read,
}
use redis_cerberus.Idle.{IsIdle, set_server-IsIdle}
use redis_cerberus.Idle.Answers.{respond_each-IsIdle}

pub close_conn-IsIdle : (s : ℕ) (p : Proxy) → IsIdle p → IsIdle (close_conn s p)
unfolding close_conn
close_conn-IsIdle s p idle = elim (Bool-cases (p.servers s).closed) [
  | inl t ↦ rw (close_conn, t) idle
  | inr t ↦
      rw (close_conn, t)
        (set_server-IsIdle s
          (record (p.servers s) {
            closed = true;
            buffer = [];
            output = record { buf_arr = []; first_offset = (p.servers s).output.first_offset };
            commands = [];
            sent_commands = [];
            long_connections = [];
          })
          p (λ _. (refl, refl)) idle)
]

pop_from_server-IsIdle : (cli s : ℕ) (p : Proxy) → IsIdle p → IsIdle (pop_from_server cli s p)
unfolding pop_from_server erase_if
pop_from_server-IsIdle cli s p idle =
    set_server-IsIdle s
      (record (p.servers s) {
        commands = erase_if (is_of p cli) (p.servers s).commands;
        sent_commands = map (reset_if (is_of p cli)) (p.servers s).sent_commands;
      })
      p
      (λ gone.
        let (e, f) = idle s gone in
        (ap (erase_if (is_of p cli)) e, ap (map (reset_if (is_of p cli))) f))
      idle

pop_from_servers-IsIdle :
    (cli : ℕ) (ss : List ℕ) (p : Proxy) → IsIdle p → IsIdle (pop_from_servers cli ss p)
unfolding pop_from_servers
pop_from_servers-IsIdle cli [] p idle = idle
pop_from_servers-IsIdle cli (s ∷ ss) p idle =
    pop_from_servers-IsIdle cli ss (pop_from_server cli s p) (pop_from_server-IsIdle cli s p idle)

pub after_client_events-IsIdle :
    (cli : ℕ) (p : Proxy) → IsIdle p → IsIdle (after_client_events cli p)
unfolding after_client_events destroy_client pop_client
after_client_events-IsIdle cli p idle =
    if-both IsIdle (p.clients cli).closed (destroy_client cli p) p
      (pop_from_servers-IsIdle cli (p.clients cli).peers p idle) idle

push_to_buffer_set-IsIdle : (s : ℕ) (p : Proxy) → IsIdle p → IsIdle (push_to_buffer_set s p)
unfolding push_to_buffer_set
push_to_buffer_set-IsIdle s p idle =
    let svr = p.servers s in
    set_server-IsIdle s
      (record svr {
        sent_commands = svr.sent_commands ++ map some svr.commands;
        output = record {
          buf_arr = svr.output.buf_arr ++ map (bytes_of p) svr.commands;
          first_offset = svr.output.first_offset;
        };
        commands = [];
      })
      p
      (λ gone.
        let (e, f) = idle s gone in
        (refl, ap (λ cs. svr.sent_commands ++ map some cs) e ∙ ap (λ cs. cs ++ []) f))
      idle

recv_from-IsIdle :
    (s : ℕ) (o : Outcome (List Response × Bytes)) (p : Proxy)
    → IsIdle p
    → IsIdle (recv_from s o p).0
unfolding recv_from
recv_from-IsIdle s (ok (responses, rest)) p idle =
    let svr = p.servers s in
    let q = set_server s (record svr { buffer = rest }) p in
    let kept = set_server-IsIdle s (record svr { buffer = rest }) p (idle s) idle in
    let answered = respond_each responses svr.sent_commands q in
    let still = respond_each-IsIdle responses svr.sent_commands q kept in
    let after = answered.servers s in
    let n = length responses in
    let shorter = record after { sent_commands = drop n after.sent_commands } in
    if-both (λ (h : Proxy × After). IsIdle h.0) (ltb (length svr.sent_commands) n)
      (close_conn s q, goes_on) (set_server s shorter answered, goes_on)
      (close_conn-IsIdle s q kept)
      (set_server-IsIdle s shorter answered
        (λ gone. let (e, f) = still s gone in (e, ap (drop n) f ∙ drop-nil n)) still)
  where
    drop-nil : (n : ℕ) → ◌≡◌ {A = List (Option CommandRef)} (drop n []) []
    drop-nil zero = refl
    drop-nil (suc n) = refl
recv_from-IsIdle s other p idle = close_conn-IsIdle s p idle

on_read-IsIdle : (s : ℕ) (input : Input) (p : Proxy) → IsIdle p → IsIdle (on_read s input p).0
unfolding on_read
on_read-IsIdle s Input.fails p idle = idle
on_read-IsIdle s (Input.bytes []) p idle = idle
on_read-IsIdle s (Input.bytes (b ∷ bs)) p idle =
    recv_from-IsIdle s (split_server_response ((p.servers s).buffer ++ b ∷ bs)) p idle

on_write-IsIdle :
    (iov_max s : ℕ) (answers : List Answer) (p : Proxy)
    → IsIdle p
    → IsIdle (Server.on_write iov_max s answers p).0
unfolding Server.on_write
on_write-IsIdle iov_max s answers p idle =
    let svr = p.servers s in
    let w =
      writev iov_max (length svr.output.buf_arr) svr.output.buf_arr svr.output.first_offset
        answers in
    either w.status (set_server s (record svr { output = w.buffers }) p)
      (set_server-IsIdle s (record svr { output = w.buffers }) p (idle s) idle)
  where
    either :
        (st : Status) (q : Proxy)
        → IsIdle q
        → IsIdle (elim st as (λ _. Handled) [ threw ↦ (q, true) | _ ↦ (q, false) ]).0
    either complete q h = h
    either later q h = h
    either threw q h = h
    either exhausted q h = h

watch_server-IsIdle : (s : ℕ) (p : Proxy) → IsIdle p → IsIdle (watch_server s p)
unfolding watch_server
watch_server-IsIdle s p idle =
    if-both IsIdle (is_nil (p.servers s).output.buf_arr) (set_conn_poll_ro (server_connection s) p)
      (set_conn_poll_rw (server_connection s) p) idle idle

watched : ℕ → Handled → Handled
watched s h = if h.1 then (h.0, true) else (watch_server s h.0, false)

watched-IsIdle : (s : ℕ) (h : Handled) → IsIdle h.0 → IsIdle (watched s h).0
unfolding watched
watched-IsIdle s (q, true) idle = idle
watched-IsIdle s (q, false) idle = watch_server-IsIdle s q idle

on_rest-IsIdle :
    (iov_max s : ℕ) (writable : Bool) (answers : List Answer) (p : Proxy)
    → IsIdle p
    → IsIdle (on_rest iov_max s writable answers p).0
unfolding on_rest watched
on_rest-IsIdle iov_max s writable answers p idle =
    let sent = push_to_buffer_set s p in
    let kept = push_to_buffer_set-IsIdle s p idle in
    let h = if writable then Server.on_write iov_max s answers sent else (sent, false) in
    watched-IsIdle s h (
      if-both (λ (h : Handled). IsIdle h.0) writable (Server.on_write iov_max s answers sent)
        (sent, false) (on_write-IsIdle iov_max s answers sent kept) kept)

after_read-IsIdle :
    (iov_max s : ℕ) (writable : Bool) (answers : List Answer) (p : Proxy) (after : After)
    → IsIdle p
    → IsIdle (after_read iov_max s writable answers p after).0
unfolding after_read
after_read-IsIdle iov_max s writable answers p goes_on idle =
    on_rest-IsIdle iov_max s writable answers p idle
after_read-IsIdle iov_max s writable answers p returns idle = idle
after_read-IsIdle iov_max s writable answers p throws idle = idle

pub on_events-IsIdle :
    (iov_max s : ℕ) (events : Events) (input : Input) (answers : List Answer) (p : Proxy)
    → IsIdle p
    → IsIdle (Server.on_events iov_max s events input answers p).0
unfolding Server.on_events
on_events-IsIdle iov_max s events input answers p idle =
    let P = λ (h : Handled). IsIdle h.0 in
    let r : Proxy × After = if events.readable then on_read s input p else (p, goes_on) in
    let rest = after_read iov_max s events.writable answers r.0 r.1 in
    let hung : Handled = if events.hup then (close_conn s p, false) else rest in
    if-both P (p.servers s).closed (p, false) hung idle
      (if-both P events.hup (close_conn s p, false) rest (close_conn-IsIdle s p idle)
        (after_read-IsIdle iov_max s events.writable answers r.0 r.1 (
          if-both (λ (r : Proxy × After). IsIdle r.0) events.readable (on_read s input p)
            (p, goes_on) (on_read-IsIdle s input p idle) idle)))
