-- ===== src/Idle/Clients.antt =====
-- core/client.cpp: the handlers of clients leave closed servers without commands.
use redis_cerberus.Prelude.{
  ℕ, Bool, true, false, not, ◌||◌, ◌&&◌, List, [], ◌∷◌, ◌++◌, Bytes, length, drop, take, Option,
  none, some, if◌then◌else◌, if-both,
}
use redis_cerberus.Message.Outcome.{Outcome, ok}
use redis_cerberus.Buffer.{Answer, Status, complete, later, threw, exhausted, Writing, writev}
use redis_cerberus.Command.Group.{Group}
use redis_cerberus.Command.Parser.Admin.{Effect}
use redis_cerberus.Command.Parser.Keys.{is_nil}
use redis_cerberus.Command.Splitter.{Environment, split_client_command}
use redis_cerberus.State.{
  GroupState, direct, single, multiple, subscribe, blocked_pop, Proxy, set_client, set_conn_poll_rw,
  set_conn_poll_ro, server_connection, client_connection, is_zero, is_positive,
}
use redis_cerberus.State.Queues.{get_server_by_slot, select_remote}
use redis_cerberus.Client
use redis_cerberus.Client.{
  Input, Events, Socket, Handled, push_command, push_commands, is_long, waits_remote, close,
  convert, deliver_client, max_pipe, await, count_awaiting, process_group, process_groups,
  watch_peers, process_end, process, wrote, all_sent, after_writev, take_effects, send_buffer_set,
  write_first, write_response, split_read, read_request, watch_client, on_write,
}
use redis_cerberus.Client.Grows.{push_awaitings_to_ready-Rests}
use redis_cerberus.Client.Responses.{push_awaitings_to_ready}
use redis_cerberus.Idle.{IsIdle, IsIdle-same, set_server-IsIdle, select_remote-IsIdle}

push_commands-IsIdle :
    (c : ℕ) (gs : List Group) (p : Proxy) → IsIdle p → IsIdle (push_commands c gs p)
unfolding push_commands push_command
push_commands-IsIdle c [] p idle = idle
push_commands-IsIdle c (g ∷ gs) p idle = push_commands-IsIdle c gs (push_command c g p) idle

convert-IsIdle :
    (c s : ℕ) (b : Bytes) (pops : Bool) (p : Proxy) → IsIdle p → IsIdle (convert c s b pops p)
unfolding convert
convert-IsIdle c s b pops p idle =
    set_server-IsIdle s
      (record (p.servers s) {
        long_connections = (p.servers s).long_connections ++ p.next_long_connection ∷ [];
      })
      p (idle s) idle

deliver_client-IsIdle :
    (random_slot c : ℕ) (st : GroupState) (p : Proxy)
    → IsIdle p
    → IsIdle (deliver_client random_slot c st p)
unfolding deliver_client
deliver_client-IsIdle random_slot c (subscribe b) p idle = to_server (p.server_map random_slot)
  where
    to_server :
        (o : Option ℕ)
        → IsIdle (elim o [ none ↦ close c p | some s ↦ close c (convert c s b false p) ])
    to_server none = idle
    to_server (some s) = convert-IsIdle c s b false p idle
deliver_client-IsIdle random_slot c (blocked_pop b slot) p idle =
    to_server (get_server_by_slot slot p)
  where
    to_server :
        (o : Option ℕ)
        → IsIdle (elim o [ none ↦ close c p | some s ↦ close c (convert c s b true p) ])
    to_server none = idle
    to_server (some s) = convert-IsIdle c s b true p idle
deliver_client-IsIdle random_slot c (direct b) p idle = idle
deliver_client-IsIdle random_slot c (single d done) p idle = idle
deliver_client-IsIdle random_slot c (multiple kind m) p idle = idle

process_group-IsIdle : (c g : ℕ) (p : Proxy) → IsIdle p → IsIdle (process_group c g p)
unfolding process_group
process_group-IsIdle c g p idle =
    let s = (p.groups g).state in
    let q = count_awaiting c p in
    if-both IsIdle (waits_remote s) (select_remote g s q) p (select_remote-IsIdle g s q idle) idle

process_groups-IsIdle :
    (random_slot c : ℕ) (gs : List ℕ) (p : Proxy)
    → IsIdle p
    → IsIdle (process_groups random_slot c gs p).0
unfolding process_groups
process_groups-IsIdle random_slot c [] p idle = idle
process_groups-IsIdle random_slot c (g ∷ gs) p idle =
    let s = (p.groups g).state in
    if-both (λ (r : Proxy × Bool). IsIdle r.0) (is_long s)
      (close c (deliver_client random_slot c s p), true)
      (process_groups random_slot c gs (process_group c g p))
      (deliver_client-IsIdle random_slot c s p idle)
      (process_groups-IsIdle random_slot c gs (process_group c g p)
        (process_group-IsIdle c g p idle))

watch_peers-IsIdle : (ss : List ℕ) (p : Proxy) → IsIdle p → IsIdle (watch_peers ss p)
unfolding watch_peers
watch_peers-IsIdle [] p idle = idle
watch_peers-IsIdle (s ∷ ss) p idle =
    watch_peers-IsIdle ss (set_conn_poll_rw (server_connection s) p) idle

push_awaitings-IsIdle : (c : ℕ) (p : Proxy) → IsIdle p → IsIdle (push_awaitings_to_ready c p)
push_awaitings-IsIdle c p idle =
    IsIdle-same p (push_awaitings_to_ready c p) (push_awaitings_to_ready-Rests c p).1 idle

process_end-IsIdle : (c : ℕ) (p : Proxy) → IsIdle p → IsIdle (process_end c p)
unfolding process_end
process_end-IsIdle c p idle =
    let cl = p.clients c in
    let q = set_client c (record cl { parsed_groups = drop max_pipe cl.parsed_groups }) p in
    if-both IsIdle (is_positive cl.awaiting_count) (watch_peers cl.peers q)
      (push_awaitings_to_ready c q) (watch_peers-IsIdle cl.peers q idle)
      (push_awaitings-IsIdle c q idle)

process-IsIdle : (random_slot c : ℕ) (p : Proxy) → IsIdle p → IsIdle (process random_slot c p)
unfolding process
process-IsIdle random_slot c p idle =
    let gs = take max_pipe (p.clients c).parsed_groups in
    let r = process_groups random_slot c gs p in
    let kept = process_groups-IsIdle random_slot c gs p idle in
    if-both IsIdle r.1 r.0 (process_end c r.0) kept (process_end-IsIdle c r.0 kept)

after_writev-IsIdle :
    (random_slot c : ℕ) (w : Writing) (st : Status) (p : Proxy)
    → IsIdle p
    → IsIdle (after_writev random_slot c w st p).0
unfolding after_writev
after_writev-IsIdle random_slot c w complete p idle =
    let q = all_sent c (wrote c w p) in
    if-both IsIdle (is_nil (q.clients c).parsed_groups) q (process random_slot c q) idle
      (process-IsIdle random_slot c q idle)
after_writev-IsIdle random_slot c w threw p idle = idle
after_writev-IsIdle random_slot c w later p idle = idle
after_writev-IsIdle random_slot c w exhausted p idle = idle

send_buffer_set-IsIdle :
    (iov_max random_slot c : ℕ) (answers : List Answer) (p : Proxy)
    → IsIdle p
    → IsIdle (send_buffer_set iov_max random_slot c answers p).0
unfolding send_buffer_set
send_buffer_set-IsIdle iov_max random_slot c answers p idle =
    let cl = p.clients c in
    let out = cl.output in
    let w = writev iov_max (length out.buf_arr) out.buf_arr out.first_offset answers in
    if-both (λ (h : Handled). IsIdle h.0) (cl.closed && not (is_nil out.buf_arr))
      (record p { terminated = true }, false) (after_writev random_slot c w w.status p) idle
      (after_writev-IsIdle random_slot c w w.status p idle)

write_first-IsIdle :
    (iov_max random_slot c : ℕ) (answers : List Answer) (p : Proxy)
    → IsIdle p
    → IsIdle (write_first iov_max random_slot c answers p).0
unfolding write_first
write_first-IsIdle iov_max random_slot c answers p idle =
    if-both (λ (h : Handled). IsIdle h.0) (is_nil (p.clients c).output.buf_arr) (p, false)
      (send_buffer_set iov_max random_slot c answers p) idle
      (send_buffer_set-IsIdle iov_max random_slot c answers p idle)

write_response-IsIdle :
    (iov_max random_slot c : ℕ) (first second : List Answer) (p : Proxy)
    → IsIdle p
    → IsIdle (write_response iov_max random_slot c first second p).0
unfolding write_response
write_response-IsIdle iov_max random_slot c first second p idle =
    let h = write_first iov_max random_slot c first p in
    let kept = write_first-IsIdle iov_max random_slot c first p idle in
    let q = h.0 in
    let cl = q.clients c in
    let r = push_awaitings_to_ready c q in
    if-both (λ (h : Handled). IsIdle h.0)
      (h.1 || is_nil cl.awaiting_groups || not (is_zero cl.awaiting_count)) (q, h.1)
      (send_buffer_set iov_max random_slot c second r) kept
      (send_buffer_set-IsIdle iov_max random_slot c second r (push_awaitings-IsIdle c q kept))

split_read-IsIdle :
    (random_slot c : ℕ) (o : Outcome (List Group × List Effect × Bytes)) (p : Proxy)
    → IsIdle p
    → IsIdle (split_read random_slot c o p)
unfolding split_read
split_read-IsIdle random_slot c (ok (groups, effects, rest)) p idle =
    let q = push_commands c groups (take_effects effects p) in
    let kept = push_commands-IsIdle c groups (take_effects effects p) idle in
    let r = set_client c (record (q.clients c) { buffer = rest }) q in
    if-both IsIdle (is_nil (r.clients c).awaiting_groups) (process random_slot c r) r
      (process-IsIdle random_slot c r kept) kept
split_read-IsIdle random_slot c other p idle = idle

read_request-IsIdle :
    (env : Environment) (c : ℕ) (input : Input) (p : Proxy)
    → IsIdle p
    → IsIdle (read_request env c input p).0
unfolding read_request
read_request-IsIdle env c Input.fails p idle = idle
read_request-IsIdle env c (Input.bytes []) p idle = idle
read_request-IsIdle env c (Input.bytes (b ∷ bs)) p idle =
    split_read-IsIdle env.random_slot c (split_client_command env ((p.clients c).buffer ++ b ∷ bs))
      p idle

on_write-IsIdle :
    (iov_max : ℕ) (env : Environment) (c : ℕ) (socket : Socket) (writable : Bool) (p : Proxy)
    → IsIdle p
    → IsIdle (on_write iov_max env c socket writable p).0
unfolding on_write
on_write-IsIdle iov_max env c socket true p idle =
    write_response-IsIdle iov_max env.random_slot c socket.first socket.second p idle
on_write-IsIdle iov_max env c socket false p idle = idle

pub on_events-IsIdle :
    (iov_max : ℕ) (env : Environment) (c : ℕ) (events : Events) (socket : Socket) (p : Proxy)
    → IsIdle p
    → IsIdle (Client.on_events iov_max env c events socket p)
unfolding Client.on_events watch_client
on_events-IsIdle iov_max env c events socket p idle =
    let h : Handled = if events.readable then read_request env c socket.input p else (p, false) in
    let kept =
      if-both (λ (h : Handled). IsIdle h.0) events.readable (read_request env c socket.input p)
        (p, false) (read_request-IsIdle env c socket.input p idle) idle in
    let k = on_write iov_max env c socket events.writable h.0 in
    let kept' = on_write-IsIdle iov_max env c socket events.writable h.0 kept in
    let watched = watch_client c k.0 in
    let last = if k.1 then close c k.0 else watched in
    let behind = if (h.0.clients c).closed then h.0 else last in
    if-both IsIdle events.hup (close c p) (if h.1 then close c h.0 else behind) idle (
      if-both IsIdle h.1 (close c h.0) behind kept (
        if-both IsIdle (h.0.clients c).closed h.0 last kept (
          if-both IsIdle k.1 (close c k.0) watched kept' (
            if-both IsIdle (is_nil (k.0.clients c).output.buf_arr)
              (set_conn_poll_ro (client_connection c) k.0)
              (set_conn_poll_rw (client_connection c) k.0) kept' kept'))))
