-- ===== src/Server.antt =====
-- core/server.cpp: the connection to a server. Commands wait in `commands`, are sent in order, and wait
-- for their responses in `sent_commands`. Client::~Client, which empties these of its commands,
-- is here too.
pub mod Pairing
pub mod Waits
pub mod Pop
pub mod Destroy
pub mod Handler
use redis_cerberus.Prelude.{
  ℕ, Bool, true, false, not, ◌&&◌, List, [], ◌∷◌, ◌++◌, map, Bytes, length, drop, Option, none,
  some, ltb, ◌==◌, if◌then◌else◌,
}
use redis_cerberus.Message.Outcome.{Outcome, ok}
use redis_cerberus.Buffer.{Answer, threw, writev}
use redis_cerberus.Command.Parser.Keys.{is_nil}
use redis_cerberus.Response.{Response, normal, retry_moved_ask, split_server_response}
use redis_cerberus.Text.Address.{Address, address_lt}
use redis_cerberus.State.{
  CommandRef, Proxy, server_connection, set_server, set_conn_poll_rw, set_conn_poll_ro, decr,
}
use redis_cerberus.State.Queues.{retry_move_ask_command_later, command_at, buffer_of_command}
use redis_cerberus.Client.{Input, Events, Handled}
use redis_cerberus.Client.Responses.{on_remote_responsed}

-- `util::erase_if`.
unfoldable pub erase_if {ℓ} : {A : Type ℓ} → (A → Bool) → List A → List A
erase_if f [] = []
erase_if f (x ∷ xs) = if f x then erase_if f xs else x ∷ erase_if f xs

-- Whether a command is of a client.
abbrev pub is_of : Proxy → ℕ → CommandRef → Bool
is_of p cli cmd = (p.groups cmd.group).client == cli

abbrev pub reset_if : (CommandRef → Bool) → Option CommandRef → Option CommandRef
reset_if f none = none
reset_if f (some cmd) = if f cmd then none else some cmd

-- `Server::pop_client`.
unfoldable pub pop_from_server : ℕ → ℕ → Proxy → Proxy
unfolding erase_if
pop_from_server cli s p =
    let svr = p.servers s in
    set_server s
      (record svr {
        commands = erase_if (is_of p cli) svr.commands;
        sent_commands = map (reset_if (is_of p cli)) svr.sent_commands;
      })
      p

unfoldable pub pop_from_servers : ℕ → List ℕ → Proxy → Proxy
unfolding pop_from_server
pop_from_servers cli [] p = p
pop_from_servers cli (s ∷ ss) p = pop_from_servers cli ss (pop_from_server cli s p)

-- `Proxy::pop_client`.
unfoldable pub pop_client : ℕ → Proxy → Proxy
unfolding erase_if
pop_client cli p = record p {
  retrying_commands = erase_if (is_of p cli) p.retrying_commands;
  clients_count = decr p.clients_count;
  fd_closed = true;
}

-- `Client::~Client`.
unfoldable pub destroy_client : ℕ → Proxy → Proxy
unfolding pop_from_servers pop_client
destroy_client cli p = pop_client cli (pop_from_servers cli (p.clients cli).peers p)

-- `Client::after_events`.
unfoldable pub after_client_events : ℕ → Proxy → Proxy
unfolding destroy_client
after_client_events cli p = if (p.clients cli).closed then destroy_client cli p else p

-- What is sent for a command. The source has no check that the command is still there.
abbrev pub bytes_of : Proxy → CommandRef → Bytes
bytes_of p cmd = elim (command_at cmd p) [ none ↦ [] | some c ↦ buffer_of_command c ]

unfoldable pub push_to_buffer_set : ℕ → Proxy → Proxy
push_to_buffer_set s p =
    let svr = p.servers s in
    set_server s
      (record svr {
        sent_commands = svr.sent_commands ++ map some svr.commands;
        output = record {
          buf_arr = svr.output.buf_arr ++ map (bytes_of p) svr.commands;
          first_offset = svr.output.first_offset;
        };
        commands = [];
      })
      p

-- `Response::rsp_to` for a command that is still there.
unfoldable pub rsp_to : Response → Option CommandRef → Proxy → Proxy
unfolding retry_move_ask_command_later on_remote_responsed
rsp_to rsp none p = p
rsp_to (normal b error) (some cmd) p = on_remote_responsed cmd b error p
rsp_to retry_moved_ask (some cmd) p = retry_move_ask_command_later cmd p

-- The loop over the responses, each with the next command that was sent.
unfoldable pub respond_each : List Response → List (Option CommandRef) → Proxy → Proxy
unfolding rsp_to
respond_each (r ∷ rs) (c ∷ cs) p = respond_each rs cs (rsp_to r c p)
respond_each _ _ p = p

-- The commands that are not null.
unfoldable pub present : List (Option CommandRef) → List CommandRef
present [] = []
present (none ∷ cs) = present cs
present (some c ∷ cs) = c ∷ present cs

-- `std::map::erase` and `find`, by the order of addresses.
abbrev pub same_addr : Address → Address → Bool
same_addr a b = not (address_lt a b) && not (address_lt b a)

unfoldable pub erase_addr : Address → List (Address × ℕ) → List (Address × ℕ)
erase_addr a = erase_if (λ entry. same_addr a entry.0)

-- Long connections are closed by the proxy at its next events, and the server goes back to the pool
-- (see `Proxy`).
unfoldable pub close_conn : ℕ → Proxy → Proxy
unfolding present erase_addr
close_conn s p =
    let svr = p.servers s in
    if svr.closed
    then p
    else set_server s
        (record svr {
          closed = true;
          buffer = [];
          output = record { buf_arr = []; first_offset = svr.output.first_offset };
          commands = [];
          sent_commands = [];
          long_connections = [];
        })
        (record p {
          retrying_commands = p.retrying_commands ++ (svr.commands ++ present svr.sent_commands);
          inactive_long_connections = p.inactive_long_connections ++ svr.long_connections;
          servers_pool = p.servers_pool ++ s ∷ [];
          servers_map = erase_addr svr.addr p.servers_map;
        })

-- How a read goes on: with the rest of the handler, or out of it, by `return` or by an exception.
pub data After : Type 0 where
  goes_on returns throws : After

-- More responses than commands close the connection, and so does a bad message, which also ends the
-- handler.
unfoldable pub recv_from : ℕ → Outcome (List Response × Bytes) → Proxy → Proxy × After
unfolding respond_each close_conn
recv_from s (ok (responses, rest)) p =
    let svr = p.servers s in
    let q = set_server s (record svr { buffer = rest }) p in
    let answered = respond_each responses svr.sent_commands q in
    let n = length responses in
    let after = answered.servers s in
    if ltb (length svr.sent_commands) n then (close_conn s q, goes_on) else (
      set_server s (record after { sent_commands = drop n after.sent_commands }) answered,
      goes_on,
    )
recv_from s _ p = (close_conn s p, returns)

-- An end of the input is an `IOErrorBase`, which the event loop answers with `close_conn`.
unfoldable pub on_read : ℕ → Input → Proxy → Proxy × After
unfolding recv_from
on_read s Input.fails p = (p, throws)
on_read s (Input.bytes []) p = (p, throws)
on_read s (Input.bytes (b ∷ bs)) p =
    recv_from s (split_server_response ((p.servers s).buffer ++ b ∷ bs)) p

unfoldable pub on_write : ℕ → ℕ → List Answer → Proxy → Handled
unfolding writev
on_write iov_max s answers p =
    let svr = p.servers s in
    let w =
      writev iov_max (length svr.output.buf_arr) svr.output.buf_arr svr.output.first_offset
        answers in
    let q = set_server s (record svr { output = w.buffers }) p in
    elim w.status [ threw ↦ (q, true) | _ ↦ (q, false) ]

unfoldable pub watch_server : ℕ → Proxy → Proxy
watch_server s p =
    if is_nil (p.servers s).output.buf_arr
    then set_conn_poll_ro (server_connection s) p
    else set_conn_poll_rw (server_connection s) p

-- Behind the read.
unfoldable pub on_rest : ℕ → ℕ → Bool → List Answer → Proxy → Handled
unfolding push_to_buffer_set on_write watch_server
on_rest iov_max s writable answers p =
    let sent = push_to_buffer_set s p in
    let (q, failed) = if writable then on_write iov_max s answers sent else (sent, false) in
    if failed then (q, true) else (watch_server s q, false)

unfoldable pub after_read : ℕ → ℕ → Bool → List Answer → Proxy → After → Handled
unfolding on_rest
after_read iov_max s writable answers p goes_on = on_rest iov_max s writable answers p
after_read iov_max s writable answers p returns = (p, false)
after_read iov_max s writable answers p throws = (p, true)

unfoldable pub on_events : ℕ → ℕ → Events → Input → List Answer → Proxy → Handled
unfolding close_conn on_read after_read
on_events iov_max s events input answers p =
    let (q, after) = if events.readable then on_read s input p else (p, goes_on) in
    if (p.servers s).closed
    then (p, false)
    else if events.hup
    then (close_conn s p, false)
    else after_read iov_max s events.writable answers q after
