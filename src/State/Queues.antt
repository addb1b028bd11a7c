-- ===== src/State/Queues.antt =====
-- core/command.cpp: `select_server_for` and the pushing of commands to the queues of servers and of
-- the proxy (Server::push_client_command, Proxy::get_server_by_slot and retry_move_ask_command_later).
use redis_cerberus.Prelude.{
  ℕ, zero, suc, true, List, [], ◌∷◌, ◌++◌, Bytes, Option, none, some, get_elem?, if◌then◌else◌,
}
use redis_cerberus.Command.Group.{OneSlotCommand}
use redis_cerberus.State.{
  CommandRef, DataCommand, one_slot, multi_steps, GroupState, single, multiple, Proxy, set_client,
  set_server, insert,
}

abbrev pub open_server : Proxy → Option ℕ → Option ℕ
open_server p none = none
open_server p (some s) = if (p.servers s).closed then none else some s

unfoldable pub get_server_by_slot : ℕ → Proxy → Option ℕ
get_server_by_slot slot p = open_server p (p.server_map slot)

unfoldable pub retry_move_ask_command_later : CommandRef → Proxy → Proxy
retry_move_ask_command_later cmd p = record p {
  retrying_commands = p.retrying_commands ++ cmd ∷ [];
}

-- `add_peer` of the command's client.
unfoldable pub add_peer : ℕ → ℕ → Proxy → Proxy
add_peer cli s p = let c = p.clients cli in set_client cli (record c { peers = insert s c.peers }) p

unfoldable pub push_client_command : ℕ → CommandRef → Proxy → Proxy
unfolding add_peer
push_client_command s cmd p =
    let svr = p.servers s in
    add_peer (p.groups cmd.group).client s
      (set_server s (record svr { commands = svr.commands ++ cmd ∷ [] }) p)

-- The proxy afterwards, and the server that was selected.
unfoldable pub select_server_for : CommandRef → ℕ → Proxy → Proxy × Option ℕ
unfolding get_server_by_slot retry_move_ask_command_later push_client_command
select_server_for cmd slot p = elim (get_server_by_slot slot p) [
  | none ↦ (retry_move_ask_command_later cmd p, none)
  | some s ↦ (push_client_command s cmd p, some s)
]

abbrev pub slot_of_command : DataCommand → ℕ
slot_of_command (one_slot c) = c.key_slot
slot_of_command (multi_steps c) = c.current_key_slot

abbrev pub buffer_of_command : DataCommand → Bytes
buffer_of_command (one_slot c) = c.buffer
buffer_of_command (multi_steps c) = c.buffer

-- The command that a pointer points to.
unfoldable pub command_in : GroupState → ℕ → Option DataCommand
command_in (single c done) zero = some c
command_in (multiple kind g) i = elim (get_elem? g.commands i) [
  | none ↦ none
  | some c ↦ some (one_slot c)
]
command_in _ _ = none

abbrev pub command_at : CommandRef → Proxy → Option DataCommand
command_at cmd p = command_in (p.groups cmd.group).state cmd.place

-- The virtual `select_server` of a command.
unfoldable pub select_server : CommandRef → Proxy → Proxy × Option ℕ
unfolding select_server_for command_in
select_server cmd p = elim (command_at cmd p) [
  | none ↦ (record p { faulted = true }, none)
  | some c ↦ select_server_for cmd (slot_of_command c) p
]

-- `select_remote` of a group: that of its commands in order, from the place `i` on.
unfoldable pub select_from : ℕ → ℕ → List OneSlotCommand → Proxy → Proxy
unfolding select_server_for
select_from g i [] p = p
select_from g i (c ∷ cs) p =
    select_from g (suc i) cs (select_server_for (record { group = g; place = i }) c.key_slot p).0

unfoldable pub select_remote : ℕ → GroupState → Proxy → Proxy
unfolding select_server_for select_from
select_remote g (single c done) p =
    (select_server_for (record { group = g; place = 0 }) (slot_of_command c) p).0
select_remote g (multiple kind m) p = select_from g 0 m.commands p
select_remote g _ p = p
