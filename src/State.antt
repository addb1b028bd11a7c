-- ===== src/State.antt =====
-- core/command.hpp, client.hpp, server.hpp and proxy.hpp: the objects of one thread. Objects that others
-- hold pointers to are kept in a store by number: groups of commands, clients and servers. A pointer
-- to a command is the number of its group and its place in the group.
pub mod Queues
use redis_cerberus.Prelude.{
  ℕ, zero, suc, ◌+◌, Bool, true, false, ◌||◌, ◌&&◌, List, [], ◌∷◌, ◌++◌, Bytes, Option, none, some,
  ◌==◌, if◌then◌else◌,
}
use redis_cerberus.Prelude.Int.{ℤ, pos}
use redis_cerberus.Text.Address.{Address}
use redis_cerberus.SlotMap.Node.{RedisNode}
use redis_cerberus.Buffer.{BufferSet}
use redis_cerberus.Command.Group.{OneSlotCommand, Multiple}
use redis_cerberus.Command.Parser.Admin.{Effect}
use redis_cerberus.Command.Parser.Rename.{RenameCommand}

-- `util::sref<DataCommand>`.
pub record CommandRef : Type 0 where
  pub group : ℕ
  pub place : ℕ

-- `OneSlotCommand` and `MultiStepsCommand`.
pub data DataCommand : Type 0 where
  one_slot : OneSlotCommand → DataCommand
  multi_steps : RenameCommand → DataCommand

-- What a group of several commands holds beside them. A count that went below zero would not come
-- back to it, so it may stay at zero with `complete` set.
pub record Gathering : Type 0 where
  pub arr_payload : Bytes
  pub commands : List OneSlotCommand
  pub awaiting_count : ℕ
  pub complete : Bool

-- The classes of groups, with the fields that change.
pub data GroupState : Type 0 where
  direct : Bytes → GroupState
  single : DataCommand → Bool → GroupState
  multiple : Multiple → Gathering → GroupState
  subscribe : Bytes → GroupState
  blocked_pop : Bytes → ℕ → GroupState

pub record CommandGroup : Type 0 where
  pub client : ℕ
  pub state : GroupState

-- The lists of groups hold numbers; `closed` is that of the descriptor. `written` is what the
-- socket took so far.
pub record Client : Type 0 where
  pub closed : Bool
  pub peers : List ℕ
  pub parsed_groups : List ℕ
  pub awaiting_groups : List ℕ
  pub ready_groups : List ℕ
  pub awaiting_count : ℤ
  pub buffer : Bytes
  pub output : BufferSet
  pub written : Bytes

-- A sent command whose client is gone is null.
pub record Server : Type 0 where
  pub closed : Bool
  pub addr : Address
  pub buffer : Bytes
  pub output : BufferSet
  pub commands : List CommandRef
  pub sent_commands : List (Option CommandRef)
  pub long_connections : List ℕ

-- What the event loop watches: the classes that derive from `Connection`. A long connection has two
-- descriptors, its own, which was the client's, and that of its `ServerConn`.
pub data Connection : Type 0 where
  client_connection : ℕ → Connection
  server_connection : ℕ → Connection
  long_connection : ℕ → Connection
  long_server : ℕ → Connection
  slots_map_updater : ℕ → Connection
  acceptor : Connection

-- `Subscription` and `BlockedListPop`, with the client whose descriptor they took. `closed` is that of
-- this descriptor, and `server_closed` that of the `ServerConn`; `buffer` is that of
-- `BlockedListPop::ServerConn`, `written` what the client's socket took since then, and `deleted`
-- whether the object was freed.
pub record LongConnection : Type 0 where
  pub of_client : ℕ
  pub server : ℕ
  pub command : Bytes
  pub pops : Bool
  pub closed : Bool
  pub server_closed : Bool
  pub buffer : Bytes
  pub written : Bytes
  pub deleted : Bool

-- `SlotsMapUpdater`; `closed` is that of its descriptor. The set of covered slots is in the order of
-- insertion.
pub record Updater : Type 0 where
  pub number : ℕ
  pub addr : Address
  pub rsp : Bytes
  pub closed : Bool
  pub proxy_already_updated : Bool
  pub nodes : List RedisNode
  pub remotes : List Address
  pub covered : List ℕ

-- `Proxy`, with the objects of its thread. `faulted` is set where the program
-- goes to memory that is not there: a command that is gone, or a slot past the last;
-- `terminated` where an exception that the event loop does not catch ends the program, and
-- `blocked` where the thread is in a loop that waits for a socket. `servers_map` and `servers_pool`
-- are variables of the thread in core/server.cpp; `accepting` is that of the acceptor.
pub record Proxy : Type 0 where
  pub clients : ℕ → Client
  pub servers : ℕ → Server
  pub groups : ℕ → CommandGroup
  pub next_group : ℕ
  pub server_map : ℕ → Option ℕ
  pub retrying_commands : List CommandRef
  pub conn_poll_type : Connection → Option Bool
  pub long_connections : ℕ → LongConnection
  pub next_long_connection : ℕ
  pub inactive_long_connections : List ℕ
  pub servers_map : List (Address × ℕ)
  pub servers_pool : List ℕ
  pub next_server : ℕ
  pub slot_updaters : List Updater
  pub finished_slot_updaters : List Updater
  pub next_updater : ℕ
  pub cluster_ok : Bool
  pub slot_map_expired : Bool
  pub fd_closed : Bool
  pub accepting : Bool
  pub clients_count : ℤ
  pub long_conns_count : ℤ
  pub effects : List Effect
  pub faulted : Bool
  pub terminated : Bool
  pub blocked : Bool

abbrev pub update {ℓ} : {A : Type ℓ} → (ℕ → A) → ℕ → A → ℕ → A
update f i v j = if i == j then v else f j

abbrev pub set_client : ℕ → Client → Proxy → Proxy
set_client i c p = record p { clients = update p.clients i c }

abbrev pub set_server : ℕ → Server → Proxy → Proxy
set_server i s p = record p { servers = update p.servers i s }

abbrev pub set_group : ℕ → GroupState → Proxy → Proxy
set_group i g p = record p { groups = update p.groups i (record (p.groups i) { state = g }) }

abbrev pub is_connection : Connection → Connection → Bool
is_connection (client_connection a) (client_connection b) = a == b
is_connection (server_connection a) (server_connection b) = a == b
is_connection (long_connection a) (long_connection b) = a == b
is_connection (long_server a) (long_server b) = a == b
is_connection (slots_map_updater a) (slots_map_updater b) = a == b
is_connection acceptor acceptor = true
is_connection _ _ = false

-- `std::set` of pointers, kept in the order of insertion.
unfoldable pub contains : List ℕ → ℕ → Bool
contains [] a = false
contains (x ∷ xs) a = x == a || contains xs a

abbrev pub insert : ℕ → List ℕ → List ℕ
insert a xs = if contains xs a then xs else xs ++ a ∷ []

-- `set_conn_poll_rw` and `set_conn_poll_ro`: a connection that is to be written stays so.
abbrev pub set_conn_poll_rw : Connection → Proxy → Proxy
set_conn_poll_rw c p = record p {
  conn_poll_type = λ d. if is_connection c d then some true else p.conn_poll_type d;
}

abbrev pub is_rw : Option Bool → Bool
is_rw (some t) = t
is_rw none = false

abbrev pub set_conn_poll_ro : Connection → Proxy → Proxy
set_conn_poll_ro c p = record p {
  conn_poll_type =
      λ d. if is_connection c d then some (is_rw (p.conn_poll_type c)) else p.conn_poll_type d;
}

abbrev pub incr : ℤ → ℤ
incr (pos n) = pos (suc n)
incr (ℤ.negsuc zero) = pos 0
incr (ℤ.negsuc (suc n)) = ℤ.negsuc n

abbrev pub decr : ℤ → ℤ
decr (pos zero) = ℤ.negsuc 0
decr (pos (suc n)) = pos n
decr (ℤ.negsuc n) = ℤ.negsuc (suc n)

abbrev pub is_zero : ℤ → Bool
is_zero (pos zero) = true
is_zero _ = false

abbrev pub is_positive : ℤ → Bool
is_positive (pos (suc n)) = true
is_positive _ = false
