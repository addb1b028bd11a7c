-- ===== src/Client/Responses.antt =====
-- core/command.cpp and client.cpp: what happens to a group when a server answered one of its commands,
-- and to its client when it was the last (Command::responsed, command_responsed of the groups,
-- Client::group_responsed, _push_awaitings_to_ready and reactivate).
use redis_cerberus.Prelude.{
  ℕ, zero, suc, ◌+◌, Bool, true, false, not, ◌||◌, ◌&&◌, List, [], ◌∷◌, ◌++◌, map, Bytes, codes,
  length, none, some, ltb, if◌then◌else◌,
}
use redis_cerberus.Text.Decimal.{str}
use redis_cerberus.Command.Group.{
  OneSlotCommand, Multiple, mget_group, del_group, mset_group, deleted, rsp_ok_str,
}
use redis_cerberus.Command.Parser.Keys.{is_nil}
use redis_cerberus.Command.Parser.Rename.{RenameCommand}
use redis_cerberus.Command.Parser.Rename
use redis_cerberus.State.{
  CommandRef, DataCommand, one_slot, multi_steps, Gathering, GroupState, direct, single, multiple,
  subscribe, blocked_pop, Client, Proxy, client_connection, server_connection, set_client,
  set_group, set_conn_poll_rw, decr, is_zero,
}
use redis_cerberus.State.Queues.{buffer_of_command, select_server}

-- The buffers that `append_buffer_to` appends.
unfoldable pub append_buffers : GroupState → List Bytes
append_buffers (direct b) = b ∷ []
append_buffers (single c done) = buffer_of_command c ∷ []
append_buffers (multiple mget_group g) = g.arr_payload ∷ map (λ c. c.buffer) g.commands
append_buffers (multiple del_group g) =
    (b':' ∷ (str (deleted (map (λ c. c.buffer) g.commands)) ++ codes "\r\n")) ∷ []
append_buffers (multiple mset_group g) = rsp_ok_str ∷ []
append_buffers (subscribe b) = []
append_buffers (blocked_pop b s) = []

unfoldable pub append_all : (ℕ → GroupState) → List ℕ → List Bytes
unfolding append_buffers
append_all groups [] = []
append_all groups (g ∷ gs) = append_buffers (groups g) ++ append_all groups gs

-- `MAX_RESPONSES`.
abbrev pub max_responses : ℕ
max_responses = 256

abbrev pub state_of : Proxy → ℕ → GroupState
state_of p g = (p.groups g).state

abbrev pub watch_output : ℕ → List Bytes → Proxy → Proxy
watch_output c out p = if is_nil out then p else set_conn_poll_rw (client_connection c) p

abbrev pub must_wait : Client → Bool
must_wait cl =
    not (is_zero cl.awaiting_count)
    || (not (is_nil cl.ready_groups)
        && ltb max_responses (length cl.awaiting_groups + length cl.ready_groups))

unfoldable pub push_awaitings_to_ready : ℕ → Proxy → Proxy
unfolding append_all
push_awaitings_to_ready c p =
    let cl = p.clients c in
    let out = cl.output.buf_arr ++ append_all (state_of p) cl.awaiting_groups in
    if must_wait cl
    then p
    else watch_output c out (
        set_client c
          (record cl {
            output = record { buf_arr = out; first_offset = cl.output.first_offset };
            ready_groups = cl.ready_groups ++ cl.awaiting_groups;
            awaiting_groups = [];
          })
          p)

unfoldable pub group_responsed : ℕ → Proxy → Proxy
unfolding push_awaitings_to_ready
group_responsed c p =
    let cl = p.clients c in
    push_awaitings_to_ready c
      (set_client c (record cl { awaiting_count = decr cl.awaiting_count }) p)

-- `command_responsed` of a single group.
unfoldable pub single_responsed : ℕ → DataCommand → Proxy → Proxy
unfolding group_responsed
single_responsed g c p =
    set_group g (single c true)
      (group_responsed (p.groups g).client (set_group g (single c false) p))

abbrev pub set_buffer : ℕ → Bytes → List OneSlotCommand → List OneSlotCommand
set_buffer i rsp [] = []
set_buffer zero rsp (c ∷ cs) = record c { buffer = rsp } ∷ cs
set_buffer (suc i) rsp (c ∷ cs) = c ∷ set_buffer i rsp cs

-- A command of several takes the answer, and is counted; whether it was the last.
unfoldable pub gather : ℕ → Bytes → Gathering → Gathering × Bool
gather i rsp g = elim g.awaiting_count [
  | zero ↦ (record g { commands = set_buffer i rsp g.commands }, false)
  | suc zero ↦ (
    record {
      arr_payload = b'*' ∷ (str (length g.commands) ++ codes "\r\n");
      commands = set_buffer i rsp g.commands;
      awaiting_count = 0;
      complete = true;
    },
    true,
  )
  | suc (suc n) ↦
      (record g { commands = set_buffer i rsp g.commands; awaiting_count = suc n }, false)
]

-- The client is told before `complete` is set, which it does not look at.
unfoldable pub multiple_responsed : ℕ → Multiple → Gathering × Bool → Proxy → Proxy
unfolding group_responsed
multiple_responsed g kind (m, last) p =
    let q = set_group g (multiple kind m) p in
    if last then group_responsed (p.groups g).client q else q

-- `Client::reactivate`.
unfoldable pub reactivate : CommandRef → Proxy → Proxy
unfolding select_server
reactivate cmd p =
    let q = select_server cmd p in
    elim q.1 [ none ↦ q.0 | some s ↦ set_conn_poll_rw (server_connection s) q.0 ]

-- A step of RENAME: it is answered, or the command is sent again.
unfoldable pub rename_responsed : CommandRef → RenameCommand → Proxy → Proxy
unfolding single_responsed reactivate
rename_responsed cmd c p =
    if c.responsed
    then single_responsed cmd.group (multi_steps c) p
    else reactivate cmd (set_group cmd.group (single (multi_steps c) false) p)

-- The virtual `on_remote_responsed` of the command.
unfoldable pub responsed_in : CommandRef → Bytes → Bool → GroupState → Proxy → Proxy
unfolding single_responsed rename_responsed multiple_responsed gather
responsed_in cmd rsp error (single (one_slot c) done) p =
    single_responsed cmd.group (one_slot (record c { buffer = rsp })) p
responsed_in cmd rsp error (single (multi_steps c) done) p =
    rename_responsed cmd (Rename.on_remote_responsed rsp error c) p
responsed_in cmd rsp error (multiple kind g) p =
    multiple_responsed cmd.group kind (gather cmd.place rsp g) p
responsed_in cmd rsp error _ p = record p { faulted = true }

unfoldable pub on_remote_responsed : CommandRef → Bytes → Bool → Proxy → Proxy
unfolding responsed_in
on_remote_responsed cmd rsp error p = responsed_in cmd rsp error (p.groups cmd.group).state p
