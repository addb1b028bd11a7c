-- ===== src/Idle.antt =====
-- core/server.cpp: a server whose connection is closed has no command, so none waits there for ever. Each
-- child shows that a part of the program keeps it so.
pub mod Answers
pub mod Servers
pub mod Clients
pub mod Slots
pub mod Long
pub mod Updaters
pub mod Rounds
use redis_cerberus.Prelude.{
  ℕ, suc, Bool, true, false, ◌==◌, List, [], ◌∷◌, ◌++◌, Option, none, some, if◌then◌else◌, ◌≡◌,
  refl, sym, ap, subst, ◌∙◌, Bool-cases, inl, inr,
}
use redis_cerberus.Command.Group.{OneSlotCommand}
use redis_cerberus.State.{
  CommandRef, DataCommand, GroupState, direct, single, multiple, subscribe, blocked_pop, Server,
  Proxy, set_server,
}
use redis_cerberus.State.Queues.{
  open_server, get_server_by_slot, retry_move_ask_command_later, add_peer, push_client_command,
  select_server_for, command_at, slot_of_command, select_server, select_from, select_remote,
}

abbrev pub HasNone : Server → Type 0
HasNone svr = (svr.commands ≡ []) × (svr.sent_commands ≡ [])

abbrev pub IsIdle : Proxy → Type 0
IsIdle p = (s : ℕ) → (p.servers s).closed ≡ true → HasNone (p.servers s)

pub IsIdle-same : (p q : Proxy) → q.servers ≡ p.servers → IsIdle p → IsIdle q
IsIdle-same p q e idle =
    λ s. subst (λ (f : ℕ → Server). (f s).closed ≡ true → HasNone (f s)) (sym e) (idle s)

-- A server is replaced by one that has no command if it is closed.
pub set_server-IsIdle :
    (s : ℕ) (svr : Server) (p : Proxy)
    → (svr.closed ≡ true → HasNone svr)
    → IsIdle p
    → IsIdle (set_server s svr p)
set_server-IsIdle s svr p h idle t = elim (Bool-cases (s == t)) [
  | inl e ↦ rw e h
  | inr e ↦ rw e (idle t)
]

-- An open server may have commands.
pub set_open-IsIdle :
    (s : ℕ) (svr : Server) (p : Proxy) → svr.closed ≡ false → IsIdle p → IsIdle (set_server s svr p)
set_open-IsIdle s svr p open_still idle = set_server-IsIdle s svr p (λ gone. absurd (cc)) idle

push_client_command-IsIdle :
    (s : ℕ) (cmd : CommandRef) (p : Proxy)
    → (p.servers s).closed ≡ false
    → IsIdle p
    → IsIdle (push_client_command s cmd p)
unfolding push_client_command add_peer
push_client_command-IsIdle s cmd p open_still idle =
    set_open-IsIdle s (record (p.servers s) { commands = (p.servers s).commands ++ cmd ∷ [] }) p
      open_still idle

select_server_for-IsIdle :
    (cmd : CommandRef) (slot : ℕ) (p : Proxy) → IsIdle p → IsIdle (select_server_for cmd slot p).0
unfolding select_server_for get_server_by_slot retry_move_ask_command_later
select_server_for-IsIdle cmd slot p idle = at_slot (p.server_map slot)
  where
    at_slot :
        (o : Option ℕ)
        → (let r : Proxy × Option ℕ = elim (open_server p o) [
          | none ↦ (retry_move_ask_command_later cmd p, none)
          | some s ↦ (push_client_command s cmd p, some s)
        ] in
            IsIdle r.0)
    at_slot none = idle
    at_slot (some s) = elim (Bool-cases (p.servers s).closed) [
      | inl t ↦ rw t idle
      | inr t ↦ rw t (push_client_command-IsIdle s cmd p t idle)
    ]

pub select_server-IsIdle :
    (cmd : CommandRef) (p : Proxy) → IsIdle p → IsIdle (select_server cmd p).0
unfolding select_server
select_server-IsIdle cmd p idle = found (command_at cmd p)
  where
    found :
        (o : Option DataCommand)
        → (let r : Proxy × Option ℕ = elim o [
          | none ↦ (record p { faulted = true }, none)
          | some c ↦ select_server_for cmd (slot_of_command c) p
        ] in
            IsIdle r.0)
    found none = idle
    found (some c) = select_server_for-IsIdle cmd (slot_of_command c) p idle

select_from-IsIdle :
    (g i : ℕ) (cs : List OneSlotCommand) (p : Proxy) → IsIdle p → IsIdle (select_from g i cs p)
unfolding select_from
select_from-IsIdle g i [] p idle = idle
select_from-IsIdle g i (c ∷ cs) p idle =
    let cmd : CommandRef = record { group = g; place = i } in
    select_from-IsIdle g (suc i) cs (select_server_for cmd c.key_slot p).0
      (select_server_for-IsIdle cmd c.key_slot p idle)

pub select_remote-IsIdle :
    (g : ℕ) (st : GroupState) (p : Proxy) → IsIdle p → IsIdle (select_remote g st p)
unfolding select_remote
select_remote-IsIdle g (single c done) p idle =
    select_server_for-IsIdle (record { group = g; place = 0 }) (slot_of_command c) p idle
select_remote-IsIdle g (multiple kind m) p idle = select_from-IsIdle g 0 m.commands p idle
select_remote-IsIdle g (direct b) p idle = idle
select_remote-IsIdle g (subscribe b) p idle = idle
select_remote-IsIdle g (blocked_pop b s) p idle = idle
