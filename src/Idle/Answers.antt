-- ===== src/Idle/Answers.antt =====
-- core/command.cpp and client.cpp: answers to commands leave closed servers without commands.
use redis_cerberus.Prelude.{ℕ, Bool, false, List, [], ◌∷◌, Bytes, Option, none, some, if-both}
use redis_cerberus.Command.Parser.Rename
use redis_cerberus.Command.Parser.Rename.{RenameCommand}
use redis_cerberus.Response.{Response, normal, retry_moved_ask}
use redis_cerberus.State.{
  CommandRef, one_slot, multi_steps, GroupState, direct, single, multiple, subscribe, blocked_pop,
  Proxy, set_group, set_conn_poll_rw, server_connection,
}
use redis_cerberus.State.Queues.{select_server, retry_move_ask_command_later}
use redis_cerberus.Client.Grows.{single_responsed-Rests, multiple_responsed-Rests}
use redis_cerberus.Client.Responses.{
  single_responsed, gather, multiple_responsed, reactivate, rename_responsed, responsed_in,
  on_remote_responsed,
}
use redis_cerberus.Server.{rsp_to, respond_each}
use redis_cerberus.Idle.{IsIdle, IsIdle-same, select_server-IsIdle}

reactivate-IsIdle : (cmd : CommandRef) (p : Proxy) → IsIdle p → IsIdle (reactivate cmd p)
unfolding reactivate
reactivate-IsIdle cmd p idle = watched (select_server cmd p).1
  where
    watched :
        (o : Option ℕ)
        → IsIdle (elim o [
          | none ↦ (select_server cmd p).0
          | some s ↦ set_conn_poll_rw (server_connection s) (select_server cmd p).0
        ])
    watched none = select_server-IsIdle cmd p idle
    watched (some s) = select_server-IsIdle cmd p idle

rename_responsed-IsIdle :
    (cmd : CommandRef) (c : RenameCommand) (p : Proxy)
    → IsIdle p
    → IsIdle (rename_responsed cmd c p)
unfolding rename_responsed
rename_responsed-IsIdle cmd c p idle =
    let sent_again = set_group cmd.group (single (multi_steps c) false) p in
    if-both IsIdle c.responsed (single_responsed cmd.group (multi_steps c) p)
      (reactivate cmd sent_again)
      (IsIdle-same p (single_responsed cmd.group (multi_steps c) p)
        (single_responsed-Rests cmd.group (multi_steps c) p).1 idle)
      (reactivate-IsIdle cmd sent_again idle)

responsed_in-IsIdle :
    (cmd : CommandRef) (rsp : Bytes) (error : Bool) (st : GroupState) (p : Proxy)
    → IsIdle p
    → IsIdle (responsed_in cmd rsp error st p)
unfolding responsed_in
responsed_in-IsIdle cmd rsp error (single (one_slot c) done) p idle =
    let c' = one_slot (record c { buffer = rsp }) in
    IsIdle-same p (single_responsed cmd.group c' p) (single_responsed-Rests cmd.group c' p).1 idle
responsed_in-IsIdle cmd rsp error (single (multi_steps c) done) p idle =
    rename_responsed-IsIdle cmd (Rename.on_remote_responsed rsp error c) p idle
responsed_in-IsIdle cmd rsp error (multiple kind g) p idle =
    let (m, last) = gather cmd.place rsp g in
    IsIdle-same p (multiple_responsed cmd.group kind (m, last) p)
      (multiple_responsed-Rests cmd.group kind m last p).1 idle
responsed_in-IsIdle cmd rsp error (direct b) p idle = idle
responsed_in-IsIdle cmd rsp error (subscribe b) p idle = idle
responsed_in-IsIdle cmd rsp error (blocked_pop b n) p idle = idle

pub on_remote_responsed-IsIdle :
    (cmd : CommandRef) (rsp : Bytes) (error : Bool) (p : Proxy)
    → IsIdle p
    → IsIdle (on_remote_responsed cmd rsp error p)
unfolding on_remote_responsed
on_remote_responsed-IsIdle cmd rsp error p idle =
    responsed_in-IsIdle cmd rsp error (p.groups cmd.group).state p idle

rsp_to-IsIdle :
    (r : Response) (o : Option CommandRef) (p : Proxy) → IsIdle p → IsIdle (rsp_to r o p)
unfolding rsp_to retry_move_ask_command_later
rsp_to-IsIdle r none p idle = idle
rsp_to-IsIdle (normal b error) (some cmd) p idle = on_remote_responsed-IsIdle cmd b error p idle
rsp_to-IsIdle retry_moved_ask (some cmd) p idle = idle

pub respond_each-IsIdle :
    (rs : List Response) (cs : List (Option CommandRef)) (p : Proxy)
    → IsIdle p
    → IsIdle (respond_each rs cs p)
unfolding respond_each
respond_each-IsIdle (r ∷ rs) (c ∷ cs) p idle =
    respond_each-IsIdle rs cs (rsp_to r c p) (rsp_to-IsIdle r c p idle)
respond_each-IsIdle [] cs p idle = idle
respond_each-IsIdle (r ∷ rs) [] p idle = idle
