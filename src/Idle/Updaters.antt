-- ===== src/Idle/Updaters.antt =====
-- core/proxy.cpp: the handlers of `SlotsMapUpdater` leave closed servers without commands.
use redis_cerberus.Prelude.{
  ℕ, true, false, List, [], ◌∷◌, ◌++◌, Bytes, Option, none, some, if◌then◌else◌, if-both,
}
use redis_cerberus.Buffer.{Answer}
use redis_cerberus.Buffer.Flush.{flush_mem}
use redis_cerberus.Message.Outcome.{Outcome, ok}
use redis_cerberus.Response.{Response, split_server_response}
use redis_cerberus.State.{Updater, Proxy}
use redis_cerberus.Client.{Input, Events, Handled}
use redis_cerberus.Subscription.{program_ends}
use redis_cerberus.Proxy.{Settings, covered_slots, notify_slot_map_updated}
use redis_cerberus.Proxy.SlotsMapUpdater.{
  find_updater, put_updater, notify_updated, read_nodes, recv_rsp, read_updater, cluster_nodes_cmd,
  send_cmd, on_updater_events, handle_updater,
}
use redis_cerberus.Idle.{IsIdle}
use redis_cerberus.Idle.Long.{Stays, after_flush-IsIdle}
use redis_cerberus.Idle.Slots.{notify_slot_map_updated-IsIdle}

module _ (settings : Settings) where
  notify_updated-IsIdle :
      (u : Updater) (p : Proxy) → IsIdle p → IsIdle (notify_updated settings u p)
  unfolding notify_updated
  notify_updated-IsIdle u p idle =
      let q = put_updater (record u { closed = true }) p in
      if-both IsIdle u.proxy_already_updated q
        (notify_slot_map_updated settings u.nodes u.remotes (covered_slots u) q) idle
        (notify_slot_map_updated-IsIdle settings u.nodes u.remotes (covered_slots u) q idle)

  recv_rsp-IsIdle :
      (u : Updater) (o : Outcome (List Response × Bytes)) (p : Proxy)
      → IsIdle p
      → IsIdle (recv_rsp settings u o p)
  unfolding recv_rsp
  recv_rsp-IsIdle u (ok ([], rest)) p idle = idle
  recv_rsp-IsIdle u (ok (r ∷ [], rest)) p idle =
      notify_updated-IsIdle (read_nodes settings.environment.unset r (record u { rsp = rest })) p
        idle
  recv_rsp-IsIdle u (ok (r ∷ s ∷ rs, rest)) p idle =
      notify_updated-IsIdle (record u { rsp = rest }) p idle
  recv_rsp-IsIdle u other p idle = notify_updated-IsIdle u p idle

  read_updater-IsIdle :
      (u : Updater) (input : Input) (p : Proxy) → IsIdle p → Stays (read_updater settings u input p)
  unfolding read_updater
  read_updater-IsIdle u Input.fails p idle = idle
  read_updater-IsIdle u (Input.bytes bs) p idle =
      recv_rsp-IsIdle u (split_server_response (u.rsp ++ bs)) p idle

  on_updater_events-IsIdle :
      (u : Updater) (events : Events) (input : Input) (answers : List Answer) (p : Proxy)
      → IsIdle p
      → Stays (on_updater_events settings u events input answers p)
  unfolding on_updater_events send_cmd
  on_updater_events-IsIdle u events input answers p idle =
      let ends : Handled = (program_ends p, false) in
      let write = if u.closed then ends else send_cmd answers p in
      let reads = if u.closed then ends else read_updater settings u input p in
      let rest = if events.readable then reads else (p, false) in
      if-both Stays events.hup (notify_updated settings u p, false)
        (if events.writable then write else rest) (notify_updated-IsIdle u p idle)
        (if-both Stays events.writable write rest
          (if-both Stays u.closed ends (send_cmd answers p) idle
            (after_flush-IsIdle (flush_mem cluster_nodes_cmd answers).status p idle))
          (if-both Stays events.readable reads (p, false)
            (if-both Stays u.closed ends (read_updater settings u input p) idle
              (read_updater-IsIdle u input p idle))
            idle))

  failed-IsIdle :
      (u : Updater) (h : Handled)
      → Stays h
      → (let r : Handled = if h.1 then (notify_updated settings u h.0, true) else (h.0, false) in
          Stays r)
  failed-IsIdle u (q, true) idle = notify_updated-IsIdle u q idle
  failed-IsIdle u (q, false) idle = idle

  pub handle_updater-IsIdle :
      (n : ℕ) (events : Events) (input : Input) (answers : List Answer) (p : Proxy)
      → IsIdle p
      → Stays (handle_updater settings n events input answers p)
  unfolding handle_updater
  handle_updater-IsIdle n events input answers p idle =
      found (find_updater n (p.slot_updaters ++ p.finished_slot_updaters))
    where
      found :
          (o : Option Updater)
          → (let r : Handled = elim o [
            | none ↦ (record p { faulted = true }, false)
            | some u ↦
                (let (q, failed) = on_updater_events settings u events input answers p in
                  if failed then (notify_updated settings u q, true) else (q, false))
          ] in
              Stays r)
      found none = idle
      found (some u) =
          failed-IsIdle u (on_updater_events settings u events input answers p)
            (on_updater_events-IsIdle u events input answers p idle)
