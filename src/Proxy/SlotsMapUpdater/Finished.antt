-- ===== src/Proxy/SlotsMapUpdater/Finished.antt =====
-- core/proxy.cpp: an updater that is finished, since the proxy has a slot map by then or has given it up.
use redis_cerberus.Prelude.{
  ℕ, true, false, List, [], ◌∷◌, ◌++◌, Bytes, some, if◌then◌else◌, ◌≡◌, refl, ap, ◌∙◌, if-both,
}
use redis_cerberus.Buffer.{Answer, Status, complete, later, threw, exhausted}
use redis_cerberus.Buffer.Flush.{flush_mem}
use redis_cerberus.Message.Outcome.{Outcome, ok}
use redis_cerberus.Response.{Response, split_server_response}
use redis_cerberus.State.{Updater, Proxy}
use redis_cerberus.Subscription.{after_flush, program_ends}
use redis_cerberus.Client.{Input, Events, Handled}
use redis_cerberus.Proxy.{Settings}
use redis_cerberus.Proxy.SlotsMapUpdater.{
  find_updater, notify_updated, read_nodes, recv_rsp, read_updater, send_cmd, on_updater_events,
  cluster_nodes_cmd, handle_updater,
}
use redis_cerberus.Proxy.SlotsMapUpdater.Receive.{note_nodes-Same}

-- Nothing of the proxy is changed but the updaters, and whether the thread goes on.
abbrev pub Apart : Proxy → Proxy → Type 0
Apart p q = q ≡ record p {
  slot_updaters = q.slot_updaters;
  finished_slot_updaters = q.finished_slot_updaters;
  terminated = q.terminated;
  blocked = q.blocked;
}

Apart-trans : (p q r : Proxy) → Apart p q → Apart q r → Apart p r
Apart-trans p q r e f =
    f
    ∙ ap
        (λ (t : Proxy). record t {
          slot_updaters = r.slot_updaters;
          finished_slot_updaters = r.finished_slot_updaters;
          terminated = r.terminated;
          blocked = r.blocked;
        })
        e

module _ (settings : Settings) where
  notify_updated-Apart :
      (u : Updater) (p : Proxy)
      → u.proxy_already_updated ≡ true
      → Apart p (notify_updated settings u p)
  unfolding notify_updated
  notify_updated-Apart u p done = rw (notify_updated, done) refl

  read_nodes-flag :
      (r : Response) (u : Updater)
      → (read_nodes settings.environment.unset r u).proxy_already_updated ≡ u.proxy_already_updated
  unfolding read_nodes
  read_nodes-flag r u = (note_nodes-Same _ _).0

  recv_rsp-Apart :
      (u : Updater) (o : Outcome (List Response × Bytes)) (p : Proxy)
      → u.proxy_already_updated ≡ true
      → Apart p (recv_rsp settings u o p)
  unfolding recv_rsp
  recv_rsp-Apart u (ok ([], rest)) p done = refl
  recv_rsp-Apart u (ok (r ∷ [], rest)) p done =
      notify_updated-Apart (read_nodes settings.environment.unset r (record u { rsp = rest })) p
        (read_nodes-flag r (record u { rsp = rest }) ∙ done)
  recv_rsp-Apart u (ok (r ∷ s ∷ rs, rest)) p done =
      notify_updated-Apart (record u { rsp = rest }) p done
  recv_rsp-Apart u other p done = notify_updated-Apart u p done

  read_updater-Apart :
      (u : Updater) (input : Input) (p : Proxy)
      → u.proxy_already_updated ≡ true
      → Apart p (read_updater settings u input p).0
  unfolding read_updater
  read_updater-Apart u Input.fails p done = refl
  read_updater-Apart u (Input.bytes bs) p done =
      recv_rsp-Apart u (split_server_response (u.rsp ++ bs)) p done

  after_flush-Apart : (s : Status) (p : Proxy) → Apart p (after_flush s p).0
  after_flush-Apart complete p = refl
  after_flush-Apart later p = refl
  after_flush-Apart threw p = refl
  after_flush-Apart exhausted p = refl

  send_cmd-Apart : (answers : List Answer) (p : Proxy) → Apart p (send_cmd answers p).0
  unfolding send_cmd
  send_cmd-Apart answers p = after_flush-Apart (flush_mem cluster_nodes_cmd answers).status p

  on_updater_events-Apart :
      (u : Updater) (events : Events) (input : Input) (answers : List Answer) (p : Proxy)
      → u.proxy_already_updated ≡ true
      → Apart p (on_updater_events settings u events input answers p).0
  unfolding on_updater_events
  on_updater_events-Apart u events input answers p done =
      let P = λ (h : Handled). Apart p h.0 in
      let ends : Handled = (program_ends p, false) in
      let write = if u.closed then ends else send_cmd answers p in
      let reads = if u.closed then ends else read_updater settings u input p in
      let rest = if events.readable then reads else (p, false) in
      if-both P events.hup (notify_updated settings u p, false)
        (if events.writable then write else rest) (notify_updated-Apart u p done)
        (if-both P events.writable write rest
          (if-both P u.closed ends (send_cmd answers p) refl (send_cmd-Apart answers p))
          (if-both P events.readable reads (p, false)
            (if-both P u.closed ends (read_updater settings u input p) refl
              (read_updater-Apart u input p done))
            refl))

  failed-Apart :
      (u : Updater) (p : Proxy) (h : Handled)
      → u.proxy_already_updated ≡ true
      → Apart p h.0
      → (let r : Handled = if h.1 then (notify_updated settings u h.0, true) else (h.0, false) in
          Apart p r.0)
  failed-Apart u p (q, true) done e =
      Apart-trans p q (notify_updated settings u q) e (notify_updated-Apart u q done)
  failed-Apart u p (q, false) done e = e

  -- An updater that is finished, but still has events in the same round of the loop, changes nothing of
  -- the proxy but the updaters, and the flags that tell that the program ends or that the thread waits in
  -- a loop, whatever it receives and wherever it fails: no slot map is set twice, and no command
  -- is discarded for it.
  pub handle_updater-Apart :
      (n : ℕ) (u : Updater) (events : Events) (input : Input) (answers : List Answer) (p : Proxy)
      → find_updater n (p.slot_updaters ++ p.finished_slot_updaters) ≡ some u
      → u.proxy_already_updated ≡ true
      → Apart p (handle_updater settings n events input answers p).0
  unfolding handle_updater
  handle_updater-Apart n u events input answers p found done =
      rw (handle_updater, found)
        (failed-Apart u p (on_updater_events settings u events input answers p) done
          (on_updater_events-Apart u events input answers p done))
