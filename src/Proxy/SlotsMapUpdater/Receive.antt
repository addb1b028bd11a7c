-- ===== src/Proxy/SlotsMapUpdater/Receive.antt =====
-- core/proxy.cpp: what an updater does with the nodes that it received.
use redis_cerberus.Prelude.{
  ℕ, ◌≤◌, ◌<◌, Bool, true, false, ◌||◌, ltb, List, [], ◌∷◌, Bytes, ◌≡◌, refl, sym, ap, subst, ◌∙◌,
  arith,
}
use redis_cerberus.Command.Parser.Single.{cluster_slot_count}
use redis_cerberus.Message.Outcome.{ok}
use redis_cerberus.Response.{Response, get_buffer}
use redis_cerberus.SlotMap.Node.{RedisNode}
use redis_cerberus.SlotMap.Nodes.{parse_slot_map}
use redis_cerberus.State.{Updater, Proxy, contains}
use redis_cerberus.Command.Parser.Keys.{is_nil}
use redis_cerberus.Text.Address.{Address}
use redis_cerberus.Proxy.{
  Settings, covered_slots, move_closed_slot_updaters, set_slot_map, update_slot_map_failed,
  notify_slot_map_updated,
}
use redis_cerberus.Proxy.SlotsMapUpdater.{
  put_updater, notify_updated, note_node, note_nodes, read_nodes, recv_rsp,
}
use redis_cerberus.Proxy.SlotsMapUpdater.Coverage.{
  named_covers, Distinct, note_nodes-contains, note_nodes-Distinct, length-full, length-partial,
}

-- The nodes that a response holds, and the updater with them, closed.
abbrev pub nodes_in : Settings → Updater → Response → List RedisNode
nodes_in settings u r = parse_slot_map settings.environment.unset (get_buffer r) u.addr.host

abbrev pub received : Settings → Updater → Bytes → Response → Updater
received settings u rest r =
    record (read_nodes settings.environment.unset r (record u { rsp = rest })) { closed = true }

-- The covered slots and the remotes are all that the loop over the nodes changes.
abbrev pub Same : Updater → Updater → Type 0
Same u v = (v.proxy_already_updated ≡ u.proxy_already_updated) × (v.nodes ≡ u.nodes)

note_node-Same : (nil : Bool) (node : RedisNode) (u : Updater) → Same u (note_node nil node u)
unfolding note_node
note_node-Same true node u = (refl, refl)
note_node-Same false node u = (refl, refl)

pub note_nodes-Same : (nodes : List RedisNode) (u : Updater) → Same u (note_nodes nodes u)
unfolding note_nodes
note_nodes-Same [] u = (refl, refl)
note_nodes-Same (node ∷ nodes) u =
    let v = note_node (is_nil node.addr.host) node u in
    let (a, b) = note_node-Same (is_nil node.addr.host) node u in
    let (a', b') = note_nodes-Same nodes v in (a' ∙ a, b' ∙ b)

contains-none : (b : Bool) (slot : ℕ) → (b || contains [] slot) ≡ b
unfolding contains
contains-none true slot = refl
contains-none false slot = refl

notify_updated-waits :
    (settings : Settings) (v : Updater) (p : Proxy)
    → v.proxy_already_updated ≡ false
    → notify_updated settings v p
      ≡ notify_slot_map_updated settings v.nodes v.remotes
          (covered_slots v)
          (put_updater (record v { closed = true }) p)
unfolding notify_updated
notify_updated-waits settings v p waits = rw (notify_updated, waits) refl

module _ (settings : Settings) (nodes : List RedisNode) (remotes : List Address) (covered : ℕ)
    (p : Proxy) where
  notify-full :
      cluster_slot_count ≤ covered
      → notify_slot_map_updated settings nodes remotes covered p
        ≡ move_closed_slot_updaters (set_slot_map settings nodes remotes p)
  unfolding notify_slot_map_updated
  notify-full h =
      let enough : ltb covered cluster_slot_count ≡ false = ground arith in
      rw (notify_slot_map_updated, enough) refl

  notify-partial :
      covered < cluster_slot_count
      → notify_slot_map_updated settings nodes remotes covered p ≡ update_slot_map_failed settings p
  unfolding notify_slot_map_updated
  notify-partial h =
      let few : ltb covered cluster_slot_count ≡ true = ground arith in
      rw (notify_slot_map_updated, few) refl

module _ (settings : Settings) (u : Updater) (r : Response) (rest : Bytes) (p : Proxy)
    (waits : u.proxy_already_updated ≡ false) (fresh : u.covered ≡ []) where
  at_nodes : Updater
  at_nodes = record u { rsp = rest; nodes = nodes_in settings u r }

  covered_at :
      (slot : ℕ)
      → contains (received settings u rest r).covered slot
        ≡ named_covers (nodes_in settings u r) slot
  unfolding read_nodes at_nodes
  covered_at slot =
      note_nodes-contains (nodes_in settings u r) at_nodes slot
      ∙ ap (λ xs. named_covers (nodes_in settings u r) slot || contains xs slot) fresh
      ∙ contains-none (named_covers (nodes_in settings u r) slot) slot

  distinct : Distinct (received settings u rest r).covered
  unfolding read_nodes at_nodes Distinct
  distinct = note_nodes-Distinct (nodes_in settings u r) at_nodes (subst Distinct (sym fresh) tt)

  recv_rsp-notifies :
      recv_rsp settings u (ok (r ∷ [], rest)) p
      ≡ notify_slot_map_updated settings
          (nodes_in settings u r)
          (received settings u rest r).remotes
          (covered_slots (received settings u rest r))
          (put_updater (received settings u rest r) p)
  unfolding recv_rsp read_nodes at_nodes
  recv_rsp-notifies =
      let (flag, nodes) = note_nodes-Same (nodes_in settings u r) at_nodes in
      let v = received settings u rest r in
      notify_updated-waits settings
        (read_nodes settings.environment.unset r (record u { rsp = rest })) p (flag ∙ waits)
      ∙ ap (λ ns. notify_slot_map_updated settings ns v.remotes (covered_slots v) (put_updater v p))
          nodes

  -- An updater that has no covered slots yet, and whose proxy is not updated, receives one response. Where
  -- those of its nodes that have a host cover all slots, by ranges of whatever form, the proxy is given
  -- all nodes of the response as its slot map, those without a host included.
  pub recv_rsp-full :
      ((slot : ℕ) → slot < cluster_slot_count → named_covers (nodes_in settings u r) slot ≡ true)
      → recv_rsp settings u (ok (r ∷ [], rest)) p
        ≡ move_closed_slot_updaters (
            set_slot_map settings
              (nodes_in settings u r)
              (received settings u rest r).remotes
              (put_updater (received settings u rest r) p))
  recv_rsp-full all =
      let v = received settings u rest r in
      recv_rsp-notifies
      ∙ notify-full settings (nodes_in settings u r) v.remotes (covered_slots v) (put_updater v p)
          (length-full cluster_slot_count v.covered (λ k h. covered_at k ∙ all k h))

  -- An updater that has no covered slots yet, and whose proxy is not updated, receives one response. Where
  -- one slot is in no range of a node that has a host, and no range of such a node goes beyond the slots
  -- of the cluster, the nodes are not taken for a whole slot map: the proxy does what it does where an
  -- updater fails. So it may still take the nodes of the updater that covers most, this one or
  -- another, once all are closed and full coverage is not required.
  pub recv_rsp-partial :
      (missing : ℕ)
      → missing < cluster_slot_count
      → named_covers (nodes_in settings u r) missing ≡ false
      → ((slot : ℕ) → named_covers (nodes_in settings u r) slot ≡ true → slot < cluster_slot_count)
      → recv_rsp settings u (ok (r ∷ [], rest)) p
        ≡ update_slot_map_failed settings (put_updater (received settings u rest r) p)
  recv_rsp-partial missing h not_there bounded =
      let v = received settings u rest r in
      recv_rsp-notifies
      ∙ notify-partial settings (nodes_in settings u r) v.remotes (covered_slots v)
          (put_updater v p)
          (length-partial cluster_slot_count v.covered missing distinct
            (λ j e. bounded j (sym (covered_at j) ∙ e)) h (covered_at missing ∙ not_there))
