-- ===== src/Proxy.antt =====
-- core/proxy.cpp: `Proxy`, which brings the slot map up to date, sends commands again, and handles the
-- events of the connections of its thread.
pub mod Update
pub mod Retry
pub mod SlotsMapUpdater
pub mod EventLoop
use redis_cerberus.Prelude.{
  ℕ, suc, ◌+◌, length, map, Bool, true, false, not, ◌||◌, ◌&&◌, List, [], ◌∷◌, ◌++◌, Bytes, codes,
  Option, none, some, ltb, ◌==◌, if◌then◌else◌,
}
use redis_cerberus.Prelude.Int.{pos}
use redis_cerberus.Text.Address.{Address}
use redis_cerberus.Buffer.{Answer}
use redis_cerberus.Command.Parser.Admin.{set_remotes}
use redis_cerberus.Command.Parser.Keys.{is_nil}
use redis_cerberus.Command.Parser.Single.{cluster_slot_count}
use redis_cerberus.Command.Splitter.{Environment}
use redis_cerberus.State.{
  CommandRef, Client, Connection, client_connection, server_connection, is_connection, Proxy,
  Updater, set_client, incr,
}
use redis_cerberus.State.Queues.{select_server}
use redis_cerberus.SlotMap.{Network, replace_map, clear}
use redis_cerberus.SlotMap.Node.{RedisNode}
use redis_cerberus.Client
use redis_cerberus.Client.{Handled, Input, Events, Socket}
use redis_cerberus.Client.Responses.{on_remote_responsed}
use redis_cerberus.Server
use redis_cerberus.Server.{close_conn, after_client_events}

-- What does not change while a thread runs: the network, whose slaves are used, whether all slots have
-- to be covered, and the system's `IOV_MAX`.
pub record Settings : Type 0 where
  pub network : Network
  pub slave : Option Bytes
  pub req_full_cov : Bool
  pub iov_max : ℕ
  pub environment : Environment

-- The commands are selected a server again, in order. A command that finds none waits again, and the
-- slot map is not up to date.
unfoldable pub retry_commands : List CommandRef → Proxy → Proxy
unfolding select_server
retry_commands [] p = p
retry_commands (c ∷ cs) p =
    let (q, selected) = select_server c p in
    retry_commands cs (elim selected [ none ↦ record q { slot_map_expired = true } | some s ↦ q ])

-- `_set_slot_map`.
unfoldable pub set_slot_map : Settings → List RedisNode → List Address → Proxy → Proxy
unfolding replace_map retry_commands
set_slot_map settings nodes remotes p =
    let q = replace_map settings.network settings.slave nodes p in
    retry_commands q.retrying_commands (record q {
      slot_map_expired = false;
      cluster_ok = true;
      effects = q.effects ++ set_remotes remotes ∷ [];
      retrying_commands = [];
    })

-- `-CLUSTERDOWN` to each command that waits.
abbrev pub cluster_down : Bytes
cluster_down = codes "-CLUSTERDOWN The cluster is down\r\n"

unfoldable pub discard_commands : List CommandRef → Proxy → Proxy
unfolding on_remote_responsed
discard_commands [] p = p
discard_commands (c ∷ cs) p = discard_commands cs (on_remote_responsed c cluster_down true p)

unfoldable pub all_closed : List Updater → Bool
all_closed [] = true
all_closed (u ∷ us) = u.closed && all_closed us

abbrev pub covered_slots : Updater → ℕ
covered_slots u = length u.covered

-- `util::max_element`: the first of those that covered most.
unfoldable pub max_covered : Updater → List Updater → Updater
max_covered best [] = best
max_covered best (u ∷ us) =
    max_covered (if ltb (covered_slots best) (covered_slots u) then u else best) us

abbrev pub proxy_updated : Updater → Updater
proxy_updated u = record u { proxy_already_updated = true }

-- `_move_closed_slot_updaters`, which moves the open ones too.
abbrev pub move_closed_slot_updaters : Proxy → Proxy
move_closed_slot_updaters p = record p {
  slot_updaters = [];
  finished_slot_updaters = p.finished_slot_updaters ++ map proxy_updated p.slot_updaters;
}

unfoldable pub discard_all : Proxy → Proxy
unfolding discard_commands clear
discard_all p =
    let q = clear (record (move_closed_slot_updaters p) { cluster_ok = false }) in
    record (discard_commands q.retrying_commands (record q { retrying_commands = [] })) {
      slot_map_expired = false;
    }

-- The updater whose slot map is taken though it does not cover all slots.
unfoldable pub candidate : Bool → List Updater → Option Updater
unfolding max_covered
candidate req_full_cov [] = none
candidate req_full_cov (u ∷ us) =
    let best = max_covered u us in
    if req_full_cov || covered_slots best == 0 then none else some best

unfoldable pub update_slot_map_failed : Settings → Proxy → Proxy
unfolding all_closed candidate set_slot_map discard_all
update_slot_map_failed settings p =
    if all_closed p.slot_updaters
    then (elim (candidate settings.req_full_cov p.slot_updaters) [
      | none ↦ discard_all p
      | some u ↦ move_closed_slot_updaters (set_slot_map settings u.nodes u.remotes p)
    ])
    else p

unfoldable pub notify_slot_map_updated :
    Settings → List RedisNode → List Address → ℕ → Proxy → Proxy
unfolding update_slot_map_failed set_slot_map
notify_slot_map_updated settings nodes remotes covered p =
    if ltb covered cluster_slot_count
    then update_slot_map_failed settings p
    else move_closed_slot_updaters (set_slot_map settings nodes remotes p)

abbrev pub new_updater : ℕ → Address → Updater
new_updater number addr = record {
  number = number;
  addr = addr;
  rsp = [];
  closed = false;
  proxy_already_updated = false;
  nodes = [];
  remotes = [];
  covered = [];
}

-- An updater for each remote to which a connection opens. They are numbered from `next` on.
unfoldable pub open_updaters : (Address → Bool) → ℕ → List Address → List Updater
open_updaters connects next [] = []
open_updaters connects next (a ∷ remotes) =
    let rest = open_updaters connects (suc next) remotes in
    if connects a then new_updater next a ∷ rest else rest

-- `_retrieve_slot_map`, given the remotes that are set.
unfoldable pub retrieve_slot_map : Settings → List Address → Proxy → Proxy
unfolding open_updaters update_slot_map_failed
retrieve_slot_map settings remotes p =
    let us = p.slot_updaters ++ open_updaters settings.network.connects p.next_updater remotes in
    let q = record p { slot_updaters = us; next_updater = p.next_updater + length remotes } in
    if is_nil remotes
    then update_slot_map_failed settings p
    else (if is_nil us then update_slot_map_failed settings q else q)

unfoldable pub should_update_slot_map : Proxy → Bool
should_update_slot_map p =
    is_nil p.slot_updaters && (not (is_nil p.retrying_commands) || p.slot_map_expired)

abbrev pub fresh_client : Client
fresh_client = record {
  closed = false;
  peers = [];
  parsed_groups = [];
  awaiting_groups = [];
  ready_groups = [];
  awaiting_count = pos 0;
  buffer = [];
  output = record { buf_arr = []; first_offset = 0 };
  written = [];
}

unfoldable pub new_client : ℕ → Proxy → Proxy
new_client c p = set_client c fresh_client (record p { clients_count = incr p.clients_count })
